-- ===== src/Web/Session/Images.antt =====
-- `Image.get_or_create` of iib/web/models.py: which names it takes, and the table that it leaves.
use iib.Common.{
  inl, inr, Bool-cases, String, ◌≡◌, refl, Bool, true, false, ◌||◌, ◌==◌, none, List, [], ◌∷◌, ◌++◌,
  arith, contains, if◌then◌else◌,
}
use iib.Common.Text.{has_char}
use iib.Exn.{ok, err, validation_error, image_without_tag}
use iib.Web.Tables.{Image}
use iib.Web.Session.{World, get_or_create_image, image_names}
use iib.Web.Api.Args.Unique.{IsUnique}

module _ (i : Image) where
  contains-image_names :
      (s : String) (images : List Image)
      → contains s (image_names (images ++ i ∷ []))
        ≡ (contains s (image_names images) || i.pull_specification == s)
  unfolding image_names
  contains-image_names s [] = ground arith
  contains-image_names s (x ∷ images) = ground (arith, contains-image_names s images)

  image_names-IsUnique :
      (images : List Image)
      → IsUnique (image_names images)
      → contains i.pull_specification (image_names images) ≡ false
      → IsUnique (image_names (images ++ i ∷ []))
  unfolding image_names
  image_names-IsUnique [] h c = (refl, tt)
  image_names-IsUnique (x ∷ images) h c = (
    ground (arith, contains-image_names x.pull_specification images),
    image_names-IsUnique images h.1 (ground arith),
  )

-- What the table of images is after the call.
pub record HasImage (spec : String) (w w' : World) : Type 0 where
  pub unique : IsUnique (image_names w'.tables.images)
  pub there : contains spec (image_names w'.tables.images) ≡ true
  pub kept :
      (s : String)
      → contains s (image_names w.tables.images) ≡ true
      → contains s (image_names w'.tables.images) ≡ true

HasImage-added :
    (spec : String) (w : World) (b : Bool)
    → contains spec (image_names w.tables.images) ≡ b
    → IsUnique (image_names w.tables.images)
    → HasImage spec w (
        if b then w else record w {
          tables = record w.tables {
            images = w.tables.images ++ record { pull_specification = spec; operator = none } ∷ [];
          };
        })
HasImage-added spec w true e h = record { unique = h; there = e; kept = λ s k. k }
HasImage-added spec w false e h =
    let new : Image = record { pull_specification = spec; operator = none } in
    record {
      unique = image_names-IsUnique new w.tables.images h e;
      there = ground (arith, contains-image_names new spec w.tables.images);
      kept = λ s k. ground (arith, contains-image_names new s w.tables.images);
    }

-- From a table with no two images of one name, a name with a tag or a digest is taken, is in the
-- table afterwards, no two images have one name and no image is lost; any other name is refused.
pub get_or_create_image-HasImage :
    (spec : String) (w : World)
    → IsUnique (image_names w.tables.images)
    → (if has_char b'@' spec || has_char b':' spec
        then ((get_or_create_image spec w).0 ≡ ok spec)
          × HasImage spec w (get_or_create_image spec w).1
        else (get_or_create_image spec w ≡ (err (validation_error (image_without_tag spec)), w)))
unfolding get_or_create_image
get_or_create_image-HasImage spec w h =
    elim (Bool-cases (has_char b'@' spec || has_char b':' spec)) [
      | inl taken ↦ rw taken (refl, HasImage-added spec w _ refl h)
      | inr refused ↦ rw refused refl
    ]
