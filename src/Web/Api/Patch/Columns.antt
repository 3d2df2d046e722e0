-- ===== src/Web/Api/Patch/Columns.antt =====
-- The changes that a PATCH makes to other columns than the states.
use iib.Common.{
  ℕ, String, ◌≡◌, refl, Option, none, some, Option-cases, inl, inr, List, [], ◌∷◌, arith, All,
  last?, subst, sym,
}
use iib.Common.Dict.{Dict, get}
use iib.Json.{Json}
use iib.Exn.{ok}
use iib.Web.Tables.{Request}
use iib.Web.Request.{add_architecture, refresh, find_state}
use iib.Web.Request.History.{IsSettled}
use iib.Web.Params.{strings}
use iib.Web.Messaging.{find_request}
use iib.Web.Session.{
  World, modify, get_or_create_image, get_or_create_operator, get_or_create_architecture,
}
use iib.Web.Session.Sound.{
  Leads, Leads-bind, Leads-same, Leads-pure, Leads-if, Leads-raise, Leads-get_or_create_image,
  Leads-get_or_create_operator, Leads-get_or_create_architecture,
}
use iib.Web.Api.Broker.Sound.{find_request-All, replace_request-All}
use iib.Web.FromJson.Index.{text}
use iib.Web.Api.Patch.{
  update_request, patch_omps, set_image_column, patch_image, patch_images, patch_arches,
  set_operator, patch_bundles, patch_mapping, patch_scope, image_keys,
}

committed-update_request :
    (id : ℕ) (f : Request → Request) (w : World) → (update_request id f w).1.committed ≡ w.committed
unfolding update_request
committed-update_request id f w = ground arith

tables-update_request :
    (id : ℕ) (f : Request → Request)
    → ((r : Request) → IsSettled r → IsSettled (f r))
    → (w : World) (a : Unit {0}) → All IsSettled w.tables.requests
    → (update_request id f w).0 ≡ ok a
    → All IsSettled (update_request id f w).1.tables.requests
unfolding update_request
tables-update_request id f kf w a p h = elim (Option-cases (find_request id w.tables.requests)) [
  | inl gone ↦ cc (rw (gone, update_request) at h)
  | inr (r, found) ↦
      rw (found, update_request)
        (replace_request-All IsSettled (f r) w.tables.requests p
          (kf r (find_request-All IsSettled id w.tables.requests r p found)))
]

Leads-update_request :
    (id : ℕ) (f : Request → Request)
    → ((r : Request) → IsSettled r → IsSettled (f r))
    → Leads IsSettled IsSettled (update_request id f)
Leads-update_request id f kf = record {
  committed = λ w p h. rw (committed-update_request id f w) h;
  tables = tables-update_request id f kf;
}

-- No change of another column touches the states.
IsSettled-same :
    (r r' : Request)
    → r'.states ≡ r.states
    → r'.request_state_id ≡ r.request_state_id
    → IsSettled r
    → IsSettled r'
unfolding refresh
IsSettled-same r r' e k h = record {
  valid = rw e h.valid;
  ordered = rw e h.ordered;
  keyed =
      subst (λ o. elim o [ none ↦ none | some id ↦ find_state id r'.states ] ≡ last? r'.states)
        (sym k)
        (subst
          (λ ss. elim r.request_state_id [ none ↦ none | some id ↦ find_state id ss ] ≡ last? ss)
          (sym e) h.keyed);
}

pub Leads-patch_omps :
    (r : Request) (payload : Dict Json) → Leads IsSettled IsSettled (patch_omps r payload)
unfolding patch_omps
Leads-patch_omps r payload = Leads-if _ _ _ (Leads-pure tt (λ r k. k)) (
    Leads-if _ _ _ (Leads-raise _)
      (Leads-update_request r.id _ (λ r h. IsSettled-same r _ refl refl h)))

set_image_column-IsSettled :
    (key spec : String) (r : Request) → IsSettled r → IsSettled (set_image_column key spec r)
unfolding set_image_column
set_image_column-IsSettled key spec r h = IsSettled-same r _ (ground arith) (ground arith) h

Leads-patch_image :
    (id : ℕ) (key : String) (v : Option Json) → Leads IsSettled IsSettled (patch_image id key v)
unfolding patch_image
Leads-patch_image id key none = Leads-pure tt (λ r k. k)
Leads-patch_image id key (some v) =
    Leads-bind (get_or_create_image (text v)) _ (Leads-get_or_create_image _)
      (λ spec. Leads-update_request id _ (set_image_column-IsSettled key spec))

pub Leads-patch_images :
    (id : ℕ) (payload : Dict Json) (image_keys : List String)
    → Leads IsSettled IsSettled (patch_images id payload image_keys)
unfolding patch_images
Leads-patch_images id payload [] = Leads-pure tt (λ r k. k)
Leads-patch_images id payload (key ∷ image_keys) =
    Leads-bind (patch_image id key (get key payload)) _ (Leads-patch_image id key _)
      (λ _. Leads-patch_images id payload image_keys)

add_architecture-IsSettled :
    (name : String) (r : Request) → IsSettled r → IsSettled (add_architecture name r)
unfolding add_architecture
add_architecture-IsSettled name r h = IsSettled-same r _ (ground arith) (ground arith) h

pub Leads-patch_arches :
    (id : ℕ) (arches : List String) → Leads IsSettled IsSettled (patch_arches id arches)
unfolding patch_arches
Leads-patch_arches id [] = Leads-pure tt (λ r k. k)
Leads-patch_arches id (arch ∷ arches) =
    Leads-bind (get_or_create_architecture arch) _ (Leads-get_or_create_architecture arch) (λ name.
      Leads-bind (update_request id (add_architecture name)) _
        (Leads-update_request id _ (add_architecture-IsSettled name))
        (λ _. Leads-patch_arches id arches))

Leads-patch_bundles :
    (operator : String) (bundles : List String)
    → Leads IsSettled IsSettled (patch_bundles operator bundles)
unfolding patch_bundles
Leads-patch_bundles operator [] = Leads-pure tt (λ r k. k)
Leads-patch_bundles operator (bundle ∷ bundles) =
    Leads-bind (get_or_create_image bundle) _ (Leads-get_or_create_image bundle) (λ spec.
      Leads-bind
        (modify (λ w. record w {
          tables = record w.tables { images = set_operator spec operator w.tables.images };
        }))
        _ (Leads-same _ (λ w. refl) (λ w. refl) (λ r k. k))
        (λ _. Leads-patch_bundles operator bundles))

pub Leads-patch_mapping : (mapping : Dict Json) → Leads IsSettled IsSettled (patch_mapping mapping)
unfolding patch_mapping
Leads-patch_mapping [] = Leads-pure tt (λ r k. k)
Leads-patch_mapping ((operator, bundles) ∷ mapping) =
    Leads-bind (get_or_create_operator operator) _ (Leads-get_or_create_operator operator) (λ name.
      Leads-bind (patch_bundles name (strings bundles)) _
        (Leads-patch_bundles name (strings bundles)) (λ _. Leads-patch_mapping mapping))

pub Leads-patch_scope : (id : ℕ) (v : Option Json) → Leads IsSettled IsSettled (patch_scope id v)
unfolding patch_scope
Leads-patch_scope id none = Leads-pure tt (λ r k. k)
Leads-patch_scope id (some v) = Leads-update_request id _ (λ r h. IsSettled-same r _ refl refl h)
