-- ===== src/Workers/Images/Names.antt =====
-- `_get_container_image_name` and `get_resolved_image` of iib/workers/tasks/utils.py.
use Prim.Native.String.{String}
use iib.Common.{◌≡◌, refl, arith, true, false}
use iib.Common.Text.{◌⧺◌, has_char, empty-⧺, cons-⧺}
use iib.Common.Find.{before_first}
use iib.Workers.Images.{get_container_image_name}

has_char-⧺ : (s t : String) → has_char b'@' (s ⧺ "@" ⧺ t) ≡ true
unfolding has_char
has_char-⧺ String.[] t = rw (empty-⧺, cons-⧺) refl
has_char-⧺ (String.◌∷◌ c s) t = rw (cons-⧺ c s ("@" ⧺ t)) ground (arith, has_char-⧺ s t)

before_first-⧺ : (s t : String) → has_char b'@' s ≡ false → before_first b'@' (s ⧺ "@" ⧺ t) ≡ s
unfolding has_char before_first
before_first-⧺ String.[] t h = rw (empty-⧺, cons-⧺) refl
before_first-⧺ (String.◌∷◌ c s) t h = rw (cons-⧺ c s ("@" ⧺ t)) ground (arith, before_first-⧺ s t)

-- The name of an image whose pull specification was resolved to a digest is the name it was resolved
-- from, where the name has no `@`.
pub get_container_image_name-resolved :
    (name digest : String)
    → has_char b'@' name ≡ false
    → get_container_image_name (name ⧺ "@" ⧺ digest) ≡ name
unfolding get_container_image_name
get_container_image_name-resolved name digest h =
    rw (has_char-⧺ name digest) (before_first-⧺ name digest h)
