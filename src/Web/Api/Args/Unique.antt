-- ===== src/Web/Api/Args/Unique.antt =====
-- `_get_unique_bundles` keeps each bundle once.
use iib.Common.{
  any, String, ◌≡◌, refl, true, false, List, [], ◌∷◌, arith, contains, All, ap, if◌then◌else◌,
  All-map,
}
use iib.Exn.{ok}
use iib.Json.{Json, str, is_str}
use iib.Web.Params.{strings_of}
use iib.Web.Api.Args.{is_unhashable, unique_from, get_unique_bundles}

-- No text of the list stands in it again.
abbrev pub IsUnique : List String → Type 0
IsUnique [] = Unit
IsUnique (s ∷ xs) = (contains s xs ≡ false) × IsUnique xs

-- Only texts.
abbrev pub AllStrings : List Json → Type 0
AllStrings = All (λ v. is_str v ≡ true)

contains-unique_from :
    (s : String) (seen : List String) (bundles : List Json)
    → contains s (strings_of (unique_from seen bundles))
      ≡ (if contains s seen then false else contains s (strings_of bundles))
unfolding unique_from
contains-unique_from s seen [] = ground arith
contains-unique_from s seen (str t ∷ bundles) =
    ground (arith, contains-unique_from s seen bundles, contains-unique_from s (t ∷ seen) bundles)
contains-unique_from s seen (v ∷ bundles) = contains-unique_from s seen bundles

unique_from-IsUnique :
    (seen : List String) (bundles : List Json) → IsUnique (strings_of (unique_from seen bundles))
unfolding unique_from
unique_from-IsUnique seen [] = tt
unique_from-IsUnique seen (str s ∷ bundles) = ground (
  arith,
  unique_from-IsUnique seen bundles,
  unique_from-IsUnique (s ∷ seen) bundles,
  contains-unique_from s (s ∷ seen) bundles,
)
unique_from-IsUnique seen (v ∷ bundles) = unique_from-IsUnique seen bundles

not-seen :
    (s : String) (xs seen : List String)
    → All (λ t. contains t (s ∷ xs) ≡ false) seen
    → contains s seen ≡ false
not-seen s xs [] h = refl
not-seen s xs (t ∷ seen) h = ground (arith, not-seen s xs seen h.1)

unique_from_same :
    (seen : List String) (bundles : List Json)
    → All (λ s. contains s (strings_of bundles) ≡ false) seen
    → IsUnique (strings_of bundles)
    → unique_from seen bundles ≡ bundles
unfolding unique_from
unique_from_same seen [] h u = refl
unique_from_same seen (str s ∷ bundles) h u = ground (
  arith,
  not-seen s (strings_of bundles) seen h,
  unique_from_same (s ∷ seen) bundles (u.0, All-map (λ t g. ground arith) seen h) u.1,
)
unique_from_same seen (v ∷ bundles) h u = ap (λ x. v ∷ x) (unique_from_same seen bundles h u)

-- The list that is left holds each bundle once, and the same bundles as the list given.
pub get_unique_bundles-IsUnique :
    (bundles unique : List Json)
    → get_unique_bundles bundles ≡ ok unique
    → IsUnique (strings_of unique)
      × ((s : String) → contains s (strings_of unique) ≡ contains s (strings_of bundles))
unfolding get_unique_bundles
get_unique_bundles-IsUnique bundles unique e =
    let same : unique_from [] bundles ≡ unique = ground arith in
    rw (← same) (unique_from-IsUnique [] bundles, λ s. contains-unique_from s [] bundles)

-- A list of hashable items in which no text comes twice is left as it is.
get_unique_bundles_same :
    (bundles : List Json)
    → any is_unhashable bundles ≡ false
    → IsUnique (strings_of bundles)
    → get_unique_bundles bundles ≡ ok bundles
unfolding get_unique_bundles
get_unique_bundles_same bundles h u = rw h (ap ok (unique_from_same [] bundles tt u))
