-- ===== src/Workers/Merge/Version.antt =====
-- `is_bundle_version_valid` of iib/workers/tasks/build_merge_index_image.py. Of the notations of
-- Python's `float` only digits with at most one point are numbers here; a sign, an exponent, spaces
-- and the names of infinity and NaN are not, and the numbers are exact.
use iib.Common.{
  ℕ, zero, suc, ◌+◌, ◌-◌, ◌*◌, String, Bool, false, not, ◌&&◌, ◌||◌, Option, none, some, List, [],
  ◌∷◌, nat_eq, if◌then◌else◌,
}
use iib.Common.Text.{◌⧺◌, has_char}
use iib.Common.Find.{rstrip}
use iib.Exn.{attribute_error, Result, ok, err, iib_error}
use iib.Json.{Json, str}
use iib.Workers.Exec.{Env, Exec, lift, ◌>>=◌}
use iib.Workers.Images.{get_image_label}
use Prim.Native.Char.{code}
use iib.Common.{leb}
use iib.Common.Find.{starts_with}
use iib.Common.Text.{codes}

-- The number `units / 10 ^ places`.
pub record Number : Type 0 where
  pub units : ℕ
  pub places : ℕ

abbrev is_digit : ℕ → Bool
is_digit c = leb 48 c && leb c 57

-- What has been read: the number, whether there was a digit, and whether there was a point.
abbrev scan : Number → (digits point : Bool) → List ℕ → Option Number
scan n digits point [] = if digits then some n else none
scan n digits point (c ∷ cs) =
    let next =
      if is_digit c
      then record {
        units = n.units * 10 + (c - 48);
        places = if point then n.places + 1 else n.places;
      }
      else n in
    let rest = scan next (digits || is_digit c) (point || nat_eq c b'.') cs in
    if is_digit c || not point && nat_eq c b'.' then rest else none

-- `float(s)`
unfoldable pub parse_number : String → Option Number
parse_number s = scan (record { units = 0; places = 0 }) false false (codes s)

abbrev pow10 : ℕ → ℕ
pow10 zero = 1
pow10 (suc n) = 10 * pow10 n

unfoldable pub number_leb : Number → Number → Bool
number_leb a b = leb (a.units * pow10 b.places) (b.units * pow10 a.places)

-- `s.replace(c, '')`
unfoldable pub without_char : ℕ → String → String
without_char c String.[] = String.[]
without_char c (String.◌∷◌ d s) =
    let rest = without_char c s in if nat_eq (code d) c then rest else String.◌∷◌ d rest

-- `s.split(c)`
abbrev split_char_from : ℕ → (piece : String) → String → List String
split_char_from c piece String.[] = piece ∷ []
split_char_from c piece (String.◌∷◌ d s) =
    let cuts = nat_eq (code d) c in
    let rest = split_char_from c (if cuts then "" else piece ⧺ String.◌∷◌ d String.[]) s in
    if cuts then piece ∷ rest else rest

unfoldable pub split_char : ℕ → String → List String
split_char c s = split_char_from c "" s

abbrev lstrip_char : ℕ → String → String
lstrip_char c String.[] = String.[]
lstrip_char c (String.◌∷◌ d s) =
    let rest = lstrip_char c s in if nat_eq (code d) c then rest else String.◌∷◌ d s

unfoldable pub parse_all : List String → Option (List Number)
unfolding parse_number
parse_all [] = some []
parse_all (s ∷ ss) = elim (parse_number s) [
  | none ↦ none
  | some n ↦ elim (parse_all ss) [ none ↦ none | some ns ↦ some (n ∷ ns) ]
]

abbrev in_range : Number → Option (List Number) → Bool
in_range v (some (low ∷ high ∷ [])) = number_leb low v && number_leb v high
in_range v _ = false

abbrev from_first : Number → Option (List Number) → Bool
from_first v (some (first ∷ others)) = number_leb first v
from_first v _ = false

abbrev at_least : Number → Option Number → Bool
at_least v none = false
at_least v (some n) = number_leb n v

abbrev equal_to : Number → Option Number → Bool
equal_to v none = false
equal_to v (some n) = number_leb n v && number_leb v n

-- The tests of the label: a `ValueError` makes the version not valid.
unfoldable pub label_allows : (bundle_version_label : String) → (valid : Number) → Bool
unfolding parse_all number_leb without_char split_char
label_allows label valid =
    if starts_with "=" label
    then equal_to valid (parse_number (rstrip b'=' (lstrip_char b'=' (without_char b'v' label))))
    else if has_char b'-' label
    then in_range valid (parse_all (split_char b'-' (without_char b'v' label)))
    else if has_char b',' label
    then from_first valid (parse_all (split_char b',' (without_char b'v' label)))
    else at_least valid (parse_number (without_char b'v' label))

abbrev check_label : (valid : Number) → Json → Result Bool
check_label valid (str label) = ok (label_allows label valid)
check_label valid _ = err attribute_error

abbrev ocp_version_of : Json → Result Number
ocp_version_of (str v) = elim (parse_number (without_char b'v' v)) [
  | none ↦ err (iib_error ("Invalid OCP version, \"" ⧺ v ⧺ "\", specified in Index Image"))
  | some n ↦ ok n
]
ocp_version_of _ = err attribute_error

unfoldable pub is_bundle_version_valid :
    Env → (bundle_path : String) → (valid_ocp_version : Json) → Exec Bool
unfolding label_allows
is_bundle_version_valid env bundle_path valid_ocp_version = do
  valid ← lift (ocp_version_of valid_ocp_version)
  label ← get_image_label env bundle_path "com.redhat.openshift.versions"
  lift (check_label valid label)
