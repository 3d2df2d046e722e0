-- ===== src/Web/Params/Accepted.antt =====
-- Which payloads `validate_request_params` lets through, and what it leaves of them.
use iib.Common.{
  String, ◌≡◌, refl, ◌↔◌, Bool, true, false, not, ◌&&◌, ◌||◌, Option, none, some, List, [], ◌∷◌,
  ◌==◌, arith, contains, keep, All, All-map, if◌then◌else◌,
}
use iib.Common.Dict.{Dict, get, keys, get-remove, get-has}
use iib.Exn.{ok}
use iib.Json.{Json, truthy, is_bool}
use iib.Web.Params.{
  get_or_null, missing, invalid, require_set, drop_if_empty, drop_empty, validate_request_params,
}

-- Every required parameter is set and not empty, and every parameter is known.
pub record IsAccepted (params : Dict Json) (required optional : List String) : Type 0 where
  pub set : All (λ p. truthy (get_or_null p params) ≡ true) required
  pub known : All (λ k. (contains k required || contains k optional) ≡ true) (keys params)

keep-nil_iff {ℓ} :
    {A : Type ℓ} (p : A → Bool) (xs : List A) → (keep p xs ≡ []) ↔ All (λ x. p x ≡ false) xs
keep-nil_iff p [] = (λ _. tt, λ _. refl)
keep-nil_iff p (x ∷ xs) = ground (arith, keep-nil_iff p xs)

require_set_iff :
    (params : Dict Json) (required : List String)
    → (require_set params required ≡ ok tt)
      ↔ All (λ p. truthy (get_or_null p params) ≡ true) required
unfolding require_set
require_set_iff params [] = (λ _. tt, λ _. refl)
require_set_iff params (p ∷ required) = ground (arith, require_set_iff params required)

-- A required parameter that is set is not missing.
missing-nil :
    (params : Dict Json) (required : List String)
    → All (λ p. truthy (get_or_null p params) ≡ true) required
    → missing params required ≡ []
unfolding missing get_or_null truthy
missing-nil params [] h = refl
missing-nil params (p ∷ required) h =
    ground (arith, missing-nil params required h.1, get-has p params)

invalid-nil_iff :
    (params : Dict Json) (required optional : List String)
    → (invalid params required optional ≡ [])
      ↔ All (λ k. (contains k required || contains k optional) ≡ true) (keys params)
unfolding invalid
invalid-nil_iff params required optional = (
  λ e. All-map (λ k h. ground arith) (keys params) ((keep-nil_iff _ (keys params)).0 e),
  λ h. (keep-nil_iff _ (keys params)).1 (All-map (λ k g. ground arith) (keys params) h),
)

-- The parameters are accepted exactly when they are let through, and then only the optional ones
-- that are set and empty are taken out.
pub validate_request_params_iff :
    (params d : Dict Json) (required optional : List String)
    → (validate_request_params params required optional ≡ ok d)
      ↔ (IsAccepted params required optional × (d ≡ drop_empty optional params))
unfolding validate_request_params
validate_request_params_iff params d required optional = (
  λ e. (
    record {
      set = (require_set_iff params required).0 (ground arith);
      known = (invalid-nil_iff params required optional).0 (ground arith);
    },
    ground arith,
  ),
  λ h. ground (
    arith,
    missing-nil params required h.0.set,
    (invalid-nil_iff params required optional).1 h.0.known,
    (require_set_iff params required).1 h.0.set,
  ),
)

-- A value that is set and empty, and is no Boolean.
abbrev pub is_empty : Option Json → Bool
is_empty none = false
is_empty (some v) = not (is_bool v) && not (truthy v)

get-drop_if_empty :
    (k p : String) (params : Dict Json)
    → get k (drop_if_empty p params)
      ≡ (if p == k && is_empty (get k params) then none else get k params)
unfolding drop_if_empty get_or_null
get-drop_if_empty k p params = ground (arith, get-remove k p params, get-has p params)

-- After `drop_empty` an optional parameter that was set and empty is gone, and every other key has
-- the value that it had.
pub get-drop_empty :
    (k : String) (optional : List String) (params : Dict Json)
    → get k (drop_empty optional params)
      ≡ (if contains k optional && is_empty (get k params) then none else get k params)
unfolding drop_empty
get-drop_empty k [] params = refl
get-drop_empty k (p ∷ optional) params =
    ground (arith, get-drop_empty k optional (drop_if_empty p params), get-drop_if_empty k p params)
