-- ===== src/Web/Params.antt =====
-- The validation of a payload in iib/web/models.py: `validate_request_params`,
-- `validate_registry_auths`, `validate_architecture_json` and the tests on lists of strings.
pub mod Accepted
use iib.Common.{
  String, Bool, false, not, ◌&&◌, ◌||◌, none, some, List, [], ◌∷◌, ◌==◌, contains, any, keep,
  if◌then◌else◌,
}
use iib.Common.Dict.{Dict, get, has, keys, remove}
use iib.Exn.{
  Result, ok, err, ◌>>=◌, ◌>>◌, validation_error, missing_params, invalid_params, must_be_set,
  auths_not_dict, auths_single_key, auths_empty, auth_format, arches_format,
}
use iib.Json.{Json, null, str, arr, obj, Fields, end, field, items, truthy, is_bool, is_str}

-- `d.get(k)`, where a missing key is `None`
unfoldable pub get_or_null : String → Dict Json → Json
get_or_null k d = elim (get k d) [ none ↦ null | some v ↦ v ]

-- `d.get(k, default)`
unfoldable pub get_or_else : String → Json → Dict Json → Json
get_or_else k v d = elim (get k d) [ none ↦ v | some w ↦ w ]

-- `required_params - request_params.keys()`
unfoldable pub missing : Dict Json → List String → List String
missing params required = keep (λ p. not (has p params)) required

-- `request_params.keys() - required_params - optional_params`
unfoldable pub invalid : Dict Json → List String → List String → List String
invalid params required optional =
    keep (λ k. not (contains k required) && not (contains k optional)) (keys params)

-- The loop over the required parameters.
unfoldable pub require_set : Dict Json → List String → Result (Unit {0})
unfolding get_or_null truthy
require_set params [] = ok tt
require_set params (p ∷ required) =
    let rest = require_set params required in
    if truthy (get_or_null p params) then rest else err (validation_error (must_be_set p))

-- One round of the loop over the optional parameters. A Boolean is kept.
unfoldable pub drop_if_empty : String → Dict Json → Dict Json
unfolding get_or_null truthy is_bool
drop_if_empty p params =
    let v = get_or_null p params in
    if has p params && not (is_bool v) && not (truthy v) then remove p params else params

-- The loop that deletes the optional parameters that are set and empty.
unfoldable pub drop_empty : List String → Dict Json → Dict Json
unfolding drop_if_empty
drop_empty [] params = params
drop_empty (p ∷ optional) params = drop_empty optional (drop_if_empty p params)

-- The result is the dict as the function leaves it.
unfoldable pub validate_request_params :
    Dict Json → (required optional : List String) → Result (Dict Json)
validate_request_params params required optional =
    let absent = missing params required in
    let unknown = invalid params required optional in
    elim absent [
      | p ∷ ps ↦ err (validation_error (missing_params (p ∷ ps)))
      | [] ↦ elim unknown [
        | k ∷ ks ↦ err (validation_error (invalid_params (k ∷ ks)))
        | [] ↦ elim (require_set params required) [
          | err e ↦ err e
          | ok _ ↦ ok (drop_empty optional params)
        ]
      ]
    ]

-- `not item or not isinstance(item, str)`
unfoldable pub is_bad_item : Json → Bool
unfolding truthy is_str
is_bad_item v = not (truthy v) || not (is_str v)

-- `isinstance(value, list) and not any(...)`: a list of non-empty strings
unfoldable pub is_str_list : Json → Bool
unfolding is_bad_item
is_str_list (arr vs) = not (any is_bad_item (items vs))
is_str_list _ = false

-- The strings of such a list.
abbrev pub strings_of : List Json → List String
strings_of [] = []
strings_of (str s ∷ vs) = s ∷ strings_of vs
strings_of (_ ∷ vs) = strings_of vs

unfoldable pub strings : Json → List String
strings (arr vs) = strings_of (items vs)
strings _ = []

-- `Architecture.validate_architecture_json`
unfoldable pub validate_architecture_json : Json → Result (Unit {0})
validate_architecture_json arches =
    if is_str_list arches then ok tt else err (validation_error arches_format)

-- The body of the loop over the registries: one key, `auth`, with a string.
unfoldable pub is_auth : Json → Bool
unfolding is_str
is_auth (obj (field k v end)) = k == "auth" && is_str v
is_auth _ = false

unfoldable pub check_auths : Fields → Result (Unit {0})
unfolding is_auth
check_auths end = ok tt
check_auths (field reg auth fs) =
    let rest = check_auths fs in
    if is_auth auth then rest else err (validation_error (auth_format reg))

-- The value under the key `auths`.
unfoldable pub check_auths_value : Json → Result (Unit {0})
unfolding check_auths
check_auths_value (obj (field k v fs)) = check_auths (field k v fs)
check_auths_value _ = err (validation_error auths_empty)

unfoldable pub validate_registry_auths : Json → Result (Unit {0})
unfolding check_auths_value
validate_registry_auths (obj (field k v end)) =
    if k == "auths" then check_auths_value v else err (validation_error auths_single_key)
validate_registry_auths (obj _) = err (validation_error auths_single_key)
validate_registry_auths _ = err (validation_error auths_not_dict)
