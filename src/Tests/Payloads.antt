-- ===== src/Tests/Payloads.antt =====
-- Payloads: validation, duplicates and hidden secrets.
use iib.Common.{
  ◌+◌, ◌≡◌, refl, true, none, ◌↔◌, List, [], ◌∷◌, contains, String, dec_str, All, if◌then◌else◌,
  ◌≤◌, ◌&&◌,
}
use iib.Common.Dict.{Dict, get, keys, has, remove}
use iib.Exn.{ok}
use iib.Json.{Json, str, arr, nil, json_eq, truthy}
use iib.Web.Params.{get_or_null, missing, invalid, require_set, validate_request_params, drop_empty}
use iib.Web.Params.Accepted.{IsAccepted, validate_request_params_iff, get-drop_empty, is_empty}
use iib.Web.Api.Args.{get_unique_bundles, get_safe_args}
use iib.Web.Api.Args.Unique.{IsUnique, get_unique_bundles-IsUnique}
use iib.Web.Api.Args.Hidden.{
  set_secrets, IsHidden, secret_keys, count, get_safe_args-IsHidden, get_safe_args_leaves,
}

abbrev given : Dict Json
given = ("from_index", str "index:1") ∷ ("bundles", arr nil) ∷ []

validate_request_params_iff_example :
    (validate_request_params given ("from_index" ∷ []) ("bundles" ∷ []) ≡ ok (given)) ↔ (
      IsAccepted given ("from_index" ∷ []) ("bundles" ∷ [])
      × (given ≡ drop_empty ("bundles" ∷ []) given))
validate_request_params_iff_example =
    validate_request_params_iff given given ("from_index" ∷ []) ("bundles" ∷ [])

validate_drops :
    validate_request_params given ("from_index" ∷ []) ("bundles" ∷ [])
    ≡ ok (("from_index", str "index:1") ∷ [])
unfolding validate_request_params missing invalid require_set drop_empty has get keys remove truthy
    dec_str
validate_drops = refl

get-drop_empty_example : get "bundles" (drop_empty ("bundles" ∷ []) given) ≡ (
    if contains "bundles" ("bundles" ∷ []) && is_empty (get "bundles" given)
    then none
    else get "bundles" given)
get-drop_empty_example = get-drop_empty "bundles" ("bundles" ∷ []) given

abbrev twice : List Json
twice = str "a:1" ∷ str "b:1" ∷ str "a:1" ∷ []

abbrev once : List Json
once = str "a:1" ∷ str "b:1" ∷ []

unique_of_twice : get_unique_bundles twice ≡ ok once
unfolding get_unique_bundles dec_str
unique_of_twice = refl

get_unique_bundles-IsUnique_example :
    IsUnique ("a:1" ∷ "b:1" ∷ [])
    × ((s : String) → contains s ("a:1" ∷ "b:1" ∷ []) ≡ contains s ("a:1" ∷ "b:1" ∷ "a:1" ∷ []))
get_unique_bundles-IsUnique_example = get_unique_bundles-IsUnique twice once unique_of_twice

abbrev with_token : Dict Json
with_token = ("organization", str "org") ∷ ("cnr_token", str "s3cret") ∷ []

safe_once :
    get_safe_args (str "org" ∷ str "s3cret" ∷ []) with_token ≡ ok (str "org" ∷ str "*****" ∷ [])
unfolding get_safe_args get truthy json_eq dec_str get_or_null
safe_once = refl

safe_once-count :
    (truthy (str "s3cret") ≡ true) × (count (str "s3cret") (str "org" ∷ str "s3cret" ∷ []) ≡ 1)
unfolding count truthy json_eq dec_str
safe_once-count = (refl, refl)

get_safe_args-IsHidden_example :
    All
      (IsHidden with_token (str "org" ∷ str "s3cret" ∷ []) (str "org" ∷ str "*****" ∷ []))
      secret_keys
get_safe_args-IsHidden_example =
    get_safe_args-IsHidden (str "org" ∷ str "s3cret" ∷ []) (str "org" ∷ str "*****" ∷ []) with_token
      safe_once

-- The organization is the same text as the token.
abbrev same_token : Dict Json
same_token = ("organization", str "s3cret") ∷ ("cnr_token", str "s3cret") ∷ []

one_hidden :
    get_safe_args (str "s3cret" ∷ str "s3cret" ∷ []) same_token
    ≡ ok (str "*****" ∷ str "s3cret" ∷ [])
unfolding get_safe_args get get_or_null truthy json_eq dec_str
one_hidden = refl

get_safe_args_leaves_example :
    count (str "s3cret") (str "s3cret" ∷ str "s3cret" ∷ [])
    ≤ count (str "s3cret") (str "*****" ∷ str "s3cret" ∷ []) + set_secrets same_token
get_safe_args_leaves_example =
    get_safe_args_leaves (str "s3cret") (str "s3cret" ∷ str "s3cret" ∷ [])
      (str "*****" ∷ str "s3cret" ∷ []) same_token one_hidden
