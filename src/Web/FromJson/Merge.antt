-- ===== src/Web/FromJson/Merge.antt =====
-- `RequestMergeIndexImage.from_json` of iib/web/models.py. The payload is not held to a list of
-- known parameters: what is left of it goes to the constructor.
use iib.Common.{ℕ, String, false, not, ◌&&◌, Option, some, List, [], ◌∷◌, if◌then◌else◌}
use iib.Common.Dict.{Dict, remove}
use iib.Exn.{
  Result, ok, err, validation_error, not_string, not_string_list, overwrite_not_bool,
  token_not_string, overwrite_required, token_required,
}
use iib.Json.{Json, bool, arr, nil, truthy, is_bool, is_str}
use iib.Web.Mappings.{merge_index_image}
use iib.Web.Params.{get_or_null, get_or_else, is_str_list, strings}
use iib.Web.Session.{Env, Exec, lift, raise_if, for_each, ◌>>=◌, ◌>>◌, get_or_create_image}
use iib.Web.FromJson.Index.{
  text, blank, set_image, check_scope, check_binary_image, image_if_set, batch_or_new,
  insert_request,
}

-- `overwrite_target_index` and its token: each is given only with the other.
unfoldable pub check_overwrite_target : (overwrite token : Json) → Result (Unit {0})
check_overwrite_target overwrite token =
    if not (is_bool overwrite)
    then err (validation_error overwrite_not_bool)
    else if not (truthy token)
    then (if truthy overwrite then err (validation_error token_required) else ok tt)
    else if not (is_str token)
    then err (validation_error token_not_string)
    else if not (truthy overwrite)
    then err (validation_error overwrite_required)
    else ok tt

-- The parameters that are popped.
abbrev popped : List String
popped =
    "deprecation_list" ∷ "source_from_index" ∷ "target_index" ∷ "overwrite_target_index"
    ∷ "overwrite_target_index_token" ∷ "binary_image" ∷ "distribution_scope" ∷ []

unfoldable pub remove_all : List String → Dict Json → Dict Json
remove_all [] kwargs = kwargs
remove_all (k ∷ ks) kwargs = remove_all ks (remove k kwargs)

unfoldable pub merge_from_json : Env → Dict Json → (batch : Option ℕ) → Exec ℕ
unfolding check_overwrite_target remove_all
merge_from_json env kwargs batch = do
  let deprecation_list = get_or_else "deprecation_list" (arr nil) kwargs
  raise_if (not (is_str_list deprecation_list))
      (validation_error (not_string_list "deprecation_list"))
  deprecated ← for_each get_or_create_image (strings deprecation_list)
  let source = get_or_null "source_from_index" kwargs
  raise_if (not (is_str source && truthy source))
      (validation_error (not_string "source_from_index"))
  source_image ← get_or_create_image (text source)
  let target = get_or_null "target_index" kwargs
  raise_if (truthy target && not (is_str target)) (validation_error (not_string "target_index"))
  target_image ← image_if_set target
  lift (
      check_overwrite_target (get_or_else "overwrite_target_index" (bool false) kwargs)
        (get_or_null "overwrite_target_index_token" kwargs))
  let binary_image = get_or_null "binary_image" kwargs
  lift (check_binary_image env.config.binary_image_config binary_image)
  image ← image_if_set binary_image
  scope ← lift (check_scope (get_or_null "distribution_scope" kwargs))
  id ← batch_or_new env batch
  request ← lift (
      env.construct (remove_all popped kwargs)
        (record (blank merge_index_image id env.current_user) {
          images =
              set_image "source_from_index" (some source_image)
                (set_image "target_index" target_image (set_image "binary_image" image []));
          deprecation_list = deprecated;
          distribution_scope = scope;
        }))
  insert_request env request
