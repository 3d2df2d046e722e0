-- ===== src/Web/FromJson/Add.antt =====
-- `RequestAdd.from_json` of iib/web/models.py.
use iib.Common.{ℕ, String, false, not, ◌||◌, Option, none, some, List, [], ◌∷◌, if◌then◌else◌}
use iib.Common.Dict.{Dict, get, remove}
use iib.Exn.{
  Result, ok, err, validation_error, not_string, not_string_list, no_bundles_nor_index,
  force_backport_not_bool,
}
use iib.Json.{Json, bool, arr, nil, truthy, is_bool, is_str}
use iib.Web.Mappings.{add}
use iib.Web.Params.{get_or_null, get_or_else, is_str_list, strings}
use iib.Web.Session.{Env, Exec, lift, raise_if, for_each, ◌>>=◌, ◌>>◌, get_or_create_image}
use iib.Web.FromJson.Index.{blank, set_image, index_from_json, insert_request}

-- One round of the loop over `cnr_token` and `organization`.
unfoldable pub check_string : String → Dict Json → Result (Unit {0})
check_string param kwargs = elim (get param kwargs) [
  | none ↦ ok tt
  | some v ↦ if is_str v then ok tt else err (validation_error (not_string param))
]

-- One round of the loops over `bundles` and `deprecation_list`.
unfoldable pub check_list : String → Dict Json → Result (Unit {0})
check_list key kwargs =
    if is_str_list (get_or_else key (arr nil) kwargs)
    then ok tt
    else err (validation_error (not_string_list key))

abbrev pub optional_params : List String
optional_params =
    "from_index" ∷ "organization" ∷ "bundles" ∷ "distribution_scope" ∷ "deprecation_list" ∷ []

unfoldable pub add_from_json : Env → Dict Json → (batch : Option ℕ) → Exec ℕ
unfolding check_list check_string
add_from_json env kwargs batch = do
  lift (check_list "bundles" kwargs)
  lift (check_list "deprecation_list" kwargs)
  raise_if (not (truthy (get_or_null "bundles" kwargs) || truthy (get_or_null "from_index" kwargs)))
      (validation_error no_bundles_nor_index)
  lift (check_string "cnr_token" kwargs)
  lift (check_string "organization" kwargs)
  raise_if (not (is_bool (get_or_else "force_backport" (bool false) kwargs)))
      (validation_error force_backport_not_bool)
  let stored = remove "force_backport" (remove "cnr_token" kwargs)
  index ← index_from_json env stored [] optional_params batch
  bundles ← for_each get_or_create_image (strings (get_or_else "bundles" (arr nil) index.rest))
  deprecated ←
      for_each get_or_create_image (strings (get_or_else "deprecation_list" (arr nil) index.rest))
  insert_request env (record (blank add index.batch env.current_user) {
    images =
        set_image "binary_image" index.binary_image (set_image "from_index" index.from_index []);
    bundles = bundles;
    deprecation_list = deprecated;
    organization = get "organization" index.rest;
    distribution_scope = index.distribution_scope;
  })
