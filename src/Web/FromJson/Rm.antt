-- ===== src/Web/FromJson/Rm.antt =====
-- `RequestRm.from_json` of iib/web/models.py.
use iib.Common.{ℕ, not, ◌||◌, Option, [], ◌∷◌}
use iib.Common.Dict.{Dict}
use iib.Exn.{validation_error, not_string_list}
use iib.Json.{Json, arr, nil, truthy}
use iib.Web.Mappings.{rm}
use iib.Web.Params.{get_or_else, is_str_list, strings}
use iib.Web.Session.{Env, Exec, raise_if, for_each, ◌>>=◌, ◌>>◌, get_or_create_operator}
use iib.Web.FromJson.Index.{blank, set_image, index_from_json, insert_request}

unfoldable pub rm_from_json : Env → Dict Json → (batch : Option ℕ) → Exec ℕ
rm_from_json env kwargs batch = do
  let operators = get_or_else "operators" (arr nil) kwargs
  raise_if (not (is_str_list operators) || not (truthy operators))
      (validation_error (not_string_list "operators"))
  index ← index_from_json env kwargs ("operators" ∷ "from_index" ∷ []) [] batch
  names ← for_each get_or_create_operator (strings operators)
  insert_request env (record (blank rm index.batch env.current_user) {
    images =
        set_image "binary_image" index.binary_image (set_image "from_index" index.from_index []);
    operators = names;
    distribution_scope = index.distribution_scope;
  })
