-- ===== src/Web/FromJson/Quiet.antt =====
-- The `from_json` methods of iib/web/models.py only add to the session.
use iib.Common.{ℕ, String, refl, Option, none, some, List, arith}
use iib.Common.Dict.{Dict}
use iib.Json.{Json}
use iib.Web.Tables.{Request}
use iib.Web.Session.{Env}
use iib.Web.Session.Quiet.{IsQuiet, quiet_rules}
use iib.Web.FromJson.Index.{
  image_if_set, add_batch, batch_or_new, insert_request, from_index_image, index_from_json,
}
use iib.Web.FromJson.Add.{add_from_json}
use iib.Web.FromJson.Rm.{rm_from_json}
use iib.Web.FromJson.Regenerate.{regenerate_from_json}
use iib.Web.FromJson.Merge.{merge_from_json}

IsQuiet-image_if_set : (v : Json) → IsQuiet (image_if_set v)
unfolding image_if_set
IsQuiet-image_if_set v = search quiet_rules

IsQuiet-from_index_image : (given : Option Json) → IsQuiet (from_index_image given)
unfolding from_index_image
IsQuiet-from_index_image none = search quiet_rules
IsQuiet-from_index_image (some v) = search quiet_rules

module _ (env : Env) where
  IsQuiet-batch_or_new : (batch : Option ℕ) → IsQuiet (batch_or_new env batch)
  unfolding batch_or_new add_batch
  IsQuiet-batch_or_new none = record {
    at = λ w. record { committed = refl; sent = refl; scheduled = refl };
  }
  IsQuiet-batch_or_new (some id) = search quiet_rules

  IsQuiet-insert_request : (r : Request) → IsQuiet (insert_request env r)
  unfolding insert_request
  IsQuiet-insert_request r = record { at = λ w. ground arith }

ruleset from_json_rules = (
  quiet_rules, IsQuiet-image_if_set, IsQuiet-from_index_image, IsQuiet-batch_or_new,
  IsQuiet-insert_request,
)

module _ (env : Env) where
  IsQuiet-index_from_json :
      (params : Dict Json) (required optional : List String) (batch : Option ℕ)
      → IsQuiet (index_from_json env params required optional batch)
  unfolding index_from_json
  IsQuiet-index_from_json params required optional batch = search from_json_rules depth 20

  pub IsQuiet-add_from_json :
      (kwargs : Dict Json) (batch : Option ℕ) → IsQuiet (add_from_json env kwargs batch)
  unfolding add_from_json
  IsQuiet-add_from_json kwargs batch = search (from_json_rules, IsQuiet-index_from_json) depth 20

  pub IsQuiet-rm_from_json :
      (kwargs : Dict Json) (batch : Option ℕ) → IsQuiet (rm_from_json env kwargs batch)
  unfolding rm_from_json
  IsQuiet-rm_from_json kwargs batch = search (from_json_rules, IsQuiet-index_from_json) depth 20

  pub IsQuiet-regenerate_from_json :
      (kwargs : Dict Json) (batch : Option ℕ) → IsQuiet (regenerate_from_json env kwargs batch)
  unfolding regenerate_from_json
  IsQuiet-regenerate_from_json kwargs batch = search from_json_rules depth 20

  pub IsQuiet-merge_from_json :
      (kwargs : Dict Json) (batch : Option ℕ) → IsQuiet (merge_from_json env kwargs batch)
  unfolding merge_from_json
  IsQuiet-merge_from_json kwargs batch = search from_json_rules depth 20
