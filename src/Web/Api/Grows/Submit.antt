-- ===== src/Web/Api/Grows/Submit.antt =====
-- The views that submit one request let histories only grow.
use iib.Common.{ℕ, String, Option, none, some, List, arith}
use iib.Common.Dict.{Dict}
use iib.Json.{Json}
use iib.Web.Session.{Env, Task, Handler}
use iib.Web.FromJson.Index.{image_if_set, from_index_image, index_from_json}
use iib.Web.FromJson.Add.{add_from_json}
use iib.Web.FromJson.Rm.{rm_from_json}
use iib.Web.FromJson.Regenerate.{regenerate_from_json}
use iib.Web.FromJson.Merge.{merge_from_json}
use iib.Web.Api.Broker.{apply_async, handle_broker_error}
use iib.Web.Api.Submit.{
  announce, schedule, add_bundles, rm_operators, regenerate_bundle, merge_index_image,
}
use iib.Web.Api.Grows.{IsGrowing, IsGrowing-same, growing_rules}
use iib.Web.Api.Grows.Calls.{
  IsGrowing-add_state_to, IsGrowing-insert_request, IsGrowing-batch_or_new, IsGrowing-load_request,
  IsGrowing-send_message_for_state_change,
}

IsGrowing-image_if_set : (v : Json) → IsGrowing (image_if_set v)
unfolding image_if_set
IsGrowing-image_if_set v = search growing_rules

IsGrowing-from_index_image : (given : Option Json) → IsGrowing (from_index_image given)
unfolding from_index_image
IsGrowing-from_index_image none = search growing_rules
IsGrowing-from_index_image (some v) = search growing_rules

ruleset from_json_rules = (
  growing_rules, IsGrowing-image_if_set, IsGrowing-from_index_image, IsGrowing-batch_or_new,
  IsGrowing-insert_request,
)

module _ (env : Env) where
  IsGrowing-index_from_json :
      (params : Dict Json) (required optional : List String) (batch : Option ℕ)
      → IsGrowing (index_from_json env params required optional batch)
  unfolding index_from_json
  IsGrowing-index_from_json params required optional batch = search from_json_rules depth 20

  pub IsGrowing-add_from_json :
      (kwargs : Dict Json) (batch : Option ℕ) → IsGrowing (add_from_json env kwargs batch)
  unfolding add_from_json
  IsGrowing-add_from_json kwargs batch =
      search (from_json_rules, IsGrowing-index_from_json) depth 20

  pub IsGrowing-rm_from_json :
      (kwargs : Dict Json) (batch : Option ℕ) → IsGrowing (rm_from_json env kwargs batch)
  unfolding rm_from_json
  IsGrowing-rm_from_json kwargs batch = search (from_json_rules, IsGrowing-index_from_json) depth 20

  pub IsGrowing-regenerate_from_json :
      (kwargs : Dict Json) (batch : Option ℕ) → IsGrowing (regenerate_from_json env kwargs batch)
  unfolding regenerate_from_json
  IsGrowing-regenerate_from_json kwargs batch = search from_json_rules depth 20

  IsGrowing-merge_from_json :
      (kwargs : Dict Json) (batch : Option ℕ) → IsGrowing (merge_from_json env kwargs batch)
  unfolding merge_from_json
  IsGrowing-merge_from_json kwargs batch = search from_json_rules depth 20

  IsGrowing-announce : (id : ℕ) → IsGrowing (announce env id)
  unfolding announce
  IsGrowing-announce id = search (growing_rules, IsGrowing-send_message_for_state_change)

  pub IsGrowing-apply_async : (task : Task) → IsGrowing (apply_async env task)
  unfolding apply_async
  IsGrowing-apply_async task = IsGrowing-same _ (λ w. ground arith) (λ w. ground arith)

  IsGrowing-schedule :
      (handler : Handler) (id : ℕ) (args argsrepr : List Json) (queue : Option String)
      → IsGrowing (schedule env handler id args argsrepr queue)
  unfolding schedule handle_broker_error
  IsGrowing-schedule handler id args argsrepr queue =
      search
        (
          growing_rules, IsGrowing-apply_async, IsGrowing-add_state_to,
          IsGrowing-send_message_for_state_change,
        )
        depth 12

  ruleset view_rules = (
    growing_rules, IsGrowing-add_from_json, IsGrowing-rm_from_json, IsGrowing-regenerate_from_json,
    IsGrowing-merge_from_json, IsGrowing-announce, IsGrowing-load_request, IsGrowing-schedule,
  )

  pub IsGrowing-add_bundles : (json : Json) → IsGrowing (add_bundles env json)
  unfolding add_bundles
  IsGrowing-add_bundles json = search view_rules depth 20

  pub IsGrowing-rm_operators : (json : Json) → IsGrowing (rm_operators env json)
  unfolding rm_operators
  IsGrowing-rm_operators json = search view_rules depth 20

  pub IsGrowing-regenerate_bundle : (json : Json) → IsGrowing (regenerate_bundle env json)
  unfolding regenerate_bundle
  IsGrowing-regenerate_bundle json = search view_rules depth 20

  pub IsGrowing-merge_index_image : (json : Json) → IsGrowing (merge_index_image env json)
  unfolding merge_index_image
  IsGrowing-merge_index_image json = search view_rules depth 20
