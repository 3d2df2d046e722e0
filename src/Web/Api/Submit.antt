-- ===== src/Web/Api/Submit.antt =====
-- The views of iib/web/api_v1.py that submit one request: add, rm, regenerate-bundle and
-- merge-index-image. A view returns the key of the new request.
use iib.Common.{ℕ, String, true, false, Option, none, List, [], ◌∷◌, if◌then◌else◌}
use iib.Common.Dict.{Dict, put}
use iib.Exn.{Result, ok, err, validation_error, not_json_object}
use iib.Json.{Json, bool, int, pos, arr, obj, items, fields, of_list, truthy}
use iib.Web.Params.{get_or_null, get_or_else}
use iib.Web.Session.{
  Env, Handler, handle_add_request, handle_rm_request, handle_regenerate_bundle_request,
  handle_merge_request, Exec, pure, lift, ◌>>=◌, ◌>>◌, commit,
}
use iib.Web.Messaging.{send_message_for_state_change, load_request}
use iib.Web.FromJson.Add.{add_from_json}
use iib.Web.FromJson.Rm.{rm_from_json}
use iib.Web.FromJson.Regenerate.{regenerate_from_json}
use iib.Web.FromJson.Merge.{merge_from_json}
use iib.Web.Api.Args.{
  get_rm_args, get_add_args, get_merge_args, overwrite_of, get_user_queue, get_safe_args,
  get_unique_bundles,
}
use iib.Web.Api.Broker.{handle_broker_error, apply_async}

-- `if not isinstance(payload, dict): raise`
unfoldable pub as_object : Json → Result (Dict Json)
as_object (obj fs) = ok (fields fs)
as_object _ = err (validation_error not_json_object)

-- The duplicates of a list under `bundles` are taken out. Another value is left for `from_json`.
unfoldable pub unique_bundles_of : Json → Result Json
unique_bundles_of (arr vs) = elim (get_unique_bundles (items vs)) [
  | err e ↦ err e
  | ok bundles ↦ ok (arr (of_list bundles))
]
unique_bundles_of v = ok v

unfoldable pub with_unique_bundles : Dict Json → Result (Dict Json)
unfolding unique_bundles_of
with_unique_bundles payload =
    let bundles = get_or_null "bundles" payload in
    if truthy bundles
    then elim (unique_bundles_of bundles) [ err e ↦ err e | ok v ↦ ok (put "bundles" v payload) ]
    else ok payload

module _ (env : Env) where
  -- What the views do once the request is in the session, up to the arguments.
  unfoldable pub announce : ℕ → Exec (Unit {0})
  announce id = do commit; send_message_for_state_change env id true

  -- The task is scheduled, or the request fails.
  unfoldable pub schedule :
      Handler → ℕ → (args argsrepr : List Json) → (queue : Option String) → Exec ℕ
  schedule handler id args argsrepr queue = do
    taken ← apply_async env (record {
      handler = handler;
      request_id = id;
      args = args;
      argsrepr = argsrepr;
      queue = queue;
    })
    if taken then pure id else handle_broker_error env id

  unfoldable pub add_bundles : Json → Exec ℕ
  unfolding announce schedule as_object with_unique_bundles
  add_bundles json = do
    given ← lift (as_object json)
    payload ← lift (with_unique_bundles given)
    id ← add_from_json env payload none
    announce id
    request ← load_request env id
    let overwrite = overwrite_of env payload
    let queue = get_user_queue env (truthy overwrite)
    let args = get_add_args env payload request overwrite queue
    safe_args ← lift (get_safe_args args payload)
    schedule handle_add_request id args safe_args queue

  unfoldable pub rm_operators : Json → Exec ℕ
  unfolding announce schedule as_object
  rm_operators json = do
    payload ← lift (as_object json)
    id ← rm_from_json env payload none
    announce id
    request ← load_request env id
    let overwrite = overwrite_of env payload
    let args = get_rm_args env payload request overwrite
    safe_args ← lift (get_safe_args args payload)
    schedule handle_rm_request id args safe_args (get_user_queue env (truthy overwrite))

  unfoldable pub regenerate_bundle : Json → Exec ℕ
  unfolding announce schedule as_object
  regenerate_bundle json = do
    payload ← lift (as_object json)
    id ← regenerate_from_json env payload none
    announce id
    let args =
        get_or_null "from_bundle_image" payload
        ∷ get_or_null "organization" payload
        ∷ int (pos id)
        ∷ get_or_null "registry_auths" payload
        ∷ []
    safe_args ← lift (get_safe_args args payload)
    schedule handle_regenerate_bundle_request id args safe_args (get_user_queue env false)

  unfoldable pub merge_index_image : Json → Exec ℕ
  unfolding announce schedule as_object
  merge_index_image json = do
    payload ← lift (as_object json)
    id ← merge_from_json env payload none
    announce id
    request ← load_request env id
    let overwrite = get_or_else "overwrite_target_index" (bool false) payload
    let queue = get_user_queue env (truthy overwrite)
    let args = get_merge_args env payload request overwrite
    safe_args ← lift (get_safe_args args payload)
    schedule handle_merge_request id args safe_args queue
