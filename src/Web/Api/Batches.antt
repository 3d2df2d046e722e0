-- ===== src/Web/Api/Batches.antt =====
-- The views of iib/web/api_v1.py that submit a batch: regenerate-bundle-batch and add-rm-batch. A
-- view returns the keys of the new requests.
pub mod Quiet
use iib.Common.{
  ℕ, zero, suc, String, false, not, some, List, [], ◌∷◌, ◌++◌, map, keep, any, length, nat_eq,
  if◌then◌else◌,
}
use iib.Common.Dict.{Dict, get, keys, put}
use iib.Exn.{
  Result, ok, err, validation_error, attribute_error, type_error, at_index, neither_add_nor_rm,
  Reason,
}
use iib.Json.{Json, int, pos, str, arr, obj, items, fields, of_list, truthy, json_eq}
use iib.Web.Params.{get_or_null}
use iib.Web.Session.{
  Env, Task, handle_add_request, handle_rm_request, handle_regenerate_bundle_request, Exec, pure,
  raise, lift, ◌>>=◌, ◌>>◌, commit, rollback,
}
use iib.Web.Messaging.{load_request, send_messages_for_new_batch_of_requests}
use iib.Web.Batch.{validate_batch_request_params}
use iib.Web.FromJson.Index.{add_batch}
use iib.Web.FromJson.Add.{add_from_json}
use iib.Web.FromJson.Rm.{rm_from_json}
use iib.Web.FromJson.Regenerate.{regenerate_from_json}
use iib.Web.Api.Args.{
  get_rm_args, get_add_args, overwrite_of, get_user_queue, get_safe_args, unique_from,
  get_unique_bundles,
}
use iib.Web.Api.Broker.{handle_broker_batch_error, apply_async}
use iib.Web.Api.Patch.{is_add, object}

-- `payload["build_requests"].index(build_request)`: the first that equals it
unfoldable pub index_of : Json → List Json → ℕ
index_of b [] = zero
index_of b (x ∷ xs) = let i = index_of b xs in if json_eq x b then zero else suc i

-- `except ValidationError as e`
unfoldable pub recover : {A : Type 0} → Result A → (Reason → Exec A) → Exec A
recover (err (validation_error x)) handler = handler x
recover (ok a) handler = pure a
recover (err e) handler = raise e

unfoldable pub catch_invalid : {A : Type 0} → Exec A → (Reason → Exec A) → Exec A
unfolding recover
catch_invalid m handler w = let (r, w') = m w in recover r handler w'

-- What a method of `dict` finds that is called on a build request.
unfoldable pub as_dict : Json → Result (Dict Json)
as_dict (obj fs) = ok (fields fs)
as_dict _ = err attribute_error

-- The items that `dict.fromkeys` goes through where the value is a text: its characters.
abbrev pub characters : String → List Json
characters String.[] = []
characters (String.◌∷◌ c s) = str (String.◌∷◌ c String.[]) ∷ characters s

-- `_get_unique_bundles` on a value that is not empty, and may be no list. Duplicates of a text are
-- taken out of a copy of it for the log, which has no `remove`.
unfoldable pub unique_of : Json → Result (List Json)
unique_of (arr vs) = get_unique_bundles (items vs)
unique_of (obj fs) = ok (map str (keys (fields fs)))
unique_of (str s) =
    let unique = unique_from [] (characters s) in
    if nat_eq (length unique) (length (characters s)) then ok unique else err attribute_error
unique_of _ = err type_error

-- The items of a list; only called on one.
abbrev pub list : Json → List Json
list (arr vs) = items vs
list _ = []

-- `[r for r in requests if str(r.id) not in processed_request_ids]`
abbrev pub unprocessed : (processed ids : List ℕ) → List ℕ
unprocessed processed ids = keep (λ id. not (any (nat_eq id) processed)) ids

module _ (env : Env) where
  -- One round of the first loop of `regenerate_bundle_batch`.
  unfoldable pub create_regenerate : (build_requests : List Json) → (batch : ℕ) → Json → Exec ℕ
  unfolding as_dict
  create_regenerate build_requests batch build_request =
      catch_invalid
        (do params ← lift (as_dict build_request); regenerate_from_json env params (some batch))
        (λ reason. do
          rollback
          raise (validation_error (at_index reason (index_of build_request build_requests))))

  -- The request of one round of the first loop of `add_rm_batch`.
  unfoldable pub add_or_rm_from_json : (batch : ℕ) → Dict Json → Exec ℕ
  unfolding unique_of
  add_or_rm_from_json batch build_request =
      if truthy (get_or_null "operators" build_request)
      then rm_from_json env build_request (some batch)
      else if truthy (get_or_null "bundles" build_request)
      then (do
        unique ← lift (unique_of (get_or_null "bundles" build_request))
        add_from_json env (put "bundles" (arr (of_list unique)) build_request) (some batch))
      else raise (validation_error neither_add_nor_rm)

  unfoldable pub create_add_or_rm : (build_requests : List Json) → (batch : ℕ) → Json → Exec ℕ
  unfolding as_dict add_or_rm_from_json
  create_add_or_rm build_requests batch build_request =
      catch_invalid (do params ← lift (as_dict build_request); add_or_rm_from_json batch params)
        (λ reason.
          raise (validation_error (at_index reason (index_of build_request build_requests))))

  -- The first loop of either view.
  unfoldable pub create_all : (Json → Exec ℕ) → List Json → Exec (List ℕ)
  create_all create [] = pure []
  create_all create (build_request ∷ build_requests) = do
    id ← create build_request
    ids ← create_all create build_requests
    pure (id ∷ ids)

  -- A task is scheduled, or every request of the batch that has none fails.
  unfoldable pub schedule_or_fail : Task → (processed ids : List ℕ) → Exec (Unit {0})
  schedule_or_fail task processed ids = do
    taken ← apply_async env task
    if taken then pure tt else handle_broker_batch_error env (unprocessed processed ids)

  -- One round of the second loop of `regenerate_bundle_batch`.
  unfoldable pub schedule_regenerate : (processed ids : List ℕ) → Json → ℕ → Exec (Unit {0})
  unfolding schedule_or_fail
  schedule_regenerate processed ids build_request id =
      let args =
        get_or_null "from_bundle_image" (object build_request)
        ∷ get_or_null "organization" (object build_request)
        ∷ int (pos id)
        ∷ [] in
      schedule_or_fail
        (record {
          handler = handle_regenerate_bundle_request;
          request_id = id;
          args = args;
          argsrepr = args;
          queue = get_user_queue env false;
        })
        processed ids

  -- One round of the second loop of `add_rm_batch`.
  unfoldable pub schedule_add_or_rm : (processed ids : List ℕ) → Json → ℕ → Exec (Unit {0})
  unfolding schedule_or_fail is_add
  schedule_add_or_rm processed ids build_request id = do
    request ← load_request env id
    let payload = object build_request
    let overwrite = overwrite_of env payload
    let queue = get_user_queue env (truthy overwrite)
    let args =
        if is_add request.type
        then get_add_args env payload request overwrite queue
        else get_rm_args env payload request overwrite
    safe_args ← lift (get_safe_args args payload)
    schedule_or_fail
        (record {
          handler = if is_add request.type then handle_add_request else handle_rm_request;
          request_id = id;
          args = args;
          argsrepr = safe_args;
          queue = queue;
        })
        processed ids

  -- The second loop of either view, over the pairs of `zip`.
  unfoldable pub schedule_all :
      ((processed ids : List ℕ) → Json → ℕ → Exec (Unit {0}))
      → (processed ids : List ℕ) → List Json
      → List ℕ
      → Exec (Unit {0})
  schedule_all round processed ids (build_request ∷ build_requests) (id ∷ left) = do
    round processed ids build_request id
    schedule_all round (processed ++ id ∷ []) ids build_requests left
  schedule_all round processed ids _ _ = pure tt

  -- The body that the views share.
  unfoldable pub submit_batch :
      (create : (build_requests : List Json) → (batch : ℕ) → Json → Exec ℕ)
      → (round : (processed ids : List ℕ) → Json → ℕ → Exec (Unit {0})) → Json
      → Exec (List ℕ)
  unfolding create_all schedule_all
  submit_batch create round json = do
    lift (validate_batch_request_params json)
    let build_requests = list (get_or_null "build_requests" (object json))
    batch ← add_batch env (get "annotations" (object json))
    ids ← create_all (create build_requests batch) build_requests
    commit
    send_messages_for_new_batch_of_requests env ids
    schedule_all round [] ids build_requests ids
    pure ids

  unfoldable pub regenerate_bundle_batch : Json → Exec (List ℕ)
  unfolding submit_batch create_regenerate schedule_regenerate
  regenerate_bundle_batch json = submit_batch create_regenerate schedule_regenerate json

  unfoldable pub add_rm_batch : Json → Exec (List ℕ)
  unfolding submit_batch create_add_or_rm schedule_add_or_rm
  add_rm_batch json = submit_batch create_add_or_rm schedule_add_or_rm json
