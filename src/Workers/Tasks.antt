-- ===== src/Workers/Tasks.antt =====
-- The tasks that Celery runs for a request, by the type of the request, and
-- `failed_request_callback` of iib/workers/tasks/general.py, which it runs where one of them fails.
pub mod Docker
pub mod Reports
use iib.Common.{ℕ, String, Option, some, [], ◌∷◌}
use iib.Common.Dict.{Dict}
use iib.Exn.{Exn, iib_error}
use iib.Json.{Json, str}
use iib.Web.Mappings.{RequestTypeMapping, add, rm, regenerate_bundle, merge_index_image}
use iib.Workers.Exec.{Env, Exec, ◌>>=◌, ◌>>◌}
use iib.Workers.Api.{set_request_state}
use iib.Workers.Build.Add.{AddTask, handle_add_request}
use iib.Workers.Build.Rm.{RmTask, handle_rm_request}
use iib.Workers.Merge.{MergeTask, handle_merge_request}
use iib.Workers.Regenerate.{
  RegenerateTask, Regenerated, regenerated_payload, handle_regenerate_bundle_request,
}

pub data WorkerTask : Type 0 where
  add_task : AddTask → WorkerTask
  rm_task : RmTask → WorkerTask
  merge_task : MergeTask → WorkerTask
  regenerate_task : RegenerateTask → WorkerTask

abbrev pub request_type : WorkerTask → RequestTypeMapping
request_type (add_task t) = add
request_type (rm_task t) = rm
request_type (merge_task t) = merge_index_image
request_type (regenerate_task t) = regenerate_bundle

-- The call of the task's function.
unfoldable pub perform : Env → (request_id : ℕ) → WorkerTask → Exec Json
unfolding handle_add_request handle_rm_request handle_merge_request handle_regenerate_bundle_request
perform env request_id (add_task t) = handle_add_request env request_id t
perform env request_id (rm_task t) = handle_rm_request env request_id t
perform env request_id (merge_task t) = handle_merge_request env request_id t
perform env request_id (regenerate_task t) = handle_regenerate_bundle_request env request_id t

abbrev pub complete_payload : (reason : String) → Dict Json
complete_payload reason = ("state", str "complete") ∷ ("state_reason", str reason) ∷ []

-- The PATCH request of the last line; a task on an index image has reported its image before that.
abbrev pub final_payload : WorkerTask → Regenerated → Dict Json
final_payload (add_task t) done =
    complete_payload "The operator bundle(s) were successfully added to the index image"
final_payload (rm_task t) done =
    complete_payload "The operator(s) were successfully removed from the index image"
final_payload (merge_task t) done =
    complete_payload "The index image was successfully cleaned and updated."
final_payload (regenerate_task t) done = regenerated_payload done

-- The message of `set_request_state`.
abbrev pub state_exc_msg : Option String
state_exc_msg = some "Setting the state to \"{state}\" on request {request_id} failed"

unfoldable pub failed_message : Exn → String
failed_message (iib_error message) = message
failed_message _ = "An unknown error occurred. See logs for details"

unfoldable pub failed_request_callback : Env → (exc : Exn) → (request_id : ℕ) → Exec Json
unfolding failed_message
failed_request_callback env exc request_id =
    set_request_state env request_id "failed" (failed_message exc)
