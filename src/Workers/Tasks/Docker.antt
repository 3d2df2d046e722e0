-- ===== src/Workers/Tasks/Docker.antt =====
-- The Docker configuration that a task leaves: set_registry_auths of iib/workers/tasks/utils.py as the
-- tasks use it.
use iib.Common.{ℕ, String, Bool, true, false, Option, some, ◌≡◌}
use iib.Common.Dict.{Dict}
use iib.Json.{Json}
use iib.Web.Mappings.{RequestTypeMapping, add, rm, regenerate_bundle, merge_index_image}
use iib.Workers.Exec.{Env, World}
use iib.Workers.Exec.Keeps.{Keeps, Keeps-bind}
use iib.Workers.Exec.Adds.{settled}
use iib.Workers.Docker.{template_config}
use iib.Workers.Docker.Resets.{Keeps-reset_docker_config, Keeps-set_registry_auths}
use iib.Workers.Cache.{region_set}
use iib.Workers.Api.{update_request, set_request_state}
use iib.Workers.Frames.{Allows, Keeps-patch}
use iib.Workers.Frames.Tasks.{Keeps-add_steps, Keeps-rm_steps, Keeps-merge_steps}
use iib.Workers.Frames.Regenerate.{Keeps-regenerate_steps}
use iib.Workers.Build.Add.{add_steps, handle_add_request}
use iib.Workers.Build.Rm.{rm_steps, handle_rm_request}
use iib.Workers.Merge.{merge_steps, handle_merge_request}
use iib.Workers.Regenerate.{regenerate_steps, handle_regenerate_bundle_request}
use iib.Workers.Tasks.{
  WorkerTask, add_task, rm_task, merge_task, regenerate_task, perform, state_exc_msg,
}

module _ (env : Env) where
  caches-settled :
      (should : Bool) (key : String) (v : Json)
      → Keeps (settled (template_config env.template)) (region_set should key v)
  unfolding settled
  caches-settled true key v = record { at = λ w h. h }
  caches-settled false key v = record { at = λ w h. h }

  settled-Allows :
      (type : RequestTypeMapping) (request_id : ℕ)
      → Allows env type request_id (settled (template_config env.template))
  unfolding settled
  settled-Allows type request_id = record {
    runs = λ cwd cmd. record { at = λ w h. h };
    caches = caches-settled;
    logs_in = λ auths body k. Keeps-set_registry_auths env auths body k;
    resets = Keeps-reset_docker_config env;
    starts = λ cmd. record { at = λ w h. h };
    polls = record { at = λ w h. h };
    kills = record { at = λ w h. h };
    sleeps = record { at = λ w h. h };
    posts = λ url payload. record { at = λ w h. h };
    opens = λ path. record { at = λ w h. h };
    removes = λ path. record { at = λ w h. h };
    changes = λ path. record { at = λ w h. h };
    writes = λ path text. record { at = λ w h. h };
    appends = λ path text. record { at = λ w h. h };
    reports = λ payload answer fits. record { at = λ w h. h };
  }

  last-settled :
      (request_id : ℕ) (payload : Dict Json) (exc_msg : Option String)
      → Keeps
          (settled (template_config env.template))
          (update_request env request_id payload exc_msg)
  unfolding settled
  last-settled request_id payload exc_msg =
      Keeps-patch env request_id payload exc_msg (λ answer. record { at = λ w h. h })

  perform-settled :
      (request_id : ℕ) (task : WorkerTask)
      → Keeps (settled (template_config env.template)) (perform env request_id task)
  unfolding perform handle_add_request handle_rm_request handle_merge_request
      handle_regenerate_bundle_request set_request_state
  perform-settled request_id (add_task t) =
      Keeps-bind (add_steps env request_id t) _ (Keeps-add_steps (settled-Allows add request_id) t)
        (λ done. last-settled request_id _ state_exc_msg)
  perform-settled request_id (rm_task t) =
      Keeps-bind (rm_steps env request_id t) _ (Keeps-rm_steps (settled-Allows rm request_id) t)
        (λ done. last-settled request_id _ state_exc_msg)
  perform-settled request_id (merge_task t) =
      Keeps-bind (merge_steps env request_id t) _
        (Keeps-merge_steps (settled-Allows merge_index_image request_id) t)
        (λ done. last-settled request_id _ state_exc_msg)
  perform-settled request_id (regenerate_task t) =
      Keeps-bind (regenerate_steps env request_id t) _
        (Keeps-regenerate_steps (settled-Allows regenerate_bundle request_id) t)
        (λ done. last-settled request_id _ (some "Failed setting the bundle image on the request"))

  -- A task that finds the Docker configuration of the template leaves that of the template, with no
  -- user's token in it, whether it returns or raises, and wherever it raises.
  pub perform-Settles :
      (request_id : ℕ) (task : WorkerTask) (w : World)
      → w.docker ≡ template_config env.template
      → (perform env request_id task w).1.docker ≡ template_config env.template
  unfolding settled
  perform-Settles request_id task w h = (perform-settled request_id task).at w h
