-- ===== src/Workers/Tasks/Reports.antt =====
-- What a task reports of its request, and when.
use iib.Common.{ℕ, String, Bool, true, false, Option, some, List, [], ◌∷◌, ◌++◌, ◌≡◌, refl, ap, All}
use iib.Common.Dict.{Dict}
use iib.Exn.{Exn, Result, ok, err, iib_error}
use iib.Json.{Json}
use iib.Web.Mappings.{RequestTypeMapping, add, rm, regenerate_bundle, merge_index_image}
use iib.Workers.Exec.{
  Env, World, Exec, DockerConfig, Event, is_patch, Answer, patched, connection_failed, refused,
  accepted, continue, ◌>>=◌,
}
use iib.Workers.Exec.Keeps.{Keeps, keeping_rules}
use iib.Workers.Exec.Adds.{Adds, adding}
use iib.Workers.Docker.{reset_docker_config, set_registry_auths, set_docker}
use iib.Workers.Cache.{region_set}
use iib.Workers.Api.{set_request_state, update_request, handle_answer}
use iib.Workers.Frames.{Allows, IsReport}
use iib.Workers.Frames.Tasks.{Keeps-add_steps, Keeps-rm_steps, Keeps-merge_steps}
use iib.Workers.Frames.Regenerate.{Keeps-regenerate_steps}
use iib.Workers.Build.Add.{add_steps, handle_add_request}
use iib.Workers.Build.Rm.{rm_steps, handle_rm_request}
use iib.Workers.Merge.{merge_steps, handle_merge_request}
use iib.Workers.Regenerate.{Regenerated, regenerate_steps, handle_regenerate_bundle_request}
use iib.Workers.Tasks.{
  WorkerTask, add_task, rm_task, merge_task, regenerate_task, request_type, perform, final_payload,
  state_exc_msg,
}

-- A PATCH request is for this request, has keys that the API takes for the request's type, and does
-- not end the request. Other events are free.
pub data IsInProgress (type : RequestTypeMapping) (request_id : ℕ) : Event → Type 0 where
  on_the_way :
      (payload : Dict Json) (answer : Answer)
      → IsReport type payload
      → IsInProgress type request_id (patched request_id payload answer)
  free : (e : Event) → is_patch e ≡ false → IsInProgress type request_id e

-- How a task ends: stopped by an exception on the way, or with the PATCH request of its last line as
-- its last event, which the API has accepted where the task returns.
pub data Ending (task : WorkerTask) (request_id : ℕ) (w : World) (new : List Event)
    : Result Json × World → Type 0 where
  stopped :
      (e : Exn) (w' : World)
      → w'.events ≡ new ++ w.events
      → Ending task request_id w new (err e, w')
  completed :
      (done : Regenerated) (r : Result Json) (w' : World) (answer : Answer)
      → w'.events ≡ patched request_id (final_payload task done) answer ∷ (new ++ w.events)
      → ((reply : Json) → r ≡ ok reply → answer ≡ accepted)
      → Ending task request_id w new (r, w')

pub record IsOrdered (task : WorkerTask) (request_id : ℕ) (w : World) (last : Result Json × World)
    : Type 0 where
  pub new : List Event
  pub on_the_way : All (IsInProgress (request_type task) request_id) new
  pub ending : Ending task request_id w new last

module _ (env : Env) (type : RequestTypeMapping) (request_id : ℕ) where
  caches-adding :
      (should : Bool) (key : String) (v : Json)
      → Keeps (adding (IsInProgress type request_id)) (region_set should key v)
  unfolding adding
  caches-adding true key v = record { at = λ w. record { new = []; is = refl; each = tt } }
  caches-adding false key v = record { at = λ w. record { new = []; is = refl; each = tt } }

  one-more :
      (e : Event) (w w' : World)
      → w'.events ≡ e ∷ w.events
      → IsInProgress type request_id e
      → Adds (IsInProgress type request_id) w w'
  one-more e w w' is p = record { new = e ∷ []; is = is; each = (p, tt) }

  set_docker-adding :
      (d : DockerConfig) → Keeps (adding (IsInProgress type request_id)) (set_docker d)
  unfolding adding
  set_docker-adding d = record { at = λ w. record { new = []; is = refl; each = tt } }

  reset-adding : Keeps (adding (IsInProgress type request_id)) (reset_docker_config env)
  unfolding reset_docker_config
  reset-adding = search (keeping_rules, set_docker-adding)

  logs_in-adding :
      {A : Type 0} (auths : Dict Json) (body : Exec A)
      → Keeps (adding (IsInProgress type request_id)) body
      → Keeps (adding (IsInProgress type request_id)) (set_registry_auths env auths body)
  unfolding set_registry_auths
  logs_in-adding [] body k = k
  logs_in-adding (auth ∷ auths) body k =
      search (keeping_rules, set_docker-adding, reset-adding) depth 20

  adding-Allows : Allows env type request_id (adding (IsInProgress type request_id))
  unfolding adding
  adding-Allows = record {
    runs = λ cwd cmd. record { at = λ w. one-more _ w _ refl (free _ refl) };
    caches = caches-adding;
    logs_in = logs_in-adding;
    resets = reset-adding;
    starts = λ cmd. record { at = λ w. one-more _ w _ refl (free _ refl) };
    polls = record { at = λ w. one-more _ w _ refl (free _ refl) };
    kills = record { at = λ w. one-more _ w _ refl (free _ refl) };
    sleeps = record { at = λ w. one-more _ w _ refl (free _ refl) };
    posts = λ url payload. record { at = λ w. one-more _ w _ refl (free _ refl) };
    opens = λ path. record { at = λ w. one-more _ w _ refl (free _ refl) };
    removes = λ path. record { at = λ w. one-more _ w _ refl (free _ refl) };
    changes = λ path. record { at = λ w. one-more _ w _ refl (free _ refl) };
    writes = λ path text. record { at = λ w. one-more _ w _ refl (free _ refl) };
    appends = λ path text. record { at = λ w. one-more _ w _ refl (free _ refl) };
    reports = λ payload answer fits. record {
      at = λ w. one-more _ w _ refl (on_the_way payload answer fits);
    };
  }

module _ (env : Env) (request_id : ℕ) (task : WorkerTask) where
  module _ (done : Regenerated) (w w1 : World) (new : List Event)
      (events : w1.events ≡ new ++ w.events) where
    after : Answer → World
    after answer = record w1 {
      events = patched request_id (final_payload task done) answer ∷ w1.events;
    }

    is_last :
        (answer : Answer)
        → (after answer).events
          ≡ patched request_id (final_payload task done) answer ∷ (new ++ w.events)
    unfolding after
    is_last answer = ap (λ es. patched request_id (final_payload task done) answer ∷ es) events

    refused-Ending :
        (message : Result String)
        → Ending task request_id w new
            (continue {B = Json} message (λ m w. (err (iib_error m), w)) (after refused))
    refused-Ending (ok m) =
        completed done (err (iib_error m)) (after refused) refused (is_last refused) (λ reply h. cc)
    refused-Ending (err e) =
        completed done (err e) (after refused) refused (is_last refused) (λ reply h. cc)

    answer-Ending :
        (exc_msg : Option String) (answer : Answer)
        → Ending task request_id w new
            (handle_answer env request_id (final_payload task done) exc_msg answer (after answer))
    answer-Ending exc_msg connection_failed =
        completed done _ (after connection_failed) connection_failed (is_last connection_failed)
          (λ reply h. cc)
    answer-Ending exc_msg refused = refused-Ending _
    answer-Ending exc_msg accepted =
        completed done _ (after accepted) accepted (is_last accepted) (λ reply h. refl)

  module _ {A : Type 0} (done : A → Regenerated) (exc_msg : Option String) (w : World) where
    last-IsOrdered :
        (w1 : World) (r : Result A)
        → Adds (IsInProgress (request_type task) request_id) w w1
        → IsOrdered task request_id w (
            continue r
              (λ a. update_request env request_id (final_payload task (done a)) exc_msg)
              w1)
    unfolding update_request after
    last-IsOrdered w1 (err e) adds = record {
      new = adds.new;
      on_the_way = adds.each;
      ending = stopped e w1 adds.is;
    }
    last-IsOrdered w1 (ok a) adds = record {
      new = adds.new;
      on_the_way = adds.each;
      ending =
          answer-Ending (done a) w w1 adds.new adds.is exc_msg
            (env.answer w1.events request_id (final_payload task (done a)));
    }

    -- A task whose steps only report on the way and whose last line makes the last report.
    steps-IsOrdered :
        (steps : Exec A)
        → Keeps (adding (IsInProgress (request_type task) request_id)) steps
        → IsOrdered task request_id w
            ((steps >>= λ a. update_request env request_id (final_payload task (done a)) exc_msg) w)
    unfolding adding
    steps-IsOrdered steps k = last-IsOrdered (steps w).1 (steps w).0 (k.at w)

-- What the last line of a task on an index image does not need.
no_bundle : Unit {0} → Regenerated
no_bundle done = record { arches = []; output_pull_spec = "" }

module _ (env : Env) (request_id : ℕ) where
  -- Every PATCH request of a task before its end is for its request, has only keys that the API lets
  -- a worker change on a request of that type, and sets no state but in_progress. A task that returns
  -- has ended with the PATCH request for the state complete, which the API has accepted; one that
  -- raises has been stopped on the way or has made that request last. No other order occurs.
  pub perform-IsOrdered :
      (task : WorkerTask) (w : World) → IsOrdered task request_id w (perform env request_id task w)
  unfolding perform handle_add_request handle_rm_request handle_merge_request
      handle_regenerate_bundle_request set_request_state no_bundle
  perform-IsOrdered (add_task t) w =
      steps-IsOrdered env request_id (add_task t) no_bundle state_exc_msg w
        (add_steps env request_id t) (Keeps-add_steps (adding-Allows env add request_id) t)
  perform-IsOrdered (rm_task t) w =
      steps-IsOrdered env request_id (rm_task t) no_bundle state_exc_msg w
        (rm_steps env request_id t) (Keeps-rm_steps (adding-Allows env rm request_id) t)
  perform-IsOrdered (merge_task t) w =
      steps-IsOrdered env request_id (merge_task t) no_bundle state_exc_msg w
        (merge_steps env request_id t)
        (Keeps-merge_steps (adding-Allows env merge_index_image request_id) t)
  perform-IsOrdered (regenerate_task t) w =
      steps-IsOrdered env request_id (regenerate_task t) (λ done. done)
        (some "Failed setting the bundle image on the request") w
        (regenerate_steps env request_id t)
        (Keeps-regenerate_steps (adding-Allows env regenerate_bundle request_id) t)
