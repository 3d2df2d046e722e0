-- ===== src/Web/Api/Broker.antt =====
-- Scheduling a task, and iib/web/errors.py: what happens to the requests when Celery's broker does
-- not take it.
pub mod Sound
pub mod Replace
use iib.Common.{
  ℕ, String, Bool, true, false, none, some, List, [], ◌∷◌, ◌++◌, nat_eq, if◌then◌else◌,
}
use iib.Exn.{ok, err, iib_error, attribute_error}
use iib.Web.Tables.{Request}
use iib.Web.Request.{add_state}
use iib.Web.Messaging.{find_request, send_message_for_state_change}
use iib.Web.Session.{Env, Task, World, Exec, pure, raise, ◌>>◌, commit, all_state_ids}

-- A change to the row of a key.
unfoldable pub replace_request : Request → List Request → List Request
replace_request r [] = []
replace_request r (x ∷ requests) =
    let rest = replace_request r requests in if nat_eq x.id r.id then r ∷ rest else x ∷ rest

abbrev pub write_request : Request → World → World
write_request r w = record w {
  tables = record w.tables { requests = replace_request r w.tables.requests };
}

module _ (env : Env) where
  -- `request.add_state(state, state_reason)` on a request of the session
  unfoldable pub add_state_to : ℕ → (state state_reason : String) → Exec (Unit {0})
  unfolding replace_request
  add_state_to id state state_reason w = elim (find_request id w.tables.requests) [
    | none ↦ (err attribute_error, w)
    | some r ↦
        elim (add_state (env.next_id (all_state_ids w.tables.requests)) w.now state state_reason
          r) [ err e ↦ (err e, w) | ok r' ↦ (ok tt, write_request r' w) ]
  ]

  unfoldable pub handle_broker_error : {A : Type 0} → ℕ → Exec A
  handle_broker_error {A} id = do
    add_state_to id "failed" "The scheduling of the request failed"
    commit
    send_message_for_state_change env id false
    raise (iib_error "The scheduling of the build request failed")

  -- The loop of `handle_broker_batch_error`: the messages go out before the commit.
  unfoldable pub fail_all : List ℕ → Exec (Unit {0})
  fail_all [] = pure tt
  fail_all (id ∷ ids) = do
    add_state_to id "failed" "The scheduling of the request failed"
    send_message_for_state_change env id false
    fail_all ids

  unfoldable pub handle_broker_batch_error : {A : Type 0} → List ℕ → Exec A
  unfolding fail_all
  handle_broker_batch_error {A} ids = do
    fail_all ids
    commit
    raise (iib_error "The scheduling of the build requests failed")

  -- `apply_async`: whether the broker took the task
  unfoldable pub apply_async : Task → Exec Bool
  apply_async task w =
      if env.broker_up w.scheduled
      then (ok true, record w { scheduled = w.scheduled ++ task ∷ [] })
      else (ok false, w)
