-- ===== src/Web/Api/Failure.antt =====
-- What becomes of a request whose task the broker does not take.
use iib.Common.{
  ℕ, String, ◌≡◌, ◌≢◌, refl, sym, ap, Bool, false, Option, some, List, [], ◌∷◌, ◌++◌, arith, subst,
}
use iib.Exn.{Exn, Result, ok, err, iib_error}
use iib.Web.Tables.{Request, RequestState}
use iib.Web.Request.{add_state, refresh}
use iib.Web.Request.History.{IsFresh, find_state-concat, state_int_finals}
use iib.Web.Request.Acceptance.{add_state-accepts}
use iib.Web.Messaging.{
  find_request, load_request, send_messages, batch_envelope_exec, send_message_for_state_change,
}
use iib.Web.Session.{Env, Handler, World, continue, raise, ◌>>◌, commit, refresh_all, all_state_ids}
use iib.Json.{Json}
use iib.Web.Api.Submit.{schedule}
use iib.Web.Api.Broker.{
  apply_async, replace_request, write_request, add_state_to, handle_broker_error,
}
use iib.Web.Messaging.Find.{find_request-id, find_request-map-refresh}
use iib.Web.Api.Broker.Replace.{find_request-replace_request}
use iib.Web.Api.Broker.Sound.{GivesNewKeys, find_request-All, all_state_ids-IsFresh}

module _ (env : Env) where
  committed-send :
      (id : ℕ) (b : Bool) (w : World)
      → (send_message_for_state_change env id b w).1.committed ≡ w.committed
  unfolding send_message_for_state_change load_request batch_envelope_exec send_messages
  committed-send id b w = ground arith

  scheduled-send :
      (id : ℕ) (b : Bool) (w : World)
      → (send_message_for_state_change env id b w).1.scheduled ≡ w.scheduled
  unfolding send_message_for_state_change load_request batch_envelope_exec send_messages
  scheduled-send id b w = ground arith

-- Where an error is raised at the end, the world is what came before, and nothing is returned.
continue-raise :
    {A B : Type 0} (r : Result A) (e : Exn) (w : World)
    → ((continue r (λ _. raise {A = B} e) w).1 ≡ w)
      × ((b : B) → (continue r (λ _. raise {A = B} e) w).0 ≢ ok b)
continue-raise (ok a) e w = (refl, λ b h. cc)
continue-raise (err x) e w = (refl, λ b h. cc)

-- The request, as a failed add_state leaves it and the commit reads it again.
abbrev failed_request : (new_id now : ℕ) → Request → Request
failed_request new_id now r = record r {
  states =
      r.states
      ++ record {
        id = new_id;
        state = 3;
        state_reason = "The scheduling of the request failed";
        updated = now;
      }
        ∷ [];
  request_state_id = some new_id;
}

fails :
    (new_id now : ℕ) (r : Request) (s : RequestState)
    → r.state ≡ some s
    → s.state ≡ 1
    → add_state new_id now "failed" "The scheduling of the request failed" r
      ≡ ok (failed_request new_id now r)
fails new_id now r s current running =
    add_state-accepts new_id now "failed" "The scheduling of the request failed" r 3
      (rw current (rw running (omega arith, omega arith))) state_int_finals.1
      (rw current (λ final. absurd (ground arith)))

-- What the handler leaves of a request that is in progress.
pub record HasFailed (id : ℕ) (before after : World) : Type 0 where
  pub request : Request
  pub state : RequestState
  pub stored : find_request id after.committed.requests ≡ some request
  pub current : request.state ≡ some state
  pub failed : state.state ≡ 3
  pub untouched : after.scheduled ≡ before.scheduled

module _ (env : Env) (A : Type 0) (id : ℕ) (w : World) (r : Request) (s : RequestState) where
  -- What the session holds when the message goes out.
  abbrev failed_world : World
  failed_world =
      let n = env.next_id (all_state_ids w.tables.requests) in
      let t = (write_request (failed_request n w.now r) w).tables in
      record w { tables = refresh_all t; committed = refresh_all t }

  added :
      find_request id w.tables.requests ≡ some r
      → r.state ≡ some s
      → s.state ≡ 1
      → add_state_to env id "failed" "The scheduling of the request failed" w ≡ (
        ok tt,
        write_request (failed_request (env.next_id (all_state_ids w.tables.requests)) w.now r) w,
      )
  unfolding add_state_to replace_request
  added found current running =
      let n = env.next_id (all_state_ids w.tables.requests) in
      rw (found, fails n w.now r s current running, add_state_to) refl

  handle_broker_error-world :
      find_request id w.tables.requests ≡ some r
      → r.state ≡ some s
      → s.state ≡ 1
      → handle_broker_error env {A = A} id w
        ≡ (send_message_for_state_change env id false
              >> raise {A = A} (iib_error "The scheduling of the build request failed"))
            failed_world
  unfolding handle_broker_error commit
  handle_broker_error-world found current running =
      ap
        (λ x.
          continue x.0
            (λ _.
              commit
              >> (send_message_for_state_change env id false
                  >> raise {A = A} (iib_error "The scheduling of the build request failed")))
            x.1)
        (added found current running)

  handle_broker_error-HasFailed :
      GivesNewKeys env
      → find_request id w.tables.requests ≡ some r
      → r.state ≡ some s
      → s.state ≡ 1
      → HasFailed id w (handle_broker_error env {A = A} id w).1
        × ((a : A) → (handle_broker_error env {A = A} id w).0 ≢ ok a)
  unfolding refresh
  handle_broker_error-HasFailed new_keys found current running =
      let n = env.next_id (all_state_ids w.tables.requests) in
      let r' = failed_request n w.now r in
      let (last, sent_w) = send_message_for_state_change env id false failed_world in
      let tail =
        continue-raise {B = A} last (iib_error "The scheduling of the build request failed")
          sent_w in
      let unused =
        all_state_ids-IsFresh n w.tables.requests (new_keys (all_state_ids w.tables.requests)) in
      let fresh = find_request-All (λ x. IsFresh n x.states) id w.tables.requests r unused found in
      let there =
        find_request-replace_request id r r' w.tables.requests
          (find_request-id id w.tables.requests r found) found in
      subst (λ y. HasFailed id w y.1 × ((a : A) → y.0 ≢ ok a))
        (sym (handle_broker_error-world found current running))
        (
          subst (HasFailed id w) (sym tail.0) (record {
            request = refresh r';
            state = _;
            stored =
                subst (λ t. find_request id t.requests ≡ some (refresh r'))
                  (sym (committed-send env id false failed_world))
                  (find_request-map-refresh id (replace_request r' w.tables.requests) r' there);
            current = find_state-concat r.states _ fresh;
            failed = refl;
            untouched = scheduled-send env id false failed_world;
          }),
          tail.1,
        )

-- Where the broker does not take the task of a request in progress and the database gives new
-- keys, the view returns nothing, no task is scheduled, and the committed request has failed.
pub schedule-HasFailed :
    (env : Env) (handler : Handler) (id : ℕ) (args argsrepr : List Json) (queue : Option String)
    (w : World) (r : Request) (s : RequestState)
    → GivesNewKeys env
    → env.broker_up w.scheduled ≡ false
    → find_request id w.tables.requests ≡ some r
    → r.state ≡ some s
    → s.state ≡ 1
    → HasFailed id w (schedule env handler id args argsrepr queue w).1
      × ((a : ℕ) → (schedule env handler id args argsrepr queue w).0 ≢ ok a)
unfolding schedule apply_async
schedule-HasFailed env handler id args argsrepr queue w r s new_keys down found current running =
    rw down (handle_broker_error-HasFailed env ℕ id w r s new_keys found current running)
