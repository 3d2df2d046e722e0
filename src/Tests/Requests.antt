-- ===== src/Tests/Requests.antt =====
-- States of a request and of a batch.
use iib.Common.{◌≡◌, refl, true, some, ◌≢◌, ◌↔◌, [], ◌∷◌, contains, All, String, arith, dec_str}
use iib.Exn.{ok, err, validation_error, final_state}
use iib.Web.Mappings.{get_final_states}
use iib.Web.Tables.{RequestState, Request}
use iib.Web.Request.{state_int, name_of, name_of_value, add_state, refresh}
use iib.Web.Request.History.{Transitions, start, next, final_forever}
use iib.Web.Request.Acceptance.{add_state-accepts, add_state-refuses}
use iib.Web.Batch.{batch_state}
use iib.Web.Batch.State.{batch_state_lem, batch_state_spec, batch_ended_iff}
use iib.Tests.Samples.{initiated, done, running, built}

abbrev again : RequestState
again = record { id = 3; state = 2; state_reason = "Built and pushed"; updated = 8 }

abbrev built_again : Request
built_again = record built { states = initiated ∷ done ∷ again ∷ []; request_state_id = some 3 }

accepts_again : add_state 3 8 "complete" "Built and pushed" built ≡ ok built_again
unfolding add_state state_int name_of dec_str name_of_value
accepts_again = refl

later : Transitions built (refresh built_again)
later = next 3 8 "complete" "Built and pushed" start (omega arith, (omega arith, tt)) accepts_again

final_forever_example :
    (s' : RequestState) × ((refresh built_again).state ≡ some s') × (s'.state ≡ 2)
final_forever_example = final_forever done refl refl later

state_int_complete : state_int "complete" ≡ ok 2
unfolding state_int dec_str
state_int_complete = refl

state_int_failed : state_int "failed" ≡ ok 3
unfolding state_int dec_str
state_int_failed = refl

add_state-accepts_example :
    add_state 3 8 "complete" "Built" running
    ≡ ok (record running {
      states = initiated ∷ record { id = 3; state = 2; state_reason = "Built"; updated = 8 } ∷ [];
      request_state_id = some 3;
    })
add_state-accepts_example =
    add_state-accepts 3 8 "complete" "Built" running 2 (omega arith, omega arith) state_int_complete
      (λ h. cc)

add_state-refuses_example :
    (name : String) × (name_of_value 2 ≡ ok (some name))
    × (add_state 3 8 "failed" "Late" built ≡ err (validation_error (final_state name)))
add_state-refuses_example =
    add_state-refuses 3 8 "failed" "Late" built 3 done refl refl state_int_failed (omega arith)

batch_state_lem_example :
    batch_state ("complete" ∷ "failed" ∷ []) ≡ batch_state_spec ("complete" ∷ "failed" ∷ [])
batch_state_lem_example = batch_state_lem ("complete" ∷ "failed" ∷ [])

batch_state_failed : batch_state ("complete" ∷ "failed" ∷ "complete" ∷ []) ≡ "failed"
unfolding batch_state dec_str
batch_state_failed = refl

batch_ended_iff_example :
    (contains (batch_state ("complete" ∷ "failed" ∷ [])) get_final_states ≡ true)
    ↔ All {A = String} (λ s. s ≢ "in_progress") ("complete" ∷ "failed" ∷ [])
batch_ended_iff_example = batch_ended_iff ("complete" ∷ "failed" ∷ [])
