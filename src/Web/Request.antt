-- ===== src/Web/Request.antt =====
-- The methods of `Request` in iib/web/models.py that change one request.
pub mod History
pub mod Acceptance
use iib.Common.{
  ℕ, zero, suc, String, not, ◌&&◌, Option, none, some, List, [], ◌∷◌, ◌++◌, ◌==◌, nat_eq, contains,
  if◌then◌else◌,
}
use iib.Common.Dict.{get}
use iib.Exn.{Result, ok, err, ◌>>=◌, ◌>>◌, validation_error, invalid_state, final_state}
use iib.Web.Mappings.{state_value, state_name, state_of_value, state_members}
use iib.Web.Tables.{RequestState, Request}

-- `RequestState.state_name`, `None` for the number 0
unfoldable pub name_of_value : ℕ → Result (Option String)
unfolding state_of_value
name_of_value zero = ok none
name_of_value (suc n) = elim (state_of_value (suc n)) [
  | ok m ↦ ok (some (state_name m))
  | err e ↦ err e
]

-- `self.state and self.state.state_name`, where no state is `None` too
unfoldable pub name_of : Option RequestState → Result (Option String)
name_of none = ok none
name_of (some s) = name_of_value s.state

-- One round of the loop over the final states: `s` is the final state, `state` the new one.
unfoldable pub check_final : Option String → String → String → Result (Unit {0})
check_final none s state = ok tt
check_final (some old) s state =
    if old == s && not (state == s) then err (validation_error (final_state old)) else ok tt

-- The state is looked up in the enum's members.
unfoldable pub state_int : String → Result ℕ
unfolding get
state_int state = elim (get state state_members) [
  | none ↦ err (validation_error (invalid_state state))
  | some m ↦ ok (state_value m)
]

-- `new_id` is the key that the flush gives the new row, `now` the time of the insertion.
unfoldable pub add_state : (new_id now : ℕ) → String → String → Request → Result Request
unfolding check_final
add_state new_id now state state_reason r = do
  value ← state_int state
  old ← name_of r.state
  check_final old "complete" state
  check_final old "failed" state
  ok (record r {
    states =
        r.states
        ++ record { id = new_id; state = value; state_reason = state_reason; updated = now } ∷ [];
    request_state_id = some new_id;
  })

-- `Request.add_architecture`; the row of the architecture is made by `get_or_create`.
unfoldable pub add_architecture : String → Request → Request
add_architecture arch_name r =
    if contains arch_name r.architectures
    then r
    else record r { architectures = r.architectures ++ arch_name ∷ [] }

-- The row of `states` with this key.
unfoldable pub find_state : ℕ → List RequestState → Option RequestState
find_state id [] = none
find_state id (s ∷ states) = if nat_eq s.id id then some s else find_state id states

-- What a read of the request finds after a commit: `state` is loaded by its key.
unfoldable pub refresh : Request → Request
refresh r = record r {
  state = elim r.request_state_id [ none ↦ none | some id ↦ find_state id r.states ];
}
