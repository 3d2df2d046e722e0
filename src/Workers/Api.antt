-- ===== src/Workers/Api.antt =====
-- iib/workers/api_utils.py: how a worker reports on a request. The urllib3 retries of the session
-- are part of `Env.answer`.
pub mod Refused
use iib.Common.{ℕ, String, Option, none, some, [], ◌∷◌}
use iib.Common.Dict.{Dict, get}
use iib.Common.Text.{◌⧺◌}
use iib.Common.Find.{decimal}
use iib.Common.Format.{format}
use iib.Exn.{Result, ok, err, iib_error, of_worker, decode_error}
use iib.Json.{Json, str, obj}
use iib.Workers.Values.{to_fields}
use iib.Workers.Exec.{
  Env, Exec, Answer, connection_failed, refused, accepted, patched, raise, lift, ask, emit, ◌>>=◌,
  ◌>>◌,
}

-- `str(v)`
unfoldable pub text_of : Env → Json → String
text_of env (str s) = s
text_of env v = env.str_of v

abbrev look_up : Env → Dict Json → String → Option String
look_up env payload k = elim (get k payload) [ some v ↦ some (text_of env v) | none ↦ none ]

-- `rv.json()`
abbrev pub decoded : Option Json → Result Json
decoded none = err (of_worker decode_error)
decoded (some v) = ok v

-- The message of the IIBError that a refusal raises.
unfoldable pub refusal_message :
    Env → ℕ → (payload : Dict Json) → (exc_msg : Option String) → Result String
unfolding format
refusal_message env request_id payload none =
    ok ("The worker failed to update the request " ⧺ decimal request_id)
refusal_message env request_id payload (some exc_msg) = format (look_up env payload) exc_msg

abbrev pub handle_answer : Env → ℕ → Dict Json → Option String → Answer → Exec Json
handle_answer env request_id payload exc_msg connection_failed =
    raise (iib_error ("The connection failed when updating the request " ⧺ decimal request_id))
handle_answer env request_id payload exc_msg refused = do
  message ← lift (refusal_message env request_id payload exc_msg)
  raise (iib_error message)
handle_answer env request_id payload exc_msg accepted = do
  reply ← ask env.reply
  lift (decoded reply)

unfoldable pub update_request :
    Env → ℕ → (payload : Dict Json) → (exc_msg : Option String) → Exec Json
unfolding refusal_message
update_request env request_id payload exc_msg = do
  answer ← ask (λ events. env.answer events request_id payload)
  emit (patched request_id payload answer)
  handle_answer env request_id payload exc_msg answer

unfoldable pub set_request_state : Env → ℕ → (state state_reason : String) → Exec Json
unfolding update_request
set_request_state env request_id state state_reason =
    update_request env request_id (("state", str state) ∷ ("state_reason", str state_reason) ∷ [])
      (some "Setting the state to \"{state}\" on request {request_id} failed")

unfoldable pub set_omps_operator_version : Env → ℕ → (omps_operator_version : Dict Json) → Exec Json
unfolding update_request
set_omps_operator_version env request_id omps_operator_version =
    update_request env request_id
      (("omps_operator_version", str (env.json_dumps (obj (to_fields omps_operator_version)))) ∷ [])
      (some "Setting the omps_operator_version to \"{omps_operator_version}\" failed")
