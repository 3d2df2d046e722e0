-- ===== src/Workers/Api/Refused.antt =====
-- What `set_request_state` raises where the API refuses the change.
use iib.Common.{ℕ, String, ◌≡◌, refl, dec_str, [], ◌∷◌}
use iib.Common.Dict.{get}
use iib.Common.Format.{format}
use iib.Exn.{err, key_error}
use iib.Json.{str}
use iib.Workers.Exec.{Env, World, refused}
use iib.Workers.Api.{set_request_state, update_request, refusal_message, text_of}

-- Where the API refuses the new state of a request, `set_request_state` raises KeyError, not the
-- IIBError with the message: the message names a field that the payload does not have.
pub set_request_state-refused :
    (env : Env) (request_id : ℕ) (state state_reason : String) (w : World)
    → env.answer w.events request_id
        (("state", str state) ∷ ("state_reason", str state_reason) ∷ [])
      ≡ refused
    → (set_request_state env request_id state state_reason w).0 ≡ err key_error
unfolding set_request_state update_request refusal_message format get dec_str text_of
set_request_state-refused env request_id state state_reason w h = rw h refl
