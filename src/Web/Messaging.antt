-- ===== src/Web/Messaging.antt =====
-- iib/web/messaging.py: which messages a state change or a new batch sends. The AMQP connection
-- and the encoding of a message are left out; what goes out of a list of messages is `delivered`
-- of the environment.
pub mod Errors
pub mod Find
use iib.Common.{
  ℕ, zero, suc, String, Bool, true, false, not, ◌==◌, Option, none, some, List, [], ◌∷◌, ◌++◌, map,
  contains, nat_eq, if◌then◌else◌,
}
use iib.Exn.{Result, ok, err, attribute_error}
use iib.Web.Mappings.{pretty, get_final_states}
use iib.Web.Tables.{Request, Tables}
use iib.Web.Batch.{loaded_state_name, requests_of, request_states, batch_state, batch_user}
use iib.Web.Session.{Env, Envelope, request_message, batch_message, Exec, pure, lift, ◌>>=◌, ◌>>◌}

-- The row with this key.
unfoldable pub find_request : ℕ → List Request → Option Request
find_request id [] = none
find_request id (r ∷ requests) = if nat_eq r.id id then some r else find_request id requests

-- A setting that is not set, or is empty, is false.
abbrev is_set : Option String → Bool
is_set none = false
is_set (some s) = not (s == "")

abbrev address_of : Option String → String
address_of none = ""
address_of (some s) = s

unfoldable pub take {ℓ} : {A : Type ℓ} → ℕ → List A → List A
take zero xs = []
take (suc n) [] = []
take (suc n) (x ∷ xs) = x ∷ take n xs

module _ (env : Env) where
  -- `_get_request_state_change_envelope`
  unfoldable pub request_envelope : Request → Result (List Envelope)
  request_envelope r =
      let address = env.config.messaging_build_state_destination in
      if not (is_set address) then ok [] else elim (loaded_state_name r.state) [
        | err e ↦ err e
        | ok state ↦
            ok (
              request_message (address_of address) r.id r.batch_id (pretty r.type) state r.user
              ∷ [])
      ]

  -- The message of a batch that is new or has ended.
  unfoldable pub batch_message_of : ℕ → List Request → String → Envelope
  batch_message_of batch requests state =
      batch_message (address_of env.config.messaging_batch_state_destination) batch
        (map (λ r. (r.id, pretty r.type)) requests) state (batch_user requests)

  -- `_get_batch_state_change_envelope`
  unfoldable pub batch_envelope : ℕ → (new_batch : Bool) → Tables → Result (List Envelope)
  unfolding batch_message_of
  batch_envelope batch new_batch t =
      let requests = requests_of batch t in
      if not (is_set env.config.messaging_batch_state_destination)
      then ok []
      else if new_batch
      then ok (batch_message_of batch requests "in_progress" ∷ [])
      else elim (request_states requests) [
        | err e ↦ err e
        | ok states ↦
            if contains (batch_state states) get_final_states
            then ok (batch_message_of batch requests (batch_state states) ∷ [])
            else ok []
      ]

  -- `send_messages` never raises.
  unfoldable pub send_messages : List Envelope → Exec (Unit {0})
  send_messages envelopes w = elim env.config.messaging_urls [
    | [] ↦ (ok tt, w)
    | url ∷ urls ↦ (ok tt, record w { sent = w.sent ++ take (env.delivered envelopes) envelopes })
  ]

  -- A request of the session.
  unfoldable pub load_request : ℕ → Exec Request
  load_request id w = elim (find_request id w.tables.requests) [
    | none ↦ (err attribute_error, w)
    | some r ↦ (ok r, w)
  ]

  unfoldable pub batch_envelope_exec : ℕ → Bool → Exec (List Envelope)
  batch_envelope_exec batch new_batch w = (batch_envelope batch new_batch w.tables, w)

  unfoldable pub send_message_for_state_change : ℕ → (new_batch_msg : Bool) → Exec (Unit {0})
  unfolding load_request batch_envelope_exec
  send_message_for_state_change id new_batch_msg = do
    r ← load_request id
    mine ← lift (request_envelope r)
    batch ← batch_envelope_exec r.batch_id new_batch_msg
    send_messages (mine ++ batch)

  unfoldable pub request_envelopes : List ℕ → Exec (List Envelope)
  unfolding load_request
  request_envelopes [] = pure []
  request_envelopes (id ∷ ids) = do
    r ← load_request id
    mine ← lift (request_envelope r)
    rest ← request_envelopes ids
    pure (mine ++ rest)

  -- The batch of the first request is the batch of all.
  unfoldable pub send_messages_for_new_batch_of_requests : List ℕ → Exec (Unit {0})
  unfolding load_request batch_envelope_exec request_envelopes
  send_messages_for_new_batch_of_requests [] = pure tt
  send_messages_for_new_batch_of_requests (id ∷ ids) = do
    mine ← request_envelopes (id ∷ ids)
    first ← load_request id
    batch ← batch_envelope_exec first.batch_id true
    send_messages (mine ++ batch)
