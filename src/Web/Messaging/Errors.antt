-- ===== src/Web/Messaging/Errors.antt =====
-- Sending messages never refuses what a client asked for.
use iib.Common.{ℕ, zero, suc, ◌≡◌, Bool, false, Option, none, some, List, [], ◌∷◌, arith}
use iib.Exn.{Exn, err}
use iib.Web.Mappings.{state_of_value}
use iib.Web.Tables.{Request, RequestState, Tables}
use iib.Web.Batch.{loaded_state_name, request_states, requests_of}
use iib.Web.Session.{Env, Envelope, commit, lift}
use iib.Web.Session.Atomic.{
  is_refusal, NeverRefuses, NeverRefuses-pure, NeverRefuses-bind, NeverRefuses-lift, refusal_rules,
}
use iib.Web.Messaging.{
  request_envelope, batch_envelope, send_messages, load_request, batch_envelope_exec,
  send_message_for_state_change, request_envelopes, send_messages_for_new_batch_of_requests,
}

state_of_value_error : (n : ℕ) (e : Exn) → state_of_value n ≡ err e → is_refusal e ≡ false
unfolding state_of_value
state_of_value_error zero e h = ground arith
state_of_value_error (suc zero) e h = cc
state_of_value_error (suc (suc zero)) e h = cc
state_of_value_error (suc (suc (suc zero))) e h = cc
state_of_value_error (suc (suc (suc (suc n)))) e h = ground arith

loaded_state_name_error :
    (s : Option RequestState) (e : Exn) → loaded_state_name s ≡ err e → is_refusal e ≡ false
unfolding loaded_state_name
loaded_state_name_error none e h = ground arith
loaded_state_name_error (some s) e h = ground (arith, state_of_value_error s.state e)

request_states_error :
    (rs : List Request) (e : Exn) → request_states rs ≡ err e → is_refusal e ≡ false
unfolding request_states
request_states_error [] e h = cc
request_states_error (r ∷ rs) e h =
    ground (arith, loaded_state_name_error r.state e, request_states_error rs e)

module _ (env : Env) where
  pub request_envelope_error :
      (r : Request) (e : Exn) → request_envelope env r ≡ err e → is_refusal e ≡ false
  unfolding request_envelope
  request_envelope_error r e h = ground (arith, loaded_state_name_error r.state e)

  batch_envelope_error :
      (batch : ℕ) (new_batch : Bool) (t : Tables) (e : Exn)
      → batch_envelope env batch new_batch t ≡ err e
      → is_refusal e ≡ false
  unfolding batch_envelope
  batch_envelope_error batch new_batch t e h =
      ground (arith, request_states_error (requests_of batch t) e)

  pub NeverRefuses-load_request : (id : ℕ) → NeverRefuses (load_request env id)
  unfolding load_request
  NeverRefuses-load_request id = record { at = λ w e h. ground arith }

  pub NeverRefuses-batch_envelope_exec :
      (batch : ℕ) (b : Bool) → NeverRefuses (batch_envelope_exec env batch b)
  unfolding batch_envelope_exec
  NeverRefuses-batch_envelope_exec batch b = record {
    at = λ w e h. batch_envelope_error batch b w.tables e h;
  }

  pub NeverRefuses-send_messages : (es : List Envelope) → NeverRefuses (send_messages env es)
  unfolding send_messages
  NeverRefuses-send_messages es = record { at = λ w e h. ground arith }

  pub NeverRefuses-send_message_for_state_change :
      (id : ℕ) (b : Bool) → NeverRefuses (send_message_for_state_change env id b)
  unfolding send_message_for_state_change
  NeverRefuses-send_message_for_state_change id b =
      search
        (
          refusal_rules, NeverRefuses-load_request, NeverRefuses-batch_envelope_exec,
          NeverRefuses-send_messages, request_envelope_error,
        )
        depth 12

pub NeverRefuses-commit : NeverRefuses commit
unfolding commit
NeverRefuses-commit = record { at = λ w e h. cc }

module _ (env : Env) where
  NeverRefuses-request_envelopes : (ids : List ℕ) → NeverRefuses (request_envelopes env ids)
  unfolding request_envelopes
  NeverRefuses-request_envelopes [] = NeverRefuses-pure []
  NeverRefuses-request_envelopes (id ∷ ids) =
      NeverRefuses-bind (load_request env id) _ (NeverRefuses-load_request env id) (λ r.
        NeverRefuses-bind (lift (request_envelope env r)) _
          (NeverRefuses-lift _ (request_envelope_error env r))
          (λ mine.
            NeverRefuses-bind (request_envelopes env ids) _ (NeverRefuses-request_envelopes ids)
              (λ rest. NeverRefuses-pure _)))

  pub NeverRefuses-send_messages_for_new_batch_of_requests :
      (ids : List ℕ) → NeverRefuses (send_messages_for_new_batch_of_requests env ids)
  unfolding send_messages_for_new_batch_of_requests
  NeverRefuses-send_messages_for_new_batch_of_requests [] = NeverRefuses-pure tt
  NeverRefuses-send_messages_for_new_batch_of_requests (id ∷ ids) =
      search
        (
          refusal_rules,
          NeverRefuses-request_envelopes,
          NeverRefuses-load_request env,
          NeverRefuses-batch_envelope_exec env,
          NeverRefuses-send_messages env,
        )
        depth 12
