-- ===== src/Web/Api/Patch/Sound.antt =====
-- A PATCH keeps the history of every request sound.
use iib.Common.{
  ℕ, refl, Bool, true, false, Option, none, some, not, List, arith, All, if◌then◌else◌,
}
use iib.Common.Dict.{Dict, get}
use iib.Json.{Json, arr, nil, obj, end, truthy}
use iib.Web.Api.Submit.{as_object}
use iib.Exn.{validation_error, no_keys}
use iib.Web.Tables.{Request, RequestState}
use iib.Web.Request.History.{IsSettled, IsSound}
use iib.Web.Params.{strings, get_or_null, get_or_else}
use iib.Web.Messaging.{
  send_message_for_state_change, load_request, batch_envelope_exec, send_messages, request_envelope,
}
use iib.Web.Session.{Env, Envelope, World, serve, lift, raise_if, pure, commit, ◌>>=◌, ◌>>◌}
use iib.Web.Session.Sound.{
  Leads, Leads-bind, Leads-same, Leads-pure, Leads-if, Leads-lift, Leads-raise_if, Leads-commit,
  leads_rules, serve-IsSound,
}
use iib.Web.Api.Broker.{add_state_to}
use iib.Web.Api.Broker.Sound.{GivesNewKeys, Leads-add_state_to}
use iib.Web.FromJson.Index.{text}
use iib.Web.Mappings.{validate_state}
use iib.Web.Api.Patch.Columns.{
  Leads-patch_omps, Leads-patch_images, Leads-patch_arches, Leads-patch_mapping, Leads-patch_scope,
}
use iib.Web.Api.Patch.{
  get_or_404, apply_state, patch_state, patch_omps, patch_images, patch_arches, patch_mapping,
  patch_scope, patch_request, image_keys, object, check_worker, check_keys, check_items,
  check_reason,
}

pub IsSettled-weaken : (r : Request) → IsSound r → IsSettled r
IsSettled-weaken r k = k.settled

module _ {K : Request → Type 0} where
  Leads-get_or_404 : (id : ℕ) → Leads K K (get_or_404 id)
  unfolding get_or_404
  Leads-get_or_404 id =
      Leads-same (get_or_404 id) (λ w. ground arith) (λ w. ground arith) (λ r k. k)

module _ (env : Env) (new_keys : GivesNewKeys env) where
  Leads-apply_state :
      (id : ℕ) (s : Option RequestState) (state reason : Json)
      → Leads IsSound IsSettled (apply_state env id s state reason)
  unfolding apply_state
  Leads-apply_state id none state reason = search leads_rules
  Leads-apply_state id (some s) state reason = Leads-if _ _ _ (Leads-pure false IsSettled-weaken) (
      Leads-bind (add_state_to env id (text state) (text reason)) _
        (Leads-add_state_to env new_keys id _ _) (λ _. Leads-pure true (λ r k. k)))

  Leads-patch_state :
      (r : Request) (payload : Dict Json) → Leads IsSound IsSettled (patch_state env r payload)
  unfolding patch_state
  Leads-patch_state r payload =
      Leads-if _ _ _
        (Leads-bind (lift (validate_state (text (get_or_null "state" payload)))) _ (Leads-lift _)
          (λ _. Leads-apply_state r.id r.state _ _))
        (Leads-pure false IsSettled-weaken)

module _ (env : Env) where
  pub Leads-send_messages : (es : List Envelope) → Leads IsSound IsSound (send_messages env es)
  unfolding send_messages
  Leads-send_messages es = Leads-same _ (λ w. ground arith) (λ w. ground arith) (λ r k. k)

  pub Leads-load_request : (id : ℕ) → Leads IsSound IsSound (load_request env id)
  unfolding load_request
  Leads-load_request id = Leads-same _ (λ w. ground arith) (λ w. ground arith) (λ r k. k)

  pub Leads-batch_envelope_exec :
      (batch : ℕ) (b : Bool) → Leads IsSound IsSound (batch_envelope_exec env batch b)
  unfolding batch_envelope_exec
  Leads-batch_envelope_exec batch b = Leads-same _ (λ w. refl) (λ w. refl) (λ r k. k)

  pub Leads-send_message_for_state_change :
      (id : ℕ) (b : Bool) → Leads IsSound IsSound (send_message_for_state_change env id b)
  unfolding send_message_for_state_change
  Leads-send_message_for_state_change id b =
      Leads-bind (load_request env id) _ (Leads-load_request id) (λ r.
        Leads-bind (lift (request_envelope env r)) _ (Leads-lift _) (λ mine.
          Leads-bind (batch_envelope_exec env r.batch_id b) _ (Leads-batch_envelope_exec _ b)
            (λ batch. Leads-send_messages _)))

  Leads-report :
      (id : ℕ) (state_updated : Bool)
      → Leads IsSettled IsSound (do
        commit
        if state_updated then send_message_for_state_change env id false else pure tt
        pure state_updated)
  Leads-report id b = Leads-bind commit _ Leads-commit (λ _.
      Leads-bind (if b then send_message_for_state_change env id false else pure tt) _
        (Leads-if b _ _ (Leads-send_message_for_state_change id false) (Leads-pure tt (λ r k. k)))
        (λ _. Leads-pure b (λ r k. k)))

module _ (env : Env) (new_keys : GivesNewKeys env) where
  Leads-changes :
      (id : ℕ) (r : Request) (payload : Dict Json)
      → Leads IsSound IsSound (do
        state_updated ← patch_state env r payload
        patch_omps r payload
        patch_images id payload image_keys
        patch_arches id (strings (get_or_else "arches" (arr nil) payload))
        patch_mapping (object (get_or_else "bundle_mapping" (obj end) payload))
        patch_scope id (get "distribution_scope" payload)
        commit
        if state_updated then send_message_for_state_change env id false else pure tt
        pure state_updated)
  Leads-changes id r payload =
      Leads-bind (patch_state env r payload) _ (Leads-patch_state env new_keys r payload) (λ b.
        Leads-bind (patch_omps r payload) _ (Leads-patch_omps r payload) (λ _.
          Leads-bind (patch_images id payload image_keys) _ (Leads-patch_images id payload _) (λ _.
            Leads-bind (patch_arches id _) _ (Leads-patch_arches id _) (λ _.
              Leads-bind (patch_mapping _) _ (Leads-patch_mapping _) (λ _.
                Leads-bind (patch_scope id _) _ (Leads-patch_scope id _)
                  (λ _. Leads-report env id b))))))

  Leads-patch_request : (id : ℕ) (json : Json) → Leads IsSound IsSound (patch_request env id json)
  unfolding patch_request
  Leads-patch_request id json = Leads-bind (lift (check_worker env)) _ (Leads-lift _) (λ _.
      Leads-bind (lift (as_object json)) _ (Leads-lift _) (λ payload.
        Leads-bind (raise_if (not (truthy json)) (validation_error no_keys)) _ (Leads-raise_if _ _)
          (λ _. Leads-bind (get_or_404 id) _ (Leads-get_or_404 id) (λ r.
            Leads-bind (lift (check_keys r.type payload)) _ (Leads-lift _) (λ _.
              Leads-bind (lift (check_items payload)) _ (Leads-lift _) (λ _.
                Leads-bind (lift (check_reason payload)) _ (Leads-lift _)
                  (λ _. Leads-changes id r payload)))))))

-- Where the committed requests have sound histories and the database gives new keys, they have
-- sound histories after a PATCH, whatever it asks for, however it ends and whatever is sent.
pub patch_request-IsSound :
    (env : Env) (id : ℕ) (json : Json) (w : World)
    → GivesNewKeys env
    → All IsSound w.committed.requests
    → All IsSound (serve (patch_request env id json) w).1.committed.requests
patch_request-IsSound env id json w new_keys h =
    serve-IsSound (patch_request env id json) w (Leads-patch_request env new_keys id json) h
