-- ===== src/Web/Api/Grows/Calls.antt =====
-- Every call of iib/web/api_v1.py lets histories only grow: the parts that change requests.
use iib.Common.{
  Bool-cases, ℕ, String, ◌≡◌, refl, sym, ◌∙◌, ap, subst, Bool, true, Option, Option-cases, none,
  some, List, [], ◌∷◌, ◌++◌, arith, nat_eq, inl, inr,
}
use iib.Exn.{ok, Result-cases}
use iib.Web.Tables.{Request}
use iib.Web.Request.{add_state}
use iib.Web.Request.History.{add_state-Follows}
use iib.Web.Messaging.{
  find_request, load_request, batch_envelope_exec, send_messages, send_message_for_state_change,
  request_envelopes, request_envelope, send_messages_for_new_batch_of_requests,
}
use iib.Web.Session.{Env, Envelope, World, Exec, lift, request_ids, all_state_ids}
use iib.Json.{Json}
use iib.Web.FromJson.Index.{insert_request, batch_or_new, add_batch}
use iib.Web.Api.Broker.{replace_request, add_state_to}
use iib.Web.Messaging.Find.{find_request-id, find_request-concat}
use iib.Web.Api.Broker.Replace.{find_request-replace_request, find_request-replace_request_other}
use iib.Web.Api.Grows.{
  Extends, Extends-same, Grown, IsGrowing, IsGrowing-bind, IsGrowing-same, IsGrowing-pure,
  IsGrowing-lift, growing_rules,
}

nat_eq-eq : (m n : ℕ) → nat_eq m n ≡ true → m ≡ n
nat_eq-eq m n h = ground arith

-- A change to the row of a request that extends its history.
pub Grown-replace_request :
    (id : ℕ) (r r' : Request) (rs : List Request)
    → find_request id rs ≡ some r
    → r'.id ≡ r.id
    → Extends r r'
    → Grown rs (replace_request r' rs)
Grown-replace_request id r r' rs found same grown = record {
  at = λ id0 r0 e. elim (Bool-cases (nat_eq r'.id id0)) [
    | inr other ↦
        (r0, find_request-replace_request_other id0 r' rs other ∙ e, Extends-same r0 r0 refl)
    | inl this ↦
        let named = nat_eq-eq r'.id id0 this in
        let here : id0 ≡ id = sym named ∙ same ∙ find_request-id id rs r found in
        let both : some r0 ≡ some r = sym e ∙ ap (λ i. find_request i rs) here ∙ found in
        let one : r0 ≡ r = cc in
        (
          r',
          find_request-replace_request id0 r0 r' rs named e,
          subst (λ x. Extends x r') (sym one) grown,
        )
  ];
}

Grown-append : (r : Request) (rs : List Request) → Grown rs (rs ++ r ∷ [])
Grown-append r rs = record {
  at = λ id r0 e. (r0, find_request-concat id r0 r rs e, Extends-same r0 r0 refl);
}

-- An action that changes rows in the session.
pub IsGrowing-tables :
    {A : Type 0} (m : Exec A)
    → ((w : World) (a : A) → (m w).0 ≡ ok a → Grown w.tables.requests (m w).1.tables.requests)
    → ((w : World) → (m w).1.committed ≡ w.committed)
    → IsGrowing m
IsGrowing-tables m t c = record { tables = t; committed = λ w. inl (c w) }

module _ (env : Env) where
  committed-add_state_to :
      (id : ℕ) (state reason : String) (w : World)
      → (add_state_to env id state reason w).1.committed ≡ w.committed
  unfolding add_state_to
  committed-add_state_to id state reason w = ground arith

  tables-add_state_to :
      (id : ℕ) (state reason : String) (w : World) (a : Unit {0})
      → (add_state_to env id state reason w).0 ≡ ok a
      → Grown w.tables.requests (add_state_to env id state reason w).1.tables.requests
  unfolding add_state_to
  tables-add_state_to id state reason w a h =
      elim (Option-cases (find_request id w.tables.requests)) [
        | inl missing ↦ cc (rw (missing, add_state_to) at h)
        | inr (r, found) ↦
            let n = env.next_id (all_state_ids w.tables.requests) in
            elim (Result-cases (add_state n w.now state reason r)) [
              | inl (x, fails) ↦ cc (rw (found, fails, add_state_to) at h)
              | inr (r', works) ↦
                  let (_, _, _, _, shape) = add_state-Follows n w.now state reason r r' works in
                  rw (found, works, add_state_to)
                    (Grown-replace_request id r r' w.tables.requests found (ap (λ x. x.id) shape)
                      (_, ap (λ x. x.states) shape))
            ]
      ]

  pub IsGrowing-add_state_to :
      (id : ℕ) (state reason : String) → IsGrowing (add_state_to env id state reason)
  IsGrowing-add_state_to id state reason =
      IsGrowing-tables _ (tables-add_state_to id state reason)
        (committed-add_state_to id state reason)

  tables-insert_request :
      (r : Request) (w : World) (a : ℕ)
      → (insert_request env r w).0 ≡ ok a
      → Grown w.tables.requests (insert_request env r w).1.tables.requests
  unfolding insert_request
  tables-insert_request r w a h =
      let id = env.next_id (request_ids w.tables.requests) in
      let state_id = env.next_id (all_state_ids w.tables.requests) in
      elim (Result-cases (
        add_state state_id w.now "in_progress" "The request was initiated"
          (record r { id = id }))) [
            | inl (x, fails) ↦ cc (rw (fails, insert_request) at h)
            | inr (r', works) ↦ rw (works, insert_request) (Grown-append r' w.tables.requests)
          ]

  pub IsGrowing-insert_request : (r : Request) → IsGrowing (insert_request env r)
  unfolding insert_request
  IsGrowing-insert_request r = IsGrowing-tables _ (tables-insert_request r) (λ w. ground arith)

  pub IsGrowing-batch_or_new : (batch : Option ℕ) → IsGrowing (batch_or_new env batch)
  unfolding batch_or_new add_batch
  IsGrowing-batch_or_new none = IsGrowing-same _ (λ w. refl) (λ w. refl)
  IsGrowing-batch_or_new (some id) = IsGrowing-pure id

  pub IsGrowing-add_batch : (annotations : Option Json) → IsGrowing (add_batch env annotations)
  unfolding add_batch
  IsGrowing-add_batch annotations = IsGrowing-same _ (λ w. refl) (λ w. refl)

  IsGrowing-send_messages : (es : List Envelope) → IsGrowing (send_messages env es)
  unfolding send_messages
  IsGrowing-send_messages es = IsGrowing-same _ (λ w. ground arith) (λ w. ground arith)

  pub IsGrowing-load_request : (id : ℕ) → IsGrowing (load_request env id)
  unfolding load_request
  IsGrowing-load_request id = IsGrowing-same _ (λ w. ground arith) (λ w. ground arith)

  IsGrowing-batch_envelope_exec :
      (batch : ℕ) (b : Bool) → IsGrowing (batch_envelope_exec env batch b)
  unfolding batch_envelope_exec
  IsGrowing-batch_envelope_exec batch b = IsGrowing-same _ (λ w. refl) (λ w. refl)

  pub IsGrowing-send_message_for_state_change :
      (id : ℕ) (b : Bool) → IsGrowing (send_message_for_state_change env id b)
  unfolding send_message_for_state_change
  IsGrowing-send_message_for_state_change id b =
      search
        (
          growing_rules, IsGrowing-load_request, IsGrowing-batch_envelope_exec,
          IsGrowing-send_messages,
        )
        depth 12

  IsGrowing-request_envelopes : (ids : List ℕ) → IsGrowing (request_envelopes env ids)
  unfolding request_envelopes
  IsGrowing-request_envelopes [] = IsGrowing-pure []
  IsGrowing-request_envelopes (id ∷ ids) =
      IsGrowing-bind (load_request env id) _ (IsGrowing-load_request id) (λ r.
        IsGrowing-bind (lift (request_envelope env r)) _ (IsGrowing-lift _) (λ mine.
          IsGrowing-bind (request_envelopes env ids) _ (IsGrowing-request_envelopes ids)
            (λ rest. IsGrowing-pure _)))

  pub IsGrowing-send_messages_for_new_batch_of_requests :
      (ids : List ℕ) → IsGrowing (send_messages_for_new_batch_of_requests env ids)
  unfolding send_messages_for_new_batch_of_requests
  IsGrowing-send_messages_for_new_batch_of_requests [] = IsGrowing-pure tt
  IsGrowing-send_messages_for_new_batch_of_requests (id ∷ ids) =
      search
        (
          growing_rules, IsGrowing-request_envelopes, IsGrowing-load_request,
          IsGrowing-batch_envelope_exec, IsGrowing-send_messages,
        )
        depth 12
