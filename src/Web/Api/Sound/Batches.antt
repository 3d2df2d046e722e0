-- ===== src/Web/Api/Sound/Batches.antt =====
-- The views that submit a batch keep the history of every request sound while the broker takes
-- tasks.
use iib.Common.{ℕ, refl, sym, subst, true, Option, some, List, [], ◌∷◌, All}
use iib.Common.Dict.{Dict, put}
use iib.Exn.{Reason, validation_error, neither_add_nor_rm}
use iib.Json.{Json, arr, of_list, truthy}
use iib.Web.Params.{get_or_null}
use iib.Web.Tables.{Request}
use iib.Web.Batch.{validate_batch_request_params}
use iib.Web.Request.History.{IsSettled, IsSound}
use iib.Web.Messaging.{
  load_request, request_envelope, request_envelopes, send_messages_for_new_batch_of_requests,
  batch_envelope_exec,
}
use iib.Web.Session.{Env, Task, Exec, lift, commit, rollback}
use iib.Web.Session.Sound.{
  Leads, Leads-bind, Leads-same, Leads-pure, Leads-raise, Leads-if, Leads-lift, Leads-commit,
}
use iib.Web.FromJson.Index.{add_batch}
use iib.Web.FromJson.Sound.{Leads-add_from_json, Leads-rm_from_json, Leads-regenerate_from_json}
use iib.Web.Api.Broker.{apply_async}
use iib.Web.Api.Batches.{
  unique_of, catch_invalid, create_regenerate, add_or_rm_from_json, create_add_or_rm, create_all,
  schedule_or_fail, schedule_regenerate, schedule_add_or_rm, schedule_all, submit_batch,
}
use iib.Web.Api.Grows.Batches.{OnlyRaises, recover-OnlyRaises}
use iib.Web.Api.Patch.Sound.{Leads-load_request, Leads-send_messages, Leads-batch_envelope_exec}
use iib.Web.Api.Refusal.{BrokerIsUp}

module _ {A : Type 0} {K L : Request → Type 0} where
  Leads-catch_invalid :
      (m : Exec A) (handler : Reason → Exec A)
      → Leads K L m
      → ((x : Reason) → OnlyRaises (handler x))
      → Leads K L (catch_invalid m handler)
  unfolding catch_invalid
  Leads-catch_invalid m handler km kh = record {
    committed = λ w p h.
        subst (λ t. All IsSound t.requests) (sym (recover-OnlyRaises (m w).0 handler (m w).1 kh).1)
          (km.committed w p h);
    tables = λ w a p h.
        let (made, there) = (recover-OnlyRaises (m w).0 handler (m w).1 kh).0 a h in
        subst (λ x. All L x.tables.requests) (sym there) (km.tables w a p made);
  }

module _ (env : Env) where
  pub Leads-create_regenerate :
      (build_requests : List Json) (batch : ℕ) (b : Json)
      → Leads IsSettled IsSettled (create_regenerate env build_requests batch b)
  unfolding create_regenerate rollback
  Leads-create_regenerate build_requests batch b =
      Leads-catch_invalid _ _
        (Leads-bind (lift _) _ (Leads-lift _)
          (λ params. Leads-regenerate_from_json env params (some batch)))
        (λ x. record { never = λ w a h. cc; committed = λ w. refl })

  Leads-add_or_rm_from_json :
      (batch : ℕ) (b : Dict Json) → Leads IsSettled IsSettled (add_or_rm_from_json env batch b)
  unfolding add_or_rm_from_json
  Leads-add_or_rm_from_json batch b =
      Leads-if (truthy (get_or_null "operators" b)) _ _ (Leads-rm_from_json env b (some batch)) (
        Leads-if (truthy (get_or_null "bundles" b)) _ _
          (Leads-bind (lift (unique_of (get_or_null "bundles" b))) _ (Leads-lift _) (λ unique.
            Leads-add_from_json env (put "bundles" (arr (of_list unique)) b) (some batch)))
          (Leads-raise (validation_error neither_add_nor_rm)))

  pub Leads-create_add_or_rm :
      (build_requests : List Json) (batch : ℕ) (b : Json)
      → Leads IsSettled IsSettled (create_add_or_rm env build_requests batch b)
  unfolding create_add_or_rm
  Leads-create_add_or_rm build_requests batch b =
      Leads-catch_invalid _ _
        (Leads-bind (lift _) _ (Leads-lift _) (λ params. Leads-add_or_rm_from_json batch params))
        (λ x. record { never = λ w a h. cc; committed = λ w. refl })

  Leads-add_batch :
      (annotations : Option Json) → Leads IsSettled IsSettled (add_batch env annotations)
  unfolding add_batch
  Leads-add_batch annotations = Leads-same _ (λ w. refl) (λ w. refl) (λ r h. h)

  Leads-create_all :
      (create : Json → Exec ℕ) (build_requests : List Json)
      → ((b : Json) → Leads IsSettled IsSettled (create b))
      → Leads IsSettled IsSettled (create_all env create build_requests)
  unfolding create_all
  Leads-create_all create [] k = Leads-pure [] (λ r h. h)
  Leads-create_all create (b ∷ bs) k = Leads-bind (create b) _ (k b) (λ id.
      Leads-bind (create_all env create bs) _ (Leads-create_all create bs k)
        (λ ids. Leads-pure _ (λ r h. h)))

  Leads-request_envelopes : (ids : List ℕ) → Leads IsSound IsSound (request_envelopes env ids)
  unfolding request_envelopes
  Leads-request_envelopes [] = Leads-pure [] (λ r h. h)
  Leads-request_envelopes (id ∷ ids) =
      Leads-bind (load_request env id) _ (Leads-load_request env id) (λ r.
        Leads-bind (lift (request_envelope env r)) _ (Leads-lift _) (λ mine.
          Leads-bind (request_envelopes env ids) _ (Leads-request_envelopes ids)
            (λ rest. Leads-pure _ (λ r h. h))))

  Leads-send_messages_for_new_batch_of_requests :
      (ids : List ℕ) → Leads IsSound IsSound (send_messages_for_new_batch_of_requests env ids)
  unfolding send_messages_for_new_batch_of_requests
  Leads-send_messages_for_new_batch_of_requests [] = Leads-pure tt (λ r h. h)
  Leads-send_messages_for_new_batch_of_requests (id ∷ ids) =
      Leads-bind (request_envelopes env (id ∷ ids)) _ (Leads-request_envelopes (id ∷ ids)) (λ mine.
        Leads-bind (load_request env id) _ (Leads-load_request env id) (λ first.
          Leads-bind (batch_envelope_exec env first.batch_id true) _
            (Leads-batch_envelope_exec env _ true) (λ batch. Leads-send_messages env _)))

module _ (env : Env) (up : BrokerIsUp env) where
  Leads-schedule_or_fail :
      (task : Task) (processed ids : List ℕ)
      → Leads IsSound IsSound (schedule_or_fail env task processed ids)
  unfolding schedule_or_fail apply_async
  Leads-schedule_or_fail task processed ids =
      Leads-same _ (λ w. rw (up w.scheduled) refl) (λ w. rw (up w.scheduled) refl) (λ r h. h)

  Leads-schedule_all :
      (round : (processed ids : List ℕ) → Json → ℕ → Exec (Unit {0}))
      → ((processed ids : List ℕ) (b : Json) (id : ℕ)
          → Leads IsSound IsSound (round processed ids b id))
      → (processed ids : List ℕ) (bs : List Json) (left : List ℕ)
      → Leads IsSound IsSound (schedule_all env round processed ids bs left)
  unfolding schedule_all
  Leads-schedule_all round k processed ids [] left = Leads-pure tt (λ r h. h)
  Leads-schedule_all round k processed ids (b ∷ bs) [] = Leads-pure tt (λ r h. h)
  Leads-schedule_all round k processed ids (b ∷ bs) (id ∷ left) =
      Leads-bind (round processed ids b id) _ (k processed ids b id)
        (λ _. Leads-schedule_all round k _ ids bs left)

  pub Leads-schedule_regenerate :
      (processed ids : List ℕ) (b : Json) (id : ℕ)
      → Leads IsSound IsSound (schedule_regenerate env processed ids b id)
  unfolding schedule_regenerate
  Leads-schedule_regenerate processed ids b id = Leads-schedule_or_fail _ processed ids

  pub Leads-schedule_add_or_rm :
      (processed ids : List ℕ) (b : Json) (id : ℕ)
      → Leads IsSound IsSound (schedule_add_or_rm env processed ids b id)
  unfolding schedule_add_or_rm
  Leads-schedule_add_or_rm processed ids b id =
      Leads-bind (load_request env id) _ (Leads-load_request env id) (λ request.
        Leads-bind (lift _) _ (Leads-lift _) (λ safe_args. Leads-schedule_or_fail _ processed ids))

  pub Leads-submit_batch :
      (create : (build_requests : List Json) → (batch : ℕ) → Json → Exec ℕ)
      (round : (processed ids : List ℕ) → Json → ℕ → Exec (Unit {0})) (json : Json)
      → ((bs : List Json) (batch : ℕ) (b : Json) → Leads IsSettled IsSettled (create bs batch b))
      → ((processed ids : List ℕ) (b : Json) (id : ℕ)
          → Leads IsSound IsSound (round processed ids b id))
      → Leads IsSettled IsSound (submit_batch env create round json)
  unfolding submit_batch
  Leads-submit_batch create round json kc kr =
      Leads-bind (lift (validate_batch_request_params json)) _ (Leads-lift _) (λ _.
        Leads-bind (add_batch env _) _ (Leads-add_batch env _) (λ batch.
          Leads-bind (create_all env (create _ batch) _) _ (Leads-create_all env _ _ (kc _ batch))
            (λ ids. Leads-bind commit _ Leads-commit (λ _.
              Leads-bind (send_messages_for_new_batch_of_requests env ids) _
                (Leads-send_messages_for_new_batch_of_requests env ids)
                (λ _.
                  Leads-bind (schedule_all env round [] ids _ ids) _
                    (Leads-schedule_all round kr [] ids _ ids) (λ _. Leads-pure ids (λ r h. h)))))))
