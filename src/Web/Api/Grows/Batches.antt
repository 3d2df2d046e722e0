-- ===== src/Web/Api/Grows/Batches.antt =====
-- The views that submit a batch let histories only grow.
use iib.Common.{ℕ, ◌≡◌, ◌≢◌, refl, sym, ◌∙◌, subst, false, some, List, [], ◌∷◌, inl, inr}
use iib.Common.Dict.{Dict}
use iib.Exn.{
  Reason, Result, ok, err, validation_error, forbidden, iib_error, not_found, gone, type_error,
  attribute_error, key_error, value_error, of_worker,
}
use iib.Json.{Json}
use iib.Web.Batch.{validate_batch_request_params}
use iib.Web.Messaging.{load_request, send_messages_for_new_batch_of_requests}
use iib.Web.Session.{Env, Task, World, Exec, lift, commit, rollback}
use iib.Web.FromJson.Index.{add_batch}
use iib.Web.Api.Broker.{add_state_to, fail_all, handle_broker_batch_error}
use iib.Web.Messaging.{send_message_for_state_change}
use iib.Web.Api.Batches.{
  recover, catch_invalid, create_regenerate, add_or_rm_from_json, create_add_or_rm, create_all,
  schedule_or_fail, schedule_regenerate, schedule_add_or_rm, schedule_all, submit_batch,
}
use iib.Web.Api.Grows.{
  Grown, IsGrowing, IsGrowing-bind, IsGrowing-pure, IsGrowing-lift, IsGrowing-commit, growing_rules,
}
use iib.Web.Api.Grows.Calls.{
  IsGrowing-add_state_to, IsGrowing-add_batch, IsGrowing-load_request,
  IsGrowing-send_message_for_state_change, IsGrowing-send_messages_for_new_batch_of_requests,
}
use iib.Web.Api.Grows.Submit.{
  IsGrowing-add_from_json, IsGrowing-rm_from_json, IsGrowing-regenerate_from_json,
  IsGrowing-apply_async,
}

module _ {A : Type 0} where
  -- A handler that raises and commits nothing.
  pub record OnlyRaises (m : Exec A) : Type 0 where
    pub never : (w : World) (a : A) → (m w).0 ≢ ok a
    pub committed : (w : World) → (m w).1.committed ≡ w.committed

  -- Where such a handler recovers, only a value that was there is returned.
  pub recover-OnlyRaises :
      (r : Result A) (handler : Reason → Exec A) (w : World)
      → ((x : Reason) → OnlyRaises (handler x))
      → ((a : A) → (recover r handler w).0 ≡ ok a → (r ≡ ok a) × ((recover r handler w).1 ≡ w))
        × ((recover r handler w).1.committed ≡ w.committed)
  unfolding recover
  recover-OnlyRaises (ok a) handler w k = (λ b h. (h, refl), refl)
  recover-OnlyRaises (err (validation_error x)) handler w k =
      (λ a h. absurd ((k x).never w a h), (k x).committed w)
  recover-OnlyRaises (err (iib_error x)) handler w k = (λ a h. cc, refl)
  recover-OnlyRaises (err (forbidden x)) handler w k = (λ a h. cc, refl)
  recover-OnlyRaises (err not_found) handler w k = (λ a h. cc, refl)
  recover-OnlyRaises (err gone) handler w k = (λ a h. cc, refl)
  recover-OnlyRaises (err type_error) handler w k = (λ a h. cc, refl)
  recover-OnlyRaises (err attribute_error) handler w k = (λ a h. cc, refl)
  recover-OnlyRaises (err key_error) handler w k = (λ a h. cc, refl)
  recover-OnlyRaises (err value_error) handler w k = (λ a h. cc, refl)
  recover-OnlyRaises (err (of_worker e)) handler w k = (λ a h. cc, refl)

  IsGrowing-catch_invalid :
      (m : Exec A) (handler : Reason → Exec A)
      → IsGrowing m
      → ((x : Reason) → OnlyRaises (handler x))
      → IsGrowing (catch_invalid m handler)
  unfolding catch_invalid
  IsGrowing-catch_invalid m handler km kh = record {
    tables = λ w a h.
        let (made, there) = (recover-OnlyRaises (m w).0 handler (m w).1 kh).0 a h in
        subst (λ x. Grown w.tables.requests x.tables.requests) (sym there) (km.tables w a made);
    committed = λ w.
        let same = (recover-OnlyRaises (m w).0 handler (m w).1 kh).1 in
        elim (km.committed w) [
          | inl same' ↦ inl (same ∙ same')
          | inr grown ↦ inr (subst (λ t. Grown w.tables.requests t.requests) (sym same) grown)
        ];
  }

module _ (env : Env) where
  pub IsGrowing-create_regenerate :
      (build_requests : List Json) (batch : ℕ) (b : Json)
      → IsGrowing (create_regenerate env build_requests batch b)
  unfolding create_regenerate rollback
  IsGrowing-create_regenerate build_requests batch b =
      IsGrowing-catch_invalid _ _
        (IsGrowing-bind (lift _) _ (IsGrowing-lift _)
          (λ params. IsGrowing-regenerate_from_json env params (some batch)))
        (λ x. record { never = λ w a h. cc; committed = λ w. refl })

  IsGrowing-add_or_rm_from_json :
      (batch : ℕ) (b : Dict Json) → IsGrowing (add_or_rm_from_json env batch b)
  unfolding add_or_rm_from_json
  IsGrowing-add_or_rm_from_json batch b =
      search (growing_rules, IsGrowing-add_from_json, IsGrowing-rm_from_json) depth 12

  pub IsGrowing-create_add_or_rm :
      (build_requests : List Json) (batch : ℕ) (b : Json)
      → IsGrowing (create_add_or_rm env build_requests batch b)
  unfolding create_add_or_rm
  IsGrowing-create_add_or_rm build_requests batch b =
      IsGrowing-catch_invalid _ _
        (IsGrowing-bind (lift _) _ (IsGrowing-lift _)
          (λ params. IsGrowing-add_or_rm_from_json batch params))
        (λ x. record { never = λ w a h. cc; committed = λ w. refl })

  IsGrowing-create_all :
      (create : Json → Exec ℕ) (build_requests : List Json)
      → ((b : Json) → IsGrowing (create b))
      → IsGrowing (create_all env create build_requests)
  unfolding create_all
  IsGrowing-create_all create [] k = IsGrowing-pure []
  IsGrowing-create_all create (b ∷ bs) k = IsGrowing-bind (create b) _ (k b) (λ id.
      IsGrowing-bind (create_all env create bs) _ (IsGrowing-create_all create bs k)
        (λ ids. IsGrowing-pure _))

  IsGrowing-fail_all : (ids : List ℕ) → IsGrowing (fail_all env ids)
  unfolding fail_all
  IsGrowing-fail_all [] = IsGrowing-pure tt
  IsGrowing-fail_all (id ∷ ids) =
      IsGrowing-bind (add_state_to env id _ _) _ (IsGrowing-add_state_to env id _ _) (λ _.
        IsGrowing-bind (send_message_for_state_change env id false) _
          (IsGrowing-send_message_for_state_change env id false) (λ _. IsGrowing-fail_all ids))

  IsGrowing-schedule_or_fail :
      (task : Task) (processed ids : List ℕ) → IsGrowing (schedule_or_fail env task processed ids)
  unfolding schedule_or_fail handle_broker_batch_error
  IsGrowing-schedule_or_fail task processed ids =
      search (growing_rules, IsGrowing-apply_async, IsGrowing-fail_all) depth 12

  IsGrowing-schedule_all :
      (round : (processed ids : List ℕ) → Json → ℕ → Exec (Unit {0}))
      → ((processed ids : List ℕ) (b : Json) (id : ℕ) → IsGrowing (round processed ids b id))
      → (processed ids : List ℕ) (bs : List Json) (left : List ℕ)
      → IsGrowing (schedule_all env round processed ids bs left)
  unfolding schedule_all
  IsGrowing-schedule_all round k processed ids [] left = IsGrowing-pure tt
  IsGrowing-schedule_all round k processed ids (b ∷ bs) [] = IsGrowing-pure tt
  IsGrowing-schedule_all round k processed ids (b ∷ bs) (id ∷ left) =
      IsGrowing-bind (round processed ids b id) _ (k processed ids b id)
        (λ _. IsGrowing-schedule_all round k _ ids bs left)

  pub IsGrowing-schedule_regenerate :
      (processed ids : List ℕ) (b : Json) (id : ℕ)
      → IsGrowing (schedule_regenerate env processed ids b id)
  unfolding schedule_regenerate
  IsGrowing-schedule_regenerate processed ids b id = IsGrowing-schedule_or_fail _ processed ids

  pub IsGrowing-schedule_add_or_rm :
      (processed ids : List ℕ) (b : Json) (id : ℕ)
      → IsGrowing (schedule_add_or_rm env processed ids b id)
  unfolding schedule_add_or_rm
  IsGrowing-schedule_add_or_rm processed ids b id =
      IsGrowing-bind (load_request env id) _ (IsGrowing-load_request env id) (λ request.
        IsGrowing-bind (lift _) _ (IsGrowing-lift _)
          (λ safe_args. IsGrowing-schedule_or_fail _ processed ids))

  pub IsGrowing-submit_batch :
      (create : (build_requests : List Json) → (batch : ℕ) → Json → Exec ℕ)
      (round : (processed ids : List ℕ) → Json → ℕ → Exec (Unit {0})) (json : Json)
      → ((bs : List Json) (batch : ℕ) (b : Json) → IsGrowing (create bs batch b))
      → ((processed ids : List ℕ) (b : Json) (id : ℕ) → IsGrowing (round processed ids b id))
      → IsGrowing (submit_batch env create round json)
  unfolding submit_batch
  IsGrowing-submit_batch create round json kc kr =
      IsGrowing-bind (lift (validate_batch_request_params json)) _ (IsGrowing-lift _) (λ _.
        IsGrowing-bind (add_batch env _) _ (IsGrowing-add_batch env _) (λ batch.
          IsGrowing-bind (create_all env (create _ batch) _) _
            (IsGrowing-create_all _ _ (kc _ batch))
            (λ ids. IsGrowing-bind commit _ IsGrowing-commit (λ _.
              IsGrowing-bind (send_messages_for_new_batch_of_requests env ids) _
                (IsGrowing-send_messages_for_new_batch_of_requests env ids)
                (λ _.
                  IsGrowing-bind (schedule_all env round [] ids _ ids) _
                    (IsGrowing-schedule_all round kr [] ids _ ids) (λ _. IsGrowing-pure ids))))))
