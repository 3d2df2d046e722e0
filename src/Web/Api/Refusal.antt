-- ===== src/Web/Api/Refusal.antt =====
-- What is left of a submission to iib/web/api_v1.py that is refused.
use iib.Common.{◌<◌, ℕ, String, ◌≡◌, true, Option, List, [], ◌∷◌}
use iib.Web.Errors.{status_code}
use iib.Web.Session.Atomic.{status_code-is_refusal}
use iib.Exn.{Exn, Result, ok, err}
use iib.Json.{Json}
use iib.Web.Session.{
  continue, lift, commit, Env, Task, Handler, World, Exec, serve, rollback, pure, ◌>>=◌,
}
use iib.Web.Session.Quiet.{SameOutside, IsQuiet, quiet_rules, IsQuiet-lift}
use iib.Web.Session.Atomic.{
  IsAtomic, IsAtomic-bind, IsAtomic-NeverRefuses, NeverRefuses, NeverRefuses-pure,
  NeverRefuses-bind, NeverRefuses-lift, refusal_rules,
}
use iib.Web.Messaging.{load_request, send_messages_for_new_batch_of_requests}
use iib.Web.Batch.{validate_batch_request_params}
use iib.Web.FromJson.Index.{add_batch}
use iib.Web.Messaging.Errors.{
  NeverRefuses-commit, NeverRefuses-load_request, NeverRefuses-send_message_for_state_change,
  NeverRefuses-send_messages_for_new_batch_of_requests,
}
use iib.Web.FromJson.Quiet.{
  IsQuiet-add_from_json, IsQuiet-rm_from_json, IsQuiet-regenerate_from_json,
  IsQuiet-merge_from_json,
}
use iib.Web.Api.Args.{get_safe_args}
use iib.Web.Api.Args.Errors.{get_safe_args_error}
use iib.Web.Api.Broker.{apply_async}
use iib.Web.Api.Submit.{
  announce, schedule, add_bundles, rm_operators, regenerate_bundle, merge_index_image,
}
use iib.Web.Api.Batches.{
  schedule_or_fail, schedule_regenerate, schedule_add_or_rm, create_all, schedule_all, submit_batch,
  regenerate_bundle_batch, add_rm_batch,
}
use iib.Web.Api.Routes.{
  PostRoute, post, builds_add, builds_rm, builds_regenerate_bundle, builds_regenerate_bundle_batch,
  builds_add_rm_batch, builds_merge_index_image,
}
use iib.Web.Api.Batches.Quiet.{
  IsQuiet-create_regenerate, IsQuiet-create_add_or_rm, IsQuiet-create_all, IsQuiet-add_batch,
}

-- The broker takes every task.
abbrev pub BrokerIsUp : Env → Type 0
BrokerIsUp env = (tasks : List Task) → env.broker_up tasks ≡ true

module _ (env : Env) (up : BrokerIsUp env) where
  NeverRefuses-announce : (id : ℕ) → NeverRefuses (announce env id)
  unfolding announce
  NeverRefuses-announce id =
      search (refusal_rules, NeverRefuses-commit, NeverRefuses-send_message_for_state_change)

  NeverRefuses-schedule :
      (handler : Handler) (id : ℕ) (args argsrepr : List Json) (queue : Option String)
      → NeverRefuses (schedule env handler id args argsrepr queue)
  unfolding schedule apply_async
  NeverRefuses-schedule handler id args argsrepr queue = record {
    at = λ w e h. cc (rw (up w.scheduled) at h);
  }

  NeverRefuses-schedule_or_fail :
      (task : Task) (processed ids : List ℕ)
      → NeverRefuses (schedule_or_fail env task processed ids)
  unfolding schedule_or_fail apply_async
  NeverRefuses-schedule_or_fail task processed ids = record {
    at = λ w e h. cc (rw (up w.scheduled) at h);
  }

  ruleset submit_rules = (
    quiet_rules, IsAtomic-bind, IsAtomic-NeverRefuses, refusal_rules, NeverRefuses-announce,
    NeverRefuses-load_request, NeverRefuses-schedule, get_safe_args_error,
  )

  IsAtomic-add_bundles : (json : Json) → IsAtomic (add_bundles env json)
  unfolding add_bundles
  IsAtomic-add_bundles json = search (submit_rules, IsQuiet-add_from_json) depth 30

  IsAtomic-rm_operators : (json : Json) → IsAtomic (rm_operators env json)
  unfolding rm_operators
  IsAtomic-rm_operators json = search (submit_rules, IsQuiet-rm_from_json) depth 30

  IsAtomic-regenerate_bundle : (json : Json) → IsAtomic (regenerate_bundle env json)
  unfolding regenerate_bundle
  IsAtomic-regenerate_bundle json = search (submit_rules, IsQuiet-regenerate_from_json) depth 30

  IsAtomic-merge_index_image : (json : Json) → IsAtomic (merge_index_image env json)
  unfolding merge_index_image
  IsAtomic-merge_index_image json = search (submit_rules, IsQuiet-merge_from_json) depth 30

  NeverRefuses-schedule_all :
      (round : (processed ids : List ℕ) → Json → ℕ → Exec (Unit {0}))
      → ((processed ids : List ℕ) (b : Json) (id : ℕ) → NeverRefuses (round processed ids b id))
      → (processed ids : List ℕ) (bs : List Json) (left : List ℕ)
      → NeverRefuses (schedule_all env round processed ids bs left)
  unfolding schedule_all
  NeverRefuses-schedule_all round k processed ids [] left = NeverRefuses-pure tt
  NeverRefuses-schedule_all round k processed ids (b ∷ bs) [] = NeverRefuses-pure tt
  NeverRefuses-schedule_all round k processed ids (b ∷ bs) (id ∷ left) =
      NeverRefuses-bind (round processed ids b id) _ (k processed ids b id)
        (λ _. NeverRefuses-schedule_all round k _ ids bs left)

  NeverRefuses-schedule_regenerate :
      (processed ids : List ℕ) (b : Json) (id : ℕ)
      → NeverRefuses (schedule_regenerate env processed ids b id)
  unfolding schedule_regenerate
  NeverRefuses-schedule_regenerate processed ids b id =
      NeverRefuses-schedule_or_fail _ processed ids

  NeverRefuses-schedule_add_or_rm :
      (processed ids : List ℕ) (b : Json) (id : ℕ)
      → NeverRefuses (schedule_add_or_rm env processed ids b id)
  unfolding schedule_add_or_rm
  NeverRefuses-schedule_add_or_rm processed ids b id =
      NeverRefuses-bind (load_request env id) _ (NeverRefuses-load_request env id) (λ request.
        NeverRefuses-bind (lift (get_safe_args _ _)) _
          (NeverRefuses-lift _ (get_safe_args_error _ _))
          (λ safe_args. NeverRefuses-schedule_or_fail _ processed ids))

  IsAtomic-submit_batch :
      (create : (build_requests : List Json) → (batch : ℕ) → Json → Exec ℕ)
      (round : (processed ids : List ℕ) → Json → ℕ → Exec (Unit {0})) (json : Json)
      → ((bs : List Json) (batch : ℕ) (b : Json) → IsQuiet (create bs batch b))
      → ((processed ids : List ℕ) (b : Json) (id : ℕ) → NeverRefuses (round processed ids b id))
      → IsAtomic (submit_batch env create round json)
  unfolding submit_batch
  IsAtomic-submit_batch create round json kc kr =
      IsAtomic-bind (lift (validate_batch_request_params json)) _ (IsQuiet-lift _) (λ _.
        IsAtomic-bind (add_batch env _) _ (IsQuiet-add_batch env _) (λ batch.
          IsAtomic-bind (create_all env (create _ batch) _) _
            (IsQuiet-create_all env _ _ (kc _ batch))
            (λ ids. IsAtomic-NeverRefuses _ (
              NeverRefuses-bind commit _ NeverRefuses-commit (λ _.
                NeverRefuses-bind (send_messages_for_new_batch_of_requests env ids) _
                  (NeverRefuses-send_messages_for_new_batch_of_requests env ids)
                  (λ _.
                    NeverRefuses-bind (schedule_all env round [] ids _ ids) _
                      (NeverRefuses-schedule_all round kr [] ids _ ids)
                      (λ _. NeverRefuses-pure ids)))))))

module _ {A B : Type 0} where
  IsAtomic-answer : (m : Exec A) (f : A → B) → IsAtomic m → IsAtomic (m >>= λ a. pure (f a))
  IsAtomic-answer m f k = record { at = λ w e h p. answer (m w).0 (m w).1 e h (λ g. k.at w e g p) }
    where
      answer :
          {w : World} (r : Result A) (w' : World) (e : Exn)
          → (continue r (λ a. pure (f a)) w').0 ≡ err e
          → (r ≡ err e → SameOutside w w')
          → SameOutside w (continue r (λ a. pure (f a)) w').1
      answer (ok a) w' e h g = cc
      answer (err x) w' e h g = g (cc)

IsAtomic-post :
    (env : Env) (route : PostRoute) (json : Json) → BrokerIsUp env → IsAtomic (post env route json)
unfolding post regenerate_bundle_batch add_rm_batch
IsAtomic-post env builds_add json up = IsAtomic-answer _ _ (IsAtomic-add_bundles env up json)
IsAtomic-post env builds_rm json up = IsAtomic-answer _ _ (IsAtomic-rm_operators env up json)
IsAtomic-post env builds_regenerate_bundle json up =
    IsAtomic-answer _ _ (IsAtomic-regenerate_bundle env up json)
IsAtomic-post env builds_merge_index_image json up =
    IsAtomic-answer _ _ (IsAtomic-merge_index_image env up json)
IsAtomic-post env builds_regenerate_bundle_batch json up =
    IsAtomic-submit_batch env up _ _ json (IsQuiet-create_regenerate env)
      (NeverRefuses-schedule_regenerate env up)
IsAtomic-post env builds_add_rm_batch json up =
    IsAtomic-submit_batch env up _ _ json (IsQuiet-create_add_or_rm env)
      (NeverRefuses-schedule_add_or_rm env up)

-- While the broker takes tasks, a submission on any route that is answered with an error status
-- below 500 leaves the database, the messages and the tasks as they were, also where it is the last
-- build request of a batch that is refused.
pub refused_post-SameOutside :
    (env : Env) (route : PostRoute) (json : Json) (w : World) (e : Exn)
    → BrokerIsUp env
    → (serve (post env route json) w).0 ≡ err e
    → status_code e < 500
    → SameOutside w (serve (post env route json) w).1
unfolding serve rollback
refused_post-SameOutside env route json w e up h p =
    let same =
      (IsAtomic-post env route json up).at (rollback w).1 e h (status_code-is_refusal e p) in
    record { committed = same.committed; sent = same.sent; scheduled = same.scheduled }
