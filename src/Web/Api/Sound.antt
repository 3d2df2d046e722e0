-- ===== src/Web/Api/Sound.antt =====
-- The views that submit one request keep the history of every request sound.
pub mod Batches
pub mod Served
use iib.Common.{ℕ, String, true, false, Option, none, List, arith, All-map, if◌then◌else◌}
use iib.Json.{Json}
use iib.Web.Tables.{Request}
use iib.Web.Request.History.{IsSettled, IsSound}
use iib.Web.Messaging.{load_request, send_message_for_state_change}
use iib.Web.Session.{Env, Handler, Task, Exec, lift, commit, ◌>>=◌, ◌>>◌}
use iib.Web.Session.Sound.{
  Leads, Leads-bind, Leads-same, Leads-pure, Leads-raise, Leads-if, Leads-lift, Leads-commit,
}
use iib.Web.FromJson.Add.{add_from_json}
use iib.Web.FromJson.Rm.{rm_from_json}
use iib.Web.FromJson.Regenerate.{regenerate_from_json}
use iib.Web.FromJson.Merge.{merge_from_json}
use iib.Web.FromJson.Sound.{
  GivesNoState, Leads-add_from_json, Leads-rm_from_json, Leads-regenerate_from_json,
  Leads-merge_from_json,
}
use iib.Web.Api.Args.{get_safe_args}
use iib.Web.Api.Broker.{add_state_to, handle_broker_error, apply_async}
use iib.Web.Api.Broker.Sound.{GivesNewKeys, Leads-add_state_to}
use iib.Web.Api.Patch.Sound.{Leads-load_request, Leads-send_message_for_state_change}
use iib.Web.Api.Submit.{
  as_object, with_unique_bundles, announce, schedule, add_bundles, rm_operators, regenerate_bundle,
  merge_index_image,
}

module _ {A : Type 0} {K K' L : Request → Type 0} where
  pub Leads-weaken : (m : Exec A) → ((r : Request) → K' r → K r) → Leads K L m → Leads K' L m
  Leads-weaken m k l = record {
    committed = λ w p h. l.committed w (All-map k w.tables.requests p) h;
    tables = λ w a p h. l.tables w a (All-map k w.tables.requests p) h;
  }

module _ (env : Env) where
  Leads-announce : (id : ℕ) → Leads IsSettled IsSound (announce env id)
  unfolding announce
  Leads-announce id =
      Leads-bind commit _ Leads-commit (λ _. Leads-send_message_for_state_change env id true)

  pub Leads-apply_async : (task : Task) → Leads IsSound IsSound (apply_async env task)
  unfolding apply_async
  Leads-apply_async task = Leads-same _ (λ w. ground arith) (λ w. ground arith) (λ r k. k)

module _ (env : Env) (new_keys : GivesNewKeys env) where
  Leads-handle_broker_error :
      (A : Type 0) (id : ℕ) → Leads IsSound IsSound (handle_broker_error env {A = A} id)
  unfolding handle_broker_error
  Leads-handle_broker_error A id =
      Leads-bind (add_state_to env id _ _) _ (Leads-add_state_to env new_keys id _ _) (λ _.
        Leads-bind commit _ Leads-commit (λ _.
          Leads-bind (send_message_for_state_change env id false) _
            (Leads-send_message_for_state_change env id false) (λ _. Leads-raise _)))

  Leads-schedule :
      (handler : Handler) (id : ℕ) (args argsrepr : List Json) (queue : Option String)
      → Leads IsSound IsSound (schedule env handler id args argsrepr queue)
  unfolding schedule
  Leads-schedule handler id args argsrepr queue =
      Leads-bind (apply_async env _) _ (Leads-apply_async env _)
        (λ taken. Leads-if taken _ _ (Leads-pure id (λ r k. k)) (Leads-handle_broker_error ℕ id))

  pub Leads-add_bundles : (json : Json) → Leads IsSettled IsSound (add_bundles env json)
  unfolding add_bundles
  Leads-add_bundles json = Leads-bind (lift (as_object json)) _ (Leads-lift _) (λ given.
      Leads-bind (lift (with_unique_bundles given)) _ (Leads-lift _) (λ payload.
        Leads-bind (add_from_json env payload none) _ (Leads-add_from_json env payload none) (λ id.
          Leads-bind (announce env id) _ (Leads-announce env id) (λ _.
            Leads-bind (load_request env id) _ (Leads-load_request env id) (λ request.
              Leads-bind (lift (get_safe_args _ payload)) _ (Leads-lift _)
                (λ safe_args. Leads-schedule _ id _ _ _))))))

  pub Leads-rm_operators : (json : Json) → Leads IsSettled IsSound (rm_operators env json)
  unfolding rm_operators
  Leads-rm_operators json = Leads-bind (lift (as_object json)) _ (Leads-lift _) (λ payload.
      Leads-bind (rm_from_json env payload none) _ (Leads-rm_from_json env payload none) (λ id.
        Leads-bind (announce env id) _ (Leads-announce env id) (λ _.
          Leads-bind (load_request env id) _ (Leads-load_request env id) (λ request.
            Leads-bind (lift (get_safe_args _ payload)) _ (Leads-lift _)
              (λ safe_args. Leads-schedule _ id _ _ _)))))

  pub Leads-regenerate_bundle : (json : Json) → Leads IsSettled IsSound (regenerate_bundle env json)
  unfolding regenerate_bundle
  Leads-regenerate_bundle json = Leads-bind (lift (as_object json)) _ (Leads-lift _) (λ payload.
      Leads-bind (regenerate_from_json env payload none) _
        (Leads-regenerate_from_json env payload none)
        (λ id. Leads-bind (announce env id) _ (Leads-announce env id) (λ _.
          Leads-bind (lift (get_safe_args _ payload)) _ (Leads-lift _)
            (λ safe_args. Leads-schedule _ id _ _ _))))

  pub Leads-merge_index_image :
      (json : Json) → GivesNoState env → Leads IsSettled IsSound (merge_index_image env json)
  unfolding merge_index_image
  Leads-merge_index_image json no_state =
      Leads-bind (lift (as_object json)) _ (Leads-lift _) (λ payload.
        Leads-bind (merge_from_json env payload none) _
          (Leads-merge_from_json env payload none no_state)
          (λ id. Leads-bind (announce env id) _ (Leads-announce env id) (λ _.
            Leads-bind (load_request env id) _ (Leads-load_request env id) (λ request.
              Leads-bind (lift (get_safe_args _ payload)) _ (Leads-lift _)
                (λ safe_args. Leads-schedule _ id _ _ _)))))
