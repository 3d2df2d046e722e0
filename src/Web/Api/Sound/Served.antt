-- ===== src/Web/Api/Sound/Served.antt =====
-- Whatever iib/web/api_v1.py is asked for, the histories of the requests stay sound.
use iib.Common.{
  All-map, ℕ, ◌≡◌, refl, sym, ◌∙◌, ap, subst, true, some, List, [], ◌∷◌, ◌++◌, All, last?,
}
use iib.Json.{Json}
use iib.Web.Tables.{Request, RequestState}
use iib.Web.Request.History.{IsSettled, IsSound, IsOrdered, is_final}
use iib.Web.Messaging.{find_request}
use iib.Web.Session.{Env, World}
use iib.Web.Session.Sound.{Leads, Leads-bind, Leads-pure, serve-IsSound}
use iib.Web.FromJson.Sound.{GivesNoState}
use iib.Web.Api.Broker.Sound.{GivesNewKeys, find_request-All}
use iib.Web.Api.Batches.{regenerate_bundle_batch, add_rm_batch}
use iib.Web.Api.Patch.Sound.{IsSettled-weaken, patch_request-IsSound}
use iib.Web.Api.Refusal.{BrokerIsUp}
use iib.Web.Api.Routes.{
  PostRoute, post, builds_add, builds_rm, builds_regenerate_bundle, builds_regenerate_bundle_batch,
  builds_add_rm_batch, builds_merge_index_image, Call, submit, patch, after, after_all,
}
use iib.Web.Api.Sound.{
  Leads-weaken, Leads-add_bundles, Leads-rm_operators, Leads-regenerate_bundle,
  Leads-merge_index_image,
}
use iib.Web.Api.Sound.Batches.{
  Leads-create_regenerate, Leads-create_add_or_rm, Leads-schedule_regenerate,
  Leads-schedule_add_or_rm, Leads-submit_batch,
}
use iib.Web.Api.Grows.Served.{after_all-Extends}

-- For a batch the broker takes every task.
abbrev pub TakesTasks : Env → PostRoute → Type 0
TakesTasks env builds_regenerate_bundle_batch = BrokerIsUp env
TakesTasks env builds_add_rm_batch = BrokerIsUp env
TakesTasks env _ = Unit

-- The database gives new keys, the constructor gives no state, and the broker takes the tasks of a
-- batch.
abbrev pub IsOrderly : Call → Type 0
IsOrderly (submit env route json) = GivesNewKeys env × GivesNoState env × TakesTasks env route
IsOrderly (patch env id json) = GivesNewKeys env

module _ (env : Env) (new_keys : GivesNewKeys env) (no_state : GivesNoState env) where
  Leads-post :
      (route : PostRoute) (json : Json)
      → TakesTasks env route
      → Leads IsSettled IsSound (post env route json)
  unfolding post regenerate_bundle_batch add_rm_batch
  Leads-post builds_add json up =
      Leads-bind _ _ (Leads-add_bundles env new_keys json) (λ id. Leads-pure _ (λ r h. h))
  Leads-post builds_rm json up =
      Leads-bind _ _ (Leads-rm_operators env new_keys json) (λ id. Leads-pure _ (λ r h. h))
  Leads-post builds_regenerate_bundle json up =
      Leads-bind _ _ (Leads-regenerate_bundle env new_keys json) (λ id. Leads-pure _ (λ r h. h))
  Leads-post builds_merge_index_image json up =
      Leads-bind _ _ (Leads-merge_index_image env new_keys json no_state)
        (λ id. Leads-pure _ (λ r h. h))
  Leads-post builds_regenerate_bundle_batch json up =
      Leads-submit_batch env up _ _ json (Leads-create_regenerate env)
        (Leads-schedule_regenerate env up)
  Leads-post builds_add_rm_batch json up =
      Leads-submit_batch env up _ _ json (Leads-create_add_or_rm env)
        (Leads-schedule_add_or_rm env up)

after-IsSound :
    (call : Call) (w : World)
    → IsOrderly call
    → All IsSound w.committed.requests
    → All IsSound (after call w).committed.requests
unfolding after
after-IsSound (submit env route json) w (new_keys, no_state, up) h =
    serve-IsSound (post env route json) w
      (Leads-weaken _ IsSettled-weaken (Leads-post env new_keys no_state route json up)) h
after-IsSound (patch env id json) w new_keys h = patch_request-IsSound env id json w new_keys h

after_all-IsSound :
    (calls : List Call) (w : World)
    → All IsOrderly calls
    → All IsSound w.committed.requests
    → All IsSound (after_all calls w).committed.requests
unfolding after_all
after_all-IsSound [] w o h = h
after_all-IsSound (call ∷ calls) w o h =
    after_all-IsSound calls (after call w) o.1 (after-IsSound call w o.0 h)

last_of_equal :
    (s : RequestState) (new : List RequestState)
    → All (λ t. t.state ≡ s.state) new
    → (s' : RequestState) × (last? (s ∷ new) ≡ some s') × (s'.state ≡ s.state)
last_of_equal s [] h = (s, refl, refl)
last_of_equal s (t ∷ new) h =
    let (s', e, same) = last_of_equal t new (All-map (λ u k. k ∙ sym h.0) new h.1) in
    (s', e, same ∙ h.0)

-- Where the last of some states is final, so is the last of all, with the same number.
last_after_final :
    (states new : List RequestState) (s : RequestState)
    → IsOrdered (states ++ new)
    → last? states ≡ some s
    → is_final s.state ≡ true
    → (s' : RequestState) × (last? (states ++ new) ≡ some s') × (s'.state ≡ s.state)
last_after_final [] new s o e f = cc
last_after_final (t ∷ []) new s o e f =
    let one : t ≡ s = cc in
    subst (λ x. (s' : RequestState) × (last? (t ∷ new) ≡ some s') × (s'.state ≡ x.state)) one
      (last_of_equal t new (o.0 (rw one f)))
last_after_final (t ∷ u ∷ states) new s o e f = last_after_final (u ∷ states) new s o.1 e f

-- A committed request that is complete or failed stays so, whatever calls the API serves
-- afterwards, by whomever and in whatever order: where the committed histories are sound and the
-- database gives new keys, the constructor gives no state and the broker takes the tasks of
-- batches.
pub after_all-final :
    (calls : List Call) (w : World) (id : ℕ) (r : Request) (s : RequestState)
    → All IsOrderly calls
    → All IsSound w.committed.requests
    → find_request id w.committed.requests ≡ some r
    → r.state ≡ some s
    → is_final s.state ≡ true
    → (r' : Request) × (s' : RequestState) × (find_request id (after_all calls w).committed.requests
        ≡ some r')
      × (r'.state ≡ some s')
      × (s'.state ≡ s.state)
after_all-final calls w id r s o h e current f =
    let (r', e', (new, grown)) = after_all-Extends calls w id r e in
    let before = find_request-All IsSound id w.committed.requests r h e in
    let after' =
      find_request-All IsSound id (after_all calls w).committed.requests r'
        (after_all-IsSound calls w o h) e' in
    let (s', last, same) =
      last_after_final r.states new s (subst IsOrdered grown after'.settled.ordered)
        (sym before.current ∙ current) f in
    (r', s', e', after'.current ∙ ap last? grown ∙ last, same)
