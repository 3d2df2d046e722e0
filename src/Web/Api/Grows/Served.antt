-- ===== src/Web/Api/Grows/Served.antt =====
-- Whatever iib/web/api_v1.py is asked for, histories only grow.
use iib.Common.{ℕ, ◌≡◌, refl, sym, subst, some, List, [], ◌∷◌, inl, inr}
use iib.Json.{Json}
use iib.Web.Tables.{Request}
use iib.Web.Messaging.{find_request}
use iib.Web.Session.{Env, World, Exec, rollback, serve}
use iib.Web.Api.Batches.{regenerate_bundle_batch, add_rm_batch}
use iib.Web.Api.Routes.{
  PostRoute, post, builds_add, builds_rm, builds_regenerate_bundle, builds_regenerate_bundle_batch,
  builds_add_rm_batch, builds_merge_index_image, Call, submit, patch, after, after_all,
}
use iib.Web.Api.Grows.{
  Extends, Extends-same, Extends-trans, Grown, Grown-refl, IsGrowing, IsGrowing-bind,
  IsGrowing-pure,
}
use iib.Web.Api.Grows.Submit.{
  IsGrowing-add_bundles, IsGrowing-rm_operators, IsGrowing-regenerate_bundle,
  IsGrowing-merge_index_image,
}
use iib.Web.Api.Grows.Patch.{IsGrowing-patch_request}
use iib.Web.Api.Grows.Batches.{
  IsGrowing-create_regenerate, IsGrowing-create_add_or_rm, IsGrowing-schedule_regenerate,
  IsGrowing-schedule_add_or_rm, IsGrowing-submit_batch,
}

module _ (env : Env) where
  IsGrowing-post : (route : PostRoute) (json : Json) → IsGrowing (post env route json)
  unfolding post regenerate_bundle_batch add_rm_batch
  IsGrowing-post builds_add json =
      IsGrowing-bind _ _ (IsGrowing-add_bundles env json) (λ id. IsGrowing-pure _)
  IsGrowing-post builds_rm json =
      IsGrowing-bind _ _ (IsGrowing-rm_operators env json) (λ id. IsGrowing-pure _)
  IsGrowing-post builds_regenerate_bundle json =
      IsGrowing-bind _ _ (IsGrowing-regenerate_bundle env json) (λ id. IsGrowing-pure _)
  IsGrowing-post builds_merge_index_image json =
      IsGrowing-bind _ _ (IsGrowing-merge_index_image env json) (λ id. IsGrowing-pure _)
  IsGrowing-post builds_regenerate_bundle_batch json =
      IsGrowing-submit_batch env _ _ json (IsGrowing-create_regenerate env)
        (IsGrowing-schedule_regenerate env)
  IsGrowing-post builds_add_rm_batch json =
      IsGrowing-submit_batch env _ _ json (IsGrowing-create_add_or_rm env)
        (IsGrowing-schedule_add_or_rm env)

serve-Grown :
    {A : Type 0} (m : Exec A) (w : World)
    → IsGrowing m
    → Grown w.committed.requests (serve m w).1.committed.requests
unfolding serve rollback
serve-Grown m w k = elim (k.committed (rollback w).1) [
  | inl same ↦
      subst (λ t. Grown w.committed.requests t.requests) (sym same)
        (Grown-refl w.committed.requests)
  | inr grown ↦ grown
]

after-Grown :
    (call : Call) (w : World) → Grown w.committed.requests (after call w).committed.requests
unfolding after
after-Grown (submit env route json) w = serve-Grown _ w (IsGrowing-post env route json)
after-Grown (patch env id json) w = serve-Grown _ w (IsGrowing-patch_request env id json)

-- Whatever calls the API serves, by whomever and in whatever order, whether they succeed or fail,
-- and whatever the broker and the message bus do: no committed request is lost, and its history is
-- what it was, with the later states behind it.
pub after_all-Extends :
    (calls : List Call) (w : World) (id : ℕ) (r : Request)
    → find_request id w.committed.requests ≡ some r
    → (r' : Request) × (find_request id (after_all calls w).committed.requests ≡ some r')
      × Extends r r'
unfolding after_all
after_all-Extends [] w id r e = (r, e, Extends-same r r refl)
after_all-Extends (call ∷ calls) w id r e =
    let (r1, e1, x1) = (after-Grown call w).at id r e in
    let (r2, e2, x2) = after_all-Extends calls (after call w) id r1 e1 in
    (r2, e2, Extends-trans r r1 r2 x1 x2)
