-- ===== src/Web/Api/Routes.antt =====
-- The routes of the blueprint in iib/web/api_v1.py that take a POST request.
use iib.Common.{ℕ, List, [], ◌∷◌}
use iib.Json.{Json}
use iib.Web.Session.{Env, World, Exec, pure, serve, ◌>>=◌}
use iib.Web.Api.Patch.{patch_request}
use iib.Web.Api.Submit.{add_bundles, rm_operators, regenerate_bundle, merge_index_image}
use iib.Web.Api.Batches.{regenerate_bundle_batch, add_rm_batch}

-- By the path under the version's prefix.
pub data PostRoute : Type 0 where
  builds_add builds_rm builds_regenerate_bundle builds_regenerate_bundle_batch : PostRoute
  builds_add_rm_batch builds_merge_index_image : PostRoute

-- The keys of the new requests.
unfoldable pub post : Env → PostRoute → Json → Exec (List ℕ)
post env builds_add json = do id ← add_bundles env json; pure (id ∷ [])
post env builds_rm json = do id ← rm_operators env json; pure (id ∷ [])
post env builds_regenerate_bundle json = do id ← regenerate_bundle env json; pure (id ∷ [])
post env builds_regenerate_bundle_batch json = regenerate_bundle_batch env json
post env builds_add_rm_batch json = add_rm_batch env json
post env builds_merge_index_image json = do id ← merge_index_image env json; pure (id ∷ [])

-- A call of the API: who calls and what the services around it do, and the request.
pub data Call : Type 0 where
  submit : Env → PostRoute → Json → Call
  patch : Env → ℕ → Json → Call

-- What a call leaves, whether it returns or raises.
unfoldable pub after : Call → World → World
unfolding post
after (submit env route json) w = (serve (post env route json) w).1
after (patch env id json) w = (serve (patch_request env id json) w).1

unfoldable pub after_all : List Call → World → World
unfolding after
after_all [] w = w
after_all (call ∷ calls) w = after_all calls (after call w)
