-- ===== src/Web/Api/Patch/Atomic.antt =====
-- A PATCH that is refused changes nothing.
use iib.Common.{ℕ, ◌≡◌, ◌<◌}
use iib.Web.Errors.{status_code}
use iib.Exn.{Exn, err}
use iib.Json.{Json}
use iib.Web.Session.{Env, World, serve, rollback}
use iib.Web.Session.Quiet.{SameOutside}
use iib.Web.Session.Atomic.{
  status_code-is_refusal, IsAtomic, IsAtomic-bind, IsAtomic-NeverRefuses, refusal_rules,
}
use iib.Web.Messaging.Errors.{NeverRefuses-commit, NeverRefuses-send_message_for_state_change}
use iib.Web.Api.Patch.{patch_request}
use iib.Web.Api.Patch.Quiet.{patch_rules}

IsAtomic-patch_request : (env : Env) (id : ℕ) (json : Json) → IsAtomic (patch_request env id json)
unfolding patch_request
IsAtomic-patch_request env id json =
    search
      (
        patch_rules, IsAtomic-bind, IsAtomic-NeverRefuses, refusal_rules, NeverRefuses-commit,
        NeverRefuses-send_message_for_state_change,
      )
      depth 30

-- A PATCH that is answered with an error status below 500 leaves the database, the messages and the
-- tasks as they were, however far it got.
pub refused_patch-SameOutside :
    (env : Env) (id : ℕ) (json : Json) (w : World) (e : Exn)
    → (serve (patch_request env id json) w).0 ≡ err e
    → status_code e < 500
    → SameOutside w (serve (patch_request env id json) w).1
unfolding serve rollback
refused_patch-SameOutside env id json w e h p =
    let same =
      (IsAtomic-patch_request env id json).at (rollback w).1 e h (status_code-is_refusal e p) in
    record { committed = same.committed; sent = same.sent; scheduled = same.scheduled }
