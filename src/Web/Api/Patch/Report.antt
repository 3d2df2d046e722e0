-- ===== src/Web/Api/Patch/Report.antt =====
-- A report of a state that a request has already.
use iib.Common.{String, ◌≡◌, refl, true, some, [], ◌∷◌, arith}
use iib.Common.Dict.{Dict, get, has}
use iib.Exn.{ok}
use iib.Json.{Json, str, json_eq}
use iib.Web.Mappings.{validate_state}
use iib.Web.Tables.{Request, RequestState}
use iib.Web.Params.{get_or_null}
use iib.Web.Session.{Env, World, pure, ◌>>◌}
use iib.Web.Api.Broker.{add_state_to}
use iib.Web.Api.Patch.{apply_state, patch_state, is_same_state}

get-some-has {ℓ} :
    {V : Type ℓ} (k : String) (d : Dict V) (v : V) → get k d ≡ some v → has k d ≡ true
unfolding get has
get-some-has k [] v h = cc
get-some-has k ((j, u) ∷ d) v h = ground (arith, get-some-has k d v)

get_or_null-get : (k : String) (d : Dict Json) (v : Json) → get k d ≡ some v → get_or_null k d ≡ v
unfolding get_or_null
get_or_null-get k d v h = rw (h, get_or_null) refl

-- Whatever state the request has, a PATCH that names a known state and a reason calls `add_state`
-- with them: the comparison with the current state and reason never holds.
pub patch_state-adds :
    (env : Env) (r : Request) (payload : Dict Json) (s : RequestState) (state reason : String)
    (w : World)
    → r.state ≡ some s
    → get "state" payload ≡ some (str state)
    → get "state_reason" payload ≡ some (str reason)
    → validate_state state ≡ ok tt
    → patch_state env r payload w ≡ (add_state_to env r.id state reason >> pure true) w
unfolding patch_state is_same_state json_eq
patch_state-adds env r payload s state reason w current given because known =
    rw
      (
        get-some-has "state" payload (str state) given,
        get-some-has "state_reason" payload (str reason) because,
        get_or_null-get "state" payload (str state) given,
        get_or_null-get "state_reason" payload (str reason) because,
        known,
        current,
        apply_state,
      )
      refl
