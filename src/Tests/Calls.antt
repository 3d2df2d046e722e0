-- ===== src/Tests/Calls.antt =====
-- Calls of the API one after the other.
use iib.Common.{◌≡◌, refl, some, List, [], ◌∷◌, All, subst}
use iib.Json.{Json, str, obj, arr, cons, nil, end, field}
use iib.Web.Tables.{Request, RequestState}
use iib.Web.Messaging.{find_request}
use iib.Web.FromJson.Sound.{IsBlank, GivesNoState}
use iib.Web.Api.Routes.{Call, submit, patch, builds_add, builds_regenerate_bundle_batch, after_all}
use iib.Web.Api.Grows.{Extends}
use iib.Web.Api.Grows.Served.{after_all-Extends}
use iib.Web.Api.Sound.Served.{IsOrderly, after_all-final}
use iib.Tests.Samples.{env_of, world_of, built, done}
use iib.Tests.Keys.{above-GivesNewKeys}
use iib.Tests.Patches.{built-IsSound}

abbrev bundle : Json
bundle = obj (field "from_bundle_image" (str "a:1") end)

-- A worker reports a failure late, and users submit requests.
abbrev calls : List Call
calls =
    patch (env_of (some "worker")) 1
      (obj (field "state" (str "failed") (field "state_reason" (str "Late") end)))
    ∷ submit (env_of (some "tbrady")) builds_regenerate_bundle_batch
        (obj (field "build_requests" (arr (cons bundle (cons bundle nil))) end))
    ∷ submit (env_of (some "tbrady")) builds_add (obj end)
    ∷ []

no_state : GivesNoState (env_of (some "tbrady"))
no_state kwargs r r' e h = let same : r ≡ r' = cc in subst IsBlank same h

orderly : All IsOrderly calls
orderly = (
  above-GivesNewKeys,
  ((above-GivesNewKeys, no_state, λ tasks. refl), ((above-GivesNewKeys, no_state, tt), tt)),
)

found_built : find_request 1 (world_of (built ∷ [])).committed.requests ≡ some built
unfolding find_request
found_built = refl

after_all-final_example :
    (r' : Request) × (s' : RequestState) × (find_request 1
        (after_all calls (world_of (built ∷ []))).committed.requests
      ≡ some r')
    × (r'.state ≡ some s')
    × (s'.state ≡ 2)
after_all-final_example =
    after_all-final calls (world_of (built ∷ [])) 1 built done orderly built-IsSound found_built
      refl refl

after_all-Extends_example :
    (r' : Request) × (find_request 1 (after_all calls (world_of (built ∷ []))).committed.requests
      ≡ some r')
    × Extends built r'
after_all-Extends_example = after_all-Extends calls (world_of (built ∷ [])) 1 built found_built
