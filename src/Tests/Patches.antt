-- ===== src/Tests/Patches.antt =====
-- PATCH requests of a worker.
use iib.Common.{true, All, arith, ◌≡◌, refl, some, [], ◌∷◌, String, dec_str}
use iib.Common.Dict.{get, has, keys}
use iib.Web.Errors.{status_code}
use iib.Exn.{err, validation_error, final_state}
use iib.Json.{Json, str, obj, end, field, json_eq, truthy, is_str}
use iib.Web.Mappings.{validate_state}
use iib.Web.Request.{add_state, state_int, name_of, name_of_value, refresh, find_state}
use iib.Web.Params.{get_or_null, get_or_else, strings}
use iib.Web.Messaging.{find_request}
use iib.Web.Api.Patch.Report.{patch_state-adds}
use iib.Web.Session.{pure, ◌>>◌, serve, commit}
use iib.Web.Session.Quiet.{SameOutside}
use iib.Web.Api.Broker.{add_state_to}
use iib.Web.Api.Patch.{
  patch_request, patch_state, is_same_state, patch_omps, patch_images, patch_arches, patch_mapping,
  patch_scope,
}
use iib.Web.Api.Patch.Atomic.{refused_patch-SameOutside}
use iib.Web.Api.Patch.Sound.{patch_request-IsSound}
use iib.Web.Request.History.{IsSound}
use iib.Tests.Keys.{above-GivesNewKeys}
use iib.Tests.Samples.{done, env_of, world_of, built}

abbrev report : String → String → Json
report state reason = obj (field "state" (str state) (field "state_reason" (str reason) end))

run : Unit {0}
unfolding serve patch_request patch_state is_same_state add_state_to add_state state_int name_of
    name_of_value find_request get has keys validate_state json_eq truthy is_str get_or_null
    get_or_else strings dec_str patch_omps patch_images patch_arches patch_mapping patch_scope
    commit refresh find_state
run = tt

late_failure :
    (serve
      (patch_request (env_of (some "worker")) 1 (report "failed" "Late"))
      (world_of (built ∷ []))).0
    ≡ err (validation_error (final_state "complete"))
unfolding run
late_failure = refl

refused_patch-SameOutside_example :
    SameOutside
      (world_of (built ∷ []))
      (serve
        (patch_request (env_of (some "worker")) 1 (report "failed" "Late"))
        (world_of (built ∷ []))).1
unfolding status_code
refused_patch-SameOutside_example =
    refused_patch-SameOutside (env_of (some "worker")) 1 (report "failed" "Late")
      (world_of (built ∷ [])) (validation_error (final_state "complete")) late_failure (omega arith)

pub built-IsSound : All IsSound (built ∷ [])
unfolding refresh find_state
built-IsSound = (
  record {
    settled = record {
      valid = ((omega arith, omega arith), ((omega arith, omega arith), tt));
      ordered = ((λ h. cc), ((λ h. tt), tt));
      keyed = refl;
    };
    current = refl;
  },
  tt,
)

patch_request-IsSound_example :
    All IsSound
      (serve
        (patch_request (env_of (some "worker")) 1 (report "complete" "Built and pushed"))
        (world_of (built ∷ []))).1.committed.requests
patch_request-IsSound_example =
    patch_request-IsSound (env_of (some "worker")) 1 (report "complete" "Built and pushed")
      (world_of (built ∷ [])) above-GivesNewKeys built-IsSound

patch_state-adds_example :
    patch_state
      (env_of (some "worker"))
      built
      (("state", str "complete") ∷ ("state_reason", str "Built") ∷ [])
      (world_of (built ∷ []))
    ≡ (add_state_to (env_of (some "worker")) 1 "complete" "Built" >> pure true)
        (world_of (built ∷ []))
unfolding get validate_state dec_str
patch_state-adds_example =
    patch_state-adds (env_of (some "worker")) built
      (("state", str "complete") ∷ ("state_reason", str "Built") ∷ []) done "complete" "Built"
      (world_of (built ∷ [])) refl refl refl refl
