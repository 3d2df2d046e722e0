-- ===== src/Tests/Worker/Runs.antt =====
-- The tasks, and their parts that run commands.
use iib.Common.{false, none, some, [], ◌∷◌, ◌≡◌, ◌≢◌, refl, arith}
use iib.Exn.{ok, err, key_error}
use iib.Workers.Exec.{refused}
use iib.Workers.Docker.{template_config}
use iib.Workers.Api.{set_request_state}
use iib.Workers.Api.Refused.{set_request_state-refused}
use iib.Workers.Build.Registry.{wait_for, out_of_fuel}
use iib.Workers.Build.Registry.Wait.{IsClock, wait_for-ends}
use iib.Workers.Build.Present.{get_present_bundles}
use iib.Workers.Build.Present.Unique.{IsListed, get_present_bundles-IsListed}
use iib.Workers.Exec.Returns.{Returns}
use iib.Workers.Tasks.{WorkerTask, rm_task, perform}
use iib.Workers.Tasks.Reports.{IsOrdered, perform-IsOrdered}
use iib.Workers.Tasks.Docker.{perform-Settles}
use iib.Tests.Worker.{env, env_with, world}

abbrev removal : WorkerTask
removal = rm_task (record {
  operators = "some-operator" ∷ [];
  from_index = "quay.io/index:v4.6";
  binary_image = some "quay.io/ose:v4.6";
  add_arches = none;
  overwrite_from_index = false;
  overwrite_from_index_token = some "user:password";
  distribution_scope = none;
  binary_image_config = none;
})

perform-IsOrdered_example : IsOrdered removal 1 world (perform env 1 removal world)
perform-IsOrdered_example = perform-IsOrdered env 1 removal world

perform-Settles_example : (perform env 1 removal world).1.docker ≡ template_config env.template
perform-Settles_example = perform-Settles env 1 removal world refl

set_request_state-refused_example :
    (set_request_state (env_with refused) 1 "in_progress" "Resolving" world).0 ≡ err key_error
set_request_state-refused_example =
    set_request_state-refused (env_with refused) 1 "in_progress" "Resolving" world refl

get_present_bundles-IsListed_example :
    Returns (IsListed env) (get_present_bundles env "quay.io/index:v4.6" "/tmp/iib-1")
get_present_bundles-IsListed_example =
    get_present_bundles-IsListed env "quay.io/index:v4.6" "/tmp/iib-1"

clock-IsClock : IsClock env.clock
clock-IsClock = record { forward = λ e events. omega arith; sleeps = λ events. omega arith }

wait_for-ends_example :
    (wait_for env ("opm" ∷ []) 50_051 (env.clock world.events) 3 3 world).0 ≢ ok out_of_fuel
wait_for-ends_example = wait_for-ends env clock-IsClock ("opm" ∷ []) 50_051 3 world
