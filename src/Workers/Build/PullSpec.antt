-- ===== src/Workers/Build/PullSpec.antt =====
-- The pull specifications of the images that iib/workers/tasks/build.py builds.
use iib.Common.{ℕ, String, Bool, Option, none, some, ◌==◌, if◌then◌else◌}
use iib.Common.Text.{◌⧺◌}
use iib.Common.Find.{decimal}
use iib.Exn.{Result, ok, err}
use iib.Workers.Exec.{Env}
use iib.Common.Format.{format}

abbrev template_fields : (registry : String) → (request_id : ℕ) → String → Option String
template_fields registry request_id field =
    if field == "registry"
    then some registry
    else if field == "request_id"
    then some (decimal request_id)
    else none

unfoldable pub get_rebuilt_image_pull_spec : Env → (request_id : ℕ) → Result String
unfolding format
get_rebuilt_image_pull_spec env request_id =
    format (template_fields env.config.iib_registry request_id) env.config.iib_image_push_template

-- `_get_external_arch_pull_spec`
unfoldable pub get_external_arch_pull_spec :
    Env → (request_id : ℕ) → (arch : String) → (include_transport : Bool) → Result String
unfolding get_rebuilt_image_pull_spec
get_external_arch_pull_spec env request_id arch include_transport =
    elim (get_rebuilt_image_pull_spec env request_id) [
      | err e ↦ err e
      | ok spec ↦
          ok (if include_transport then "docker://" ⧺ spec ⧺ "-" ⧺ arch else spec ⧺ "-" ⧺ arch)
    ]

-- `_get_local_pull_spec`
unfoldable pub get_local_pull_spec :
    (request_id : ℕ) → (arch : String) → (include_transport : Bool) → String
get_local_pull_spec request_id arch include_transport =
    let pull_spec = "iib-build:" ⧺ decimal request_id ⧺ "-" ⧺ arch in
    if include_transport then "containers-storage:localhost/" ⧺ pull_spec else pull_spec
