-- ===== src/Workers/Build/Add.antt =====
-- `handle_add_request` of iib/workers/tasks/build.py. Its steps stand apart from the last line, which
-- sets the state to complete.
use iib.Common.{ℕ, String, Bool, true, ◌||◌, Option, none, some, List, [], ◌∷◌, ◌++◌, if◌then◌else◌}
use iib.Common.Dict.{Dict}
use iib.Common.Find.{sorted}
use iib.Json.{Json, str, json_eq}
use iib.Workers.Values.{is_set}
use iib.Workers.Exec.{Env, Exec, pure, lift, emit, with_temp_dir, ◌>>=◌, ◌>>◌, changed_modes}
use iib.Workers.Docker.{set_registry_token}
use iib.Workers.Api.{set_request_state}
use iib.Workers.Images.{get_resolved_bundles, verify_labels}
use iib.Workers.Prepare.{Prebuild, prepare_request_for_build}
use iib.Workers.Prepare.Config.{BinaryImages, AddRm, add_rm, or_nothing}
use iib.Workers.Gating.{gate_bundles}
use iib.Workers.Legacy.{
  get_legacy_support_packages, validate_legacy_params_and_config, export_legacy_packages,
}
use iib.Workers.Build.Image.{
  cleanup, build_image, build_and_push, add_label_to_index, create_and_push_manifest_list,
}
use iib.Workers.Build.PullSpec.{get_local_pull_spec}
use iib.Workers.Build.Present.{
  get_present_bundles, get_missing_bundles, get_bundles_from_deprecation_list,
}
use iib.Workers.Build.Opm.{opm_index_add, deprecate_bundles}
use iib.Workers.Build.Update.{update_index_image_build_state, update_index_image_pull_spec}

-- The arguments of the task, but for `request_id`.
pub record AddTask : Type 0 where
  pub bundles : List String
  pub binary_image : Option String
  pub from_index : Option String
  pub add_arches : Option (List String)
  pub cnr_token : Option String
  pub organization : Option String
  pub force_backport : Bool
  pub overwrite_from_index : Bool
  pub overwrite_from_index_token : Option String
  pub distribution_scope : Option String
  pub greenwave_config : Dict Json
  pub binary_image_config : Option BinaryImages
  pub deprecation_list : Option (List String)

-- The configuration of the request that is prepared.
unfoldable pub add_config : AddTask → AddRm
add_config t = record {
  _binary_image = t.binary_image;
  distribution_scope = t.distribution_scope;
  binary_image_config = t.binary_image_config;
  overwrite_from_index_token = t.overwrite_from_index_token;
  from_index = t.from_index;
  add_arches = t.add_arches;
  bundles = some t.bundles;
  operators = none;
}

-- `if greenwave_config: gate_bundles(...)`
unfoldable pub gate_if_configured :
    Env → (bundles : List String) → (greenwave_config : Dict Json) → Exec (Unit {0})
gate_if_configured env bundles [] = pure tt
gate_if_configured env bundles (entry ∷ config) = gate_bundles env bundles (entry ∷ config)

unfoldable pub check_legacy : Env → AddTask → (packages : List String) → Exec (Unit {0})
check_legacy env t [] = pure tt
check_legacy env t (pkg ∷ packages) =
    lift (validate_legacy_params_and_config env (pkg ∷ packages) t.cnr_token t.organization)

unfoldable pub export_if_needed :
    Env
    → (request_id : ℕ) → AddTask
    → (packages : List String) → (output_pull_spec : String) → Exec (Unit {0})
export_if_needed env request_id t [] output_pull_spec = pure tt
export_if_needed env request_id t (pkg ∷ packages) output_pull_spec =
    export_legacy_packages env (pkg ∷ packages) request_id output_pull_spec t.organization

abbrev pub or_no_text : Option String → String
or_no_text none = "None"
or_no_text (some s) = s

-- The bundles to add, and the pull specifications of those that the index image has already.
unfoldable pub split_present :
    Env
    → (request_id : ℕ) → AddTask
    → Prebuild
    → (resolved_bundles : List String) → (temp_dir : String) → Exec (List String × List String)
split_present env request_id t info resolved_bundles temp_dir =
    if is_set t.from_index
    then (do
      set_request_state env request_id "in_progress"
          "Checking if bundles are already present in index image"
      present ←
          set_registry_token env t.overwrite_from_index_token info.from_index_resolved
            (get_present_bundles env (or_no_text info.from_index_resolved) temp_dir)
      filtered ← lift (get_missing_bundles env present.0 resolved_bundles)
      pure (filtered, present.1))
    else pure (resolved_bundles, [])

abbrev pub first_text : List String → String
first_text [] = ""
first_text (s ∷ ss) = s

-- A temporary index image is built on one arch for opm to deprecate the bundles in.
unfoldable pub deprecate_if_any :
    Env
    → (request_id : ℕ) → AddTask
    → Prebuild
    → (temp_dir : String) → (deprecation_bundles : List String) → Exec (Unit {0})
deprecate_if_any env request_id t info temp_dir [] = pure tt
deprecate_if_any env request_id t info temp_dir (bundle ∷ bundles) = do
  build_image env temp_dir "index.Dockerfile" request_id (first_text (sorted info.arches))
  deprecate_bundles env (bundle ∷ bundles) temp_dir info.binary_image
      (get_local_pull_spec request_id (first_text (sorted info.arches)) true)
      t.overwrite_from_index_token (some "podman")
  pure tt

abbrev pub add_labels : Env → Prebuild → (temp_dir : String) → Exec (Unit {0})
add_labels env info temp_dir = do
  add_label_to_index env "com.redhat.index.delivery.version" info.ocp_version temp_dir
      "index.Dockerfile"
  add_label_to_index env "com.redhat.index.delivery.distribution_scope" info.distribution_scope
      temp_dir "index.Dockerfile"

-- The body of the `with` statement on the temporary directory.
unfoldable pub build_added :
    Env
    → (request_id : ℕ) → AddTask
    → Prebuild
    → (resolved_bundles : List String) → (temp_dir : String) → Exec (Unit {0})
unfolding split_present deprecate_if_any
build_added env request_id t info resolved_bundles temp_dir = do
  parts ← split_present env request_id t info resolved_bundles temp_dir
  opm_index_add env temp_dir parts.0 info.binary_image_resolved info.from_index_resolved
      t.overwrite_from_index_token
      (json_eq info.distribution_scope (str "dev") || json_eq info.distribution_scope (str "stage"))
      none
  deprecation_bundles ←
      get_bundles_from_deprecation_list env (parts.1 ++ parts.0) (or_nothing t.deprecation_list)
  deprecate_if_any env request_id t info temp_dir deprecation_bundles
  add_labels env info temp_dir
  build_and_push env temp_dir request_id (sorted info.arches)
  emit (changed_modes temp_dir)

unfoldable pub add_steps : Env → (request_id : ℕ) → AddTask → Exec (Unit {0})
unfolding add_config gate_if_configured check_legacy export_if_needed build_added
add_steps env request_id t = do
  cleanup env
  set_request_state env request_id "in_progress" "Resolving the bundles"
  resolved_bundles ← get_resolved_bundles env t.bundles
  verify_labels env resolved_bundles
  gate_if_configured env resolved_bundles t.greenwave_config
  info ← prepare_request_for_build env request_id (add_rm (add_config t))
  packages ←
      get_legacy_support_packages env resolved_bundles request_id info.ocp_version t.force_backport
  check_legacy env t packages
  update_index_image_build_state env request_id info
  with_temp_dir env (build_added env request_id t info resolved_bundles)
  set_request_state env request_id "in_progress" "Creating the manifest list"
  output_pull_spec ← create_and_push_manifest_list env request_id info.arches
  export_if_needed env request_id t packages output_pull_spec
  update_index_image_pull_spec env output_pull_spec request_id info.arches t.from_index
      t.overwrite_from_index t.overwrite_from_index_token info.from_index_resolved true
  pure tt

unfoldable pub handle_add_request : Env → (request_id : ℕ) → AddTask → Exec Json
unfolding add_steps
handle_add_request env request_id t = do
  add_steps env request_id t
  set_request_state env request_id "complete"
      "The operator bundle(s) were successfully added to the index image"
