-- ===== src/Workers/Merge.antt =====
-- iib/workers/tasks/build_merge_index_image.py: the task that merges two index images. Its steps stand
-- apart from the last line, which sets the state to complete.
pub mod Version
pub mod Missing
use iib.Common.{
  ℕ, ◌+◌, String, Bool, false, Option, none, some, List, [], ◌∷◌, ◌++◌, contains, if◌then◌else◌,
}
use iib.Common.Find.{sorted}
use iib.Exn.{Result, ok, err}
use iib.Json.{Json}
use iib.Workers.Values.{is_set}
use iib.Workers.Exec.{Env, Exec, pure, lift, emit, with_temp_dir, ◌>>=◌, ◌>>◌, changed_modes}
use iib.Workers.Docker.{set_registry_token}
use iib.Workers.Api.{set_request_state}
use iib.Workers.Prepare.{Prebuild, prepare_request_for_build}
use iib.Workers.Prepare.Config.{BinaryImages, Merge, merge}
use iib.Workers.Build.Image.{
  cleanup, build_image, push_image, build_and_push, create_and_push_manifest_list,
}
use iib.Workers.Build.PullSpec.{get_external_arch_pull_spec}
use iib.Workers.Build.Add.{add_labels}
use iib.Workers.Build.Present.{bundle_path, get_present_bundles, get_bundles_from_deprecation_list}
use iib.Workers.Build.Opm.{opm_index_add, deprecate_bundles}
use iib.Workers.Build.Update.{update_index_image_build_state, update_index_image_pull_spec}
use iib.Workers.Merge.Version.{is_bundle_version_valid}
use iib.Workers.Merge.Missing.{missing_in_source}

-- The arguments of the task, but for `request_id`.
pub record MergeTask : Type 0 where
  pub source_from_index : String
  pub deprecation_list : List String
  pub binary_image : Option String
  pub target_index : Option String
  pub overwrite_target_index : Bool
  pub overwrite_target_index_token : Option String
  pub distribution_scope : Option String
  pub binary_image_config : Option BinaryImages

unfoldable pub merge_config : MergeTask → Merge
merge_config t = record {
  _binary_image = t.binary_image;
  distribution_scope = t.distribution_scope;
  binary_image_config = t.binary_image_config;
  source_from_index = some t.source_from_index;
  target_index = t.target_index;
  overwrite_target_index_token = t.overwrite_target_index_token;
}

-- `[b['bundlePath'] for b in bundles if is_bundle_version_valid(b['bundlePath'], ocp_version)]`
unfoldable pub valid_paths : Env → (ocp_version : Json) → List Json → Exec (List String)
valid_paths env ocp_version [] = pure []
valid_paths env ocp_version (bundle ∷ bundles) = do
  path ← lift (bundle_path env bundle)
  valid ← is_bundle_version_valid env path ocp_version
  paths ← valid_paths env ocp_version bundles
  pure (if valid then path ∷ paths else paths)

-- `_add_bundles_missing_in_source`, where the version and the scope of the labels are those of the
-- prepared request
unfoldable pub add_bundles_missing_in_source :
    Env
    → (source_index_bundles target_index_bundles : List Json) → (base_dir : String)
    → (info : Prebuild) → (request_id : ℕ) → (arch : String) → (token : Option String)
    → Exec (List Json)
unfolding valid_paths
add_bundles_missing_in_source env source_index_bundles target_index_bundles base_dir info request_id
      arch token =
    do
      set_request_state env request_id "in_progress" "Adding bundles missing in source index image"
      missing_bundles ← lift (missing_in_source env source_index_bundles target_index_bundles)
      missing_bundle_paths ←
          valid_paths env info.target_ocp_version (missing_bundles ++ source_index_bundles)
      opm_index_add env base_dir missing_bundle_paths info.binary_image none token false
          (some "podman")
      add_labels env (record info { ocp_version = info.target_ocp_version }) base_dir
      build_image env base_dir "index.Dockerfile" request_id arch
      push_image env request_id arch
      create_and_push_manifest_list env request_id (arch ∷ [])
      pure missing_bundles

abbrev pub or_none_text : Option String → String
or_none_text none = "None"
or_none_text (some s) = s

-- The bundles of both images, and the pull specifications of those of the source.
unfoldable pub present_in_both :
    Env → MergeTask → Prebuild → (temp_dir : String) → Exec (List Json × List String × List Json)
present_in_both env t info temp_dir = do
  source ← get_present_bundles env (or_none_text info.source_from_index_resolved) temp_dir
  if is_set t.target_index
      then (do
        target ← get_present_bundles env (or_none_text info.target_index_resolved) temp_dir
        pure (source.0, source.1, target.0))
      else pure (source.0, source.1, [])

abbrev pub first_text : List String → String
first_text [] = ""
first_text (s ∷ ss) = s

-- `'amd64' if 'amd64' in arches else arches[0]`
unfoldable pub choose_arch : List String → String
choose_arch arches = if contains "amd64" arches then "amd64" else first_text arches

unfoldable pub paths_of : Env → List Json → Result (List String)
paths_of env [] = ok []
paths_of env (bundle ∷ bundles) = elim (bundle_path env bundle) [
  | err e ↦ err e
  | ok path ↦ elim (paths_of env bundles) [ err e ↦ err e | ok paths ↦ ok (path ∷ paths) ]
]

abbrev pub deprecate_if_any :
    Env
    → MergeTask
    → Prebuild
    → (temp_dir intermediate_image_name : String) → (deprecation_bundles : List String)
    → Exec (Unit {0})
deprecate_if_any env t info temp_dir intermediate_image_name [] = pure tt
deprecate_if_any env t info temp_dir intermediate_image_name (bundle ∷ bundles) = do
  deprecate_bundles env (bundle ∷ bundles) temp_dir info.binary_image intermediate_image_name
      t.overwrite_target_index_token none
  pure tt

-- The body of the `with` statement on the temporary directory.
unfoldable pub build_merged :
    Env → (request_id : ℕ) → MergeTask → Prebuild → (temp_dir : String) → Exec (Unit {0})
unfolding present_in_both paths_of choose_arch
build_merged env request_id t info temp_dir = do
  set_request_state env request_id "in_progress" "Getting bundles present in the index images"
  present ←
      set_registry_token env t.overwrite_target_index_token (some t.source_from_index)
        (present_in_both env t info temp_dir)
  missing_bundles ←
      add_bundles_missing_in_source env present.0 present.2 temp_dir info request_id
        (choose_arch (env.listed info.arches)) t.overwrite_target_index_token
  set_request_state env request_id "in_progress" "Deprecating bundles in the deprecation list"
  missing_paths ← lift (paths_of env missing_bundles)
  deprecation_bundles ←
      get_bundles_from_deprecation_list env (missing_paths ++ present.1) t.deprecation_list
  intermediate_image_name ←
      lift (get_external_arch_pull_spec env request_id (choose_arch (env.listed info.arches)) false)
  deprecate_if_any env t info temp_dir intermediate_image_name deprecation_bundles
  build_and_push env temp_dir request_id (sorted info.arches)
  emit (changed_modes temp_dir)

unfoldable pub merge_steps : Env → (request_id : ℕ) → MergeTask → Exec (Unit {0})
unfolding merge_config build_merged
merge_steps env request_id t = do
  cleanup env
  info ← prepare_request_for_build env request_id (merge (merge_config t))
  update_index_image_build_state env request_id info
  with_temp_dir env (build_merged env request_id t info)
  output_pull_spec ← create_and_push_manifest_list env request_id info.arches
  update_index_image_pull_spec env output_pull_spec request_id info.arches t.target_index
      t.overwrite_target_index t.overwrite_target_index_token info.target_index_resolved false
  pure tt

unfoldable pub handle_merge_request : Env → (request_id : ℕ) → MergeTask → Exec Json
unfolding merge_steps
handle_merge_request env request_id t = do
  merge_steps env request_id t
  set_request_state env request_id "complete"
      "The index image was successfully cleaned and updated."
