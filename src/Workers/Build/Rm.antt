-- ===== src/Workers/Build/Rm.antt =====
-- `handle_rm_request` of iib/workers/tasks/build.py. Its steps stand apart from the last line, which
-- sets the state to complete.
use iib.Common.{ℕ, String, Bool, true, Option, none, some, List}
use iib.Common.Find.{sorted}
use iib.Json.{Json}
use iib.Workers.Exec.{Env, Exec, pure, with_temp_dir, ◌>>=◌, ◌>>◌}
use iib.Workers.Api.{set_request_state}
use iib.Workers.Prepare.{Prebuild, prepare_request_for_build}
use iib.Workers.Prepare.Config.{BinaryImages, AddRm, add_rm}
use iib.Workers.Build.Image.{cleanup, build_and_push, create_and_push_manifest_list}
use iib.Workers.Build.Add.{add_labels}
use iib.Workers.Build.Opm.{opm_index_rm}
use iib.Workers.Build.Update.{update_index_image_build_state, update_index_image_pull_spec}

-- The arguments of the task, but for `request_id`.
pub record RmTask : Type 0 where
  pub operators : List String
  pub from_index : String
  pub binary_image : Option String
  pub add_arches : Option (List String)
  pub overwrite_from_index : Bool
  pub overwrite_from_index_token : Option String
  pub distribution_scope : Option String
  pub binary_image_config : Option BinaryImages

unfoldable pub rm_config : RmTask → AddRm
rm_config t = record {
  _binary_image = t.binary_image;
  distribution_scope = t.distribution_scope;
  binary_image_config = t.binary_image_config;
  overwrite_from_index_token = t.overwrite_from_index_token;
  from_index = some t.from_index;
  add_arches = t.add_arches;
  bundles = none;
  operators = none;
}

abbrev pub or_none_text : Option String → String
or_none_text none = "None"
or_none_text (some s) = s

-- The body of the `with` statement on the temporary directory.
unfoldable pub build_removed :
    Env → (request_id : ℕ) → RmTask → Prebuild → (temp_dir : String) → Exec (Unit {0})
build_removed env request_id t info temp_dir = do
  opm_index_rm env temp_dir t.operators info.binary_image (or_none_text info.from_index_resolved)
      t.overwrite_from_index_token
  add_labels env info temp_dir
  build_and_push env temp_dir request_id (sorted info.arches)

unfoldable pub rm_steps : Env → (request_id : ℕ) → RmTask → Exec (Unit {0})
unfolding rm_config build_removed
rm_steps env request_id t = do
  cleanup env
  info ← prepare_request_for_build env request_id (add_rm (rm_config t))
  update_index_image_build_state env request_id info
  with_temp_dir env (build_removed env request_id t info)
  set_request_state env request_id "in_progress" "Creating the manifest list"
  output_pull_spec ← create_and_push_manifest_list env request_id info.arches
  update_index_image_pull_spec env output_pull_spec request_id info.arches (some t.from_index)
      t.overwrite_from_index t.overwrite_from_index_token info.from_index_resolved true
  pure tt

unfoldable pub handle_rm_request : Env → (request_id : ℕ) → RmTask → Exec Json
unfolding rm_steps
handle_rm_request env request_id t = do
  rm_steps env request_id t
  set_request_state env request_id "complete"
      "The operator(s) were successfully removed from the index image"
