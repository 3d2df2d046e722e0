-- ===== src/Workers/Build/Overwrite.antt =====
-- How an index image is overwritten: `_verify_index_image` and `_overwrite_from_index` of
-- iib/workers/tasks/build.py.
pub mod Changed
use iib.Common.{ℕ, String, Bool, true, false, not, ◌&&◌, Option, none, some, ◌==◌}
use iib.Common.Text.{◌⧺◌}
use iib.Exn.{Exn, iib_error}
use iib.Workers.Values.{is_set}
use iib.Workers.Exec.{Env, Exec, raise_if, with_temp_dir, ◌>>=◌, ◌>>◌}
use iib.Workers.Docker.{set_registry_token}
use iib.Workers.Api.{set_request_state}
use iib.Workers.Images.{get_resolved_image}
use iib.Workers.Build.Image.{skopeo_copy}

unfoldable pub image_changed : Exn
image_changed =
    iib_error
      "The supplied from_index image changed during the IIB request. Please resubmit the request."

abbrev pub same_text? : String → Option String → Bool
same_text? s none = false
same_text? s (some t) = s == t

-- `_verify_index_image`
unfoldable pub verify_index_image :
    Env
    → (resolved_prebuild_from_index : Option String) → (unresolved_from_index : String)
    → (overwrite_from_index_token : Option String) → Exec (Unit {0})
unfolding image_changed
verify_index_image env resolved_prebuild unresolved_from_index token = do
  resolved ←
      set_registry_token env token (some unresolved_from_index)
        (get_resolved_image env unresolved_from_index)
  raise_if (not (same_text? resolved resolved_prebuild)) image_changed

abbrev pub copy_over :
    Env → (new_index_src from_index : String) → (token : Option String) → Exec (Unit {0})
copy_over env new_index_src from_index token = set_registry_token env token (some from_index) (
    skopeo_copy env new_index_src ("docker://" ⧺ from_index) true
      (some ("Failed to overwrite the input from_index container image of " ⧺ from_index)))

-- Where the two registries are the same and a token is given, the image goes by a local copy.
abbrev pub copy_index :
    Env
    → (by_local_copy : Bool) → (output_pull_spec from_index : String) → (token : Option String)
    → Exec (Unit {0})
copy_index env false output_pull_spec from_index token =
    copy_over env ("docker://" ⧺ output_pull_spec) from_index token
copy_index env true output_pull_spec from_index token = with_temp_dir env (λ temp_dir. do
  skopeo_copy env ("docker://" ⧺ output_pull_spec) ("oci:" ⧺ temp_dir) true
      (some ("Failed to export " ⧺ output_pull_spec ⧺ " to the OCI format"))
  copy_over env ("oci:" ⧺ temp_dir) from_index token)

-- `_overwrite_from_index`
unfoldable pub overwrite_from_index :
    Env
    → (request_id : ℕ) → (output_pull_spec from_index : String)
    → (resolved_prebuild_from_index overwrite_from_index_token : Option String) → Exec (Unit {0})
overwrite_from_index env request_id output_pull_spec from_index resolved_prebuild token = do
  verify_index_image env resolved_prebuild from_index token
  set_request_state env request_id "in_progress"
      ("Overwriting the index image " ⧺ from_index ⧺ " with " ⧺ output_pull_spec)
  copy_index env (is_set token && env.registry_of output_pull_spec == env.registry_of from_index)
      output_pull_spec from_index token
