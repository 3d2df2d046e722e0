-- ===== src/Workers/Build/Image.antt =====
-- The functions of iib/workers/tasks/build.py that build, push and copy images, and the labels that
-- they write.
use iib.Common.{
  ℕ, String, Bool, true, false, Option, none, some, List, [], ◌∷◌, ◌++◌, if◌then◌else◌,
}
use iib.Common.Text.{◌⧺◌}
use iib.Common.Find.{sorted, strip}
use iib.Json.{Json, int, pos, json_eq}
use iib.Workers.Values.{subscript}
use iib.Workers.Exec.{
  Env, Exec, pure, raise, lift, emit, catch, finally, for_each, with_temp_dir, ◌>>=◌, ◌>>◌, wrote,
  appended,
}
use iib.Workers.Retry.{retry, is_iib_error}
use iib.Workers.Command.{run_cmd, or_text}
use iib.Workers.Docker.{reset_docker_config}
use iib.Workers.Api.{text_of}
use iib.Workers.Images.{skopeo_inspect, plain, podman_pull}
use iib.Workers.Build.PullSpec.{
  get_rebuilt_image_pull_spec, get_external_arch_pull_spec, get_local_pull_spec,
}

-- `os.path.join(a, b)`, for a relative `b`
abbrev pub join_path : String → String → String
join_path a b = a ⧺ "/" ⧺ b

-- `_build_image`
unfoldable pub build_image :
    Env
    → (dockerfile_dir dockerfile_name : String) → (request_id : ℕ) → (arch : String)
    → Exec (Unit {0})
build_image env dockerfile_dir dockerfile_name request_id arch = do
  run_cmd env
      ("buildah"
        ∷ "bud"
        ∷ "--no-cache"
        ∷ "--override-arch"
        ∷ arch
        ∷ "-t"
        ∷ get_local_pull_spec request_id arch false
        ∷ "-f"
        ∷ join_path dockerfile_dir dockerfile_name
        ∷ [])
      (some dockerfile_dir) (some ("Failed to build the container image on the arch " ⧺ arch))
  pure tt

-- `_cleanup`
unfoldable pub cleanup : Env → Exec (Unit {0})
cleanup env = do
  run_cmd env ("podman" ∷ "rmi" ∷ "--all" ∷ "--force" ∷ []) none
      (some "Failed to remove the existing container images")
  reset_docker_config env

abbrev copy_all_flag : Bool → List String
copy_all_flag true = "--all" ∷ []
copy_all_flag false = []

-- `_skopeo_copy`
unfoldable pub skopeo_copy :
    Env
    → (source destination : String) → (copy_all : Bool) → (exc_msg : Option String)
    → Exec (Unit {0})
skopeo_copy env source destination copy_all exc_msg = retry env.config.iib_total_attempts (do
  run_cmd env
      (("skopeo" ∷ "--command-timeout" ∷ env.config.iib_skopeo_timeout ∷ "copy" ∷ "--format"
          ∷ "v2s2" ∷ [])
        ++ copy_all_flag copy_all
        ++ source ∷ destination ∷ [])
      none (some (or_text exc_msg ("Failed to copy " ⧺ source ⧺ " to " ⧺ destination)))
  pure tt)

-- The part of `_push_image` that repairs a manifest of schema version 1.
abbrev pub fix_manifest : Env → (destination : String) → Bool → Exec (Unit {0})
fix_manifest env destination true = pure tt
fix_manifest env destination false =
    skopeo_copy env destination destination false
      (some ("Failed to fix the manifest schema version on " ⧺ destination))

-- `_push_image`
unfoldable pub push_image : Env → (request_id : ℕ) → (arch : String) → Exec (Unit {0})
push_image env request_id arch = retry env.config.iib_total_attempts (do
  destination ← lift (get_external_arch_pull_spec env request_id arch true)
  run_cmd env
      ("podman" ∷ "push" ∷ "-q" ∷ get_local_pull_spec request_id arch false ∷ destination ∷ []) none
      (some ("Failed to push the container image to " ⧺ destination ⧺ " for the arch " ⧺ arch))
  skopeo_raw ← skopeo_inspect env (destination ∷ "--raw" ∷ []) plain
  schema_version ← lift (subscript "schemaVersion" skopeo_raw)
  fix_manifest env destination (json_eq schema_version (int (pos 2))))

-- The loop that builds and pushes the image of each arch.
unfoldable pub build_and_push :
    Env → (temp_dir : String) → (request_id : ℕ) → (arches : List String) → Exec (Unit {0})
build_and_push env temp_dir request_id [] = pure tt
build_and_push env temp_dir request_id (arch ∷ arches) = do
  build_image env temp_dir "index.Dockerfile" request_id arch
  push_image env request_id arch
  build_and_push env temp_dir request_id arches

abbrev manifest_entry : (arch_pull_spec arch : String) → String
manifest_entry arch_pull_spec arch =
    "- image: " ⧺ arch_pull_spec ⧺ "\n  platform:\n    architecture: " ⧺ arch ⧺ "\n    os: linux\n"

abbrev pub add_manifest : Env → (request_id : ℕ) → (manifest_yaml arch : String) → Exec (Unit {0})
add_manifest env request_id manifest_yaml arch = do
  arch_pull_spec ← lift (get_external_arch_pull_spec env request_id arch false)
  emit (appended manifest_yaml (manifest_entry arch_pull_spec arch))

-- `_create_and_push_manifest_list`
unfoldable pub create_and_push_manifest_list :
    Env → (request_id : ℕ) → (arches : List String) → Exec String
create_and_push_manifest_list env request_id arches = retry 3 (do
  output_pull_spec ← lift (get_rebuilt_image_pull_spec env request_id)
  with_temp_dir env (λ temp_dir. do
    emit (
        wrote (join_path temp_dir "manifest.yaml")
          ("image: " ⧺ output_pull_spec ⧺ "\nmanifests:\n"))
    for_each (add_manifest env request_id (join_path temp_dir "manifest.yaml")) (sorted arches)
    run_cmd env ("manifest-tool" ∷ "push" ∷ "from-spec" ∷ join_path temp_dir "manifest.yaml" ∷ [])
        none (some ("Failed to push the manifest list to " ⧺ output_pull_spec)))
  pure output_pull_spec)

-- `_add_label_to_index`
unfoldable pub add_label_to_index :
    Env
    → (label_key : String) → (label_value : Json) → (temp_dir dockerfile_name : String)
    → Exec (Unit {0})
add_label_to_index env label_key label_value temp_dir dockerfile_name = emit (
    appended (join_path temp_dir dockerfile_name)
      ("\nLABEL " ⧺ label_key ⧺ "=\"" ⧺ text_of env label_value ⧺ "\"\n"))

abbrev pub remove_container : Env → (container_id image : String) → Exec (Unit {0})
remove_container env container_id image =
    catch
      (do
        run_cmd env ("podman" ∷ "rm" ∷ container_id ∷ []) none
            (some ("Failed to remove the container " ⧺ container_id ⧺ " for image " ⧺ image))
        pure tt)
      (λ e. if is_iib_error e then pure tt else raise e)

-- `_copy_files_from_image`
unfoldable pub copy_files_from_image : Env → (image src_path dest_path : String) → Exec (Unit {0})
copy_files_from_image env image src_path dest_path = do
  podman_pull env (image ∷ [])
  created ←
      run_cmd env ("podman" ∷ "create" ∷ image ∷ "unused" ∷ []) none
        (some ("Failed to create a container for " ⧺ image))
  finally
      (do
        run_cmd env ("podman" ∷ "cp" ∷ (strip created ⧺ ":" ⧺ src_path) ∷ dest_path ∷ []) none (
            some (
              "Failed to copy the contents of "
              ⧺ strip created
              ⧺ ":"
              ⧺ src_path
              ⧺ " into "
              ⧺ dest_path))
        pure tt)
      (remove_container env (strip created) image)
