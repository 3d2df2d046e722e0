-- ===== src/Workers/Regenerate.antt =====
-- iib/workers/tasks/build_regenerate_bundle.py: the task that regenerates a bundle image for an
-- organization. Its steps stand apart from the last line, which reports what they return.
pub mod Contents
pub mod Selected
pub mod Annotations
pub mod Pinning
pub mod Adjust
use iib.Common.{ℕ, String, false, Option, none, some, List, [], ◌∷◌}
use iib.Common.Dict.{Dict}
use iib.Common.Text.{◌⧺◌}
use iib.Common.Find.{join, sorted}
use iib.Exn.{iib_error}
use iib.Json.{Json, str}
use iib.Workers.Exec.{Env, Exec, pure, raise, lift, emit, wrote, with_temp_dir, ◌>>=◌, ◌>>◌}
use iib.Workers.Docker.{set_registry_auths}
use iib.Workers.Api.{update_request, set_request_state, decoded}
use iib.Workers.Images.{podman_pull, get_resolved_image, get_image_arches, get_image_label}
use iib.Workers.Build.Image.{
  join_path, build_image, cleanup, push_image, create_and_push_manifest_list, copy_files_from_image,
}
use iib.Workers.Build.Update.{texts, output_image}
use iib.Workers.Prepare.{json_or}
use iib.Workers.Regenerate.Adjust.{adjust_operator_bundle}

-- The arguments of the task, but for `request_id`.
pub record RegenerateTask : Type 0 where
  pub from_bundle_image : String
  pub organization : Option String
  pub registry_auths : Option (Dict Json)

-- What the last line reports.
pub record Regenerated : Type 0 where
  pub arches : List String
  pub output_pull_spec : String

abbrev label_lines : Dict String → String
label_lines [] = ""
label_lines ((name, value) ∷ labels) = "LABEL " ⧺ name ⧺ "=" ⧺ value ⧺ "\n" ⧺ label_lines labels

-- What is written to the Dockerfile.
unfoldable pub dockerfile_text : (from_bundle_image_resolved : String) → Dict String → String
dockerfile_text from_bundle_image_resolved new_labels =
    "FROM "
    ⧺ from_bundle_image_resolved
    ⧺ "\nCOPY ./manifests /manifests\nCOPY ./metadata /metadata\n"
    ⧺ label_lines new_labels

-- `for arch in sorted(arches)`
unfoldable pub build_arches :
    Env → (temp_dir : String) → (request_id : ℕ) → (arches : List String) → Exec (Unit {0})
build_arches env temp_dir request_id [] = pure tt
build_arches env temp_dir request_id (arch ∷ arches) = do
  build_image env temp_dir "Dockerfile" request_id arch
  push_image env request_id arch
  build_arches env temp_dir request_id arches

-- The body of the `with` statement on the temporary directory.
unfoldable pub build_regenerated :
    Env
    → (request_id : ℕ) → (organization : Option String) → (image : String) → (arches : List String)
    → (pinned_by_iib : Json) → (temp_dir : String) → Exec (Unit {0})
unfolding dockerfile_text build_arches
build_regenerated env request_id organization image arches pinned_by_iib temp_dir = do
  copy_files_from_image env image "/manifests" (join_path temp_dir "manifests")
  copy_files_from_image env image "/metadata" (join_path temp_dir "metadata")
  new_labels ←
      adjust_operator_bundle env (join_path temp_dir "manifests") (join_path temp_dir "metadata")
        organization pinned_by_iib
  emit (wrote (join_path temp_dir "Dockerfile") (dockerfile_text image new_labels))
  build_arches env temp_dir request_id (sorted arches)

unfoldable pub resolved_payload : (image : String) → (arches : List String) → Dict Json
resolved_payload image arches =
    ("from_bundle_image_resolved", str image)
    ∷ ("state", str "in_progress")
    ∷ (
      "state_reason",
      str ("Regenerating the bundle image for the following arches: " ⧺ join ", " (sorted arches)),
    )
    ∷ []

-- The rest of the `with` statement on the registries, once the image has some arches.
unfoldable pub regenerate_for :
    Env
    → (request_id : ℕ) → RegenerateTask
    → (image : String) → (arches : List String) → Exec (List String)
unfolding build_regenerated resolved_payload
regenerate_for env request_id t image [] =
    raise (iib_error ("No arches were found in the resolved from_bundle_image " ⧺ image))
regenerate_for env request_id t image (arch ∷ arches) = do
  pinned ← get_image_label env image "com.redhat.iib.pinned"
  pinned_by_iib ← lift (decoded (env.yaml_load (json_or pinned "false")))
  update_request env request_id (resolved_payload image (arch ∷ arches))
      (some "Failed setting the resolved \"from_bundle_image\" on the request")
  podman_pull env (image ∷ [])
  with_temp_dir env
      (build_regenerated env request_id t.organization image (arch ∷ arches) pinned_by_iib)
  pure (arch ∷ arches)

abbrev pub auths_or_nothing : Option (Dict Json) → Dict Json
auths_or_nothing none = []
auths_or_nothing (some auths) = auths

unfoldable pub regenerate_steps : Env → (request_id : ℕ) → RegenerateTask → Exec Regenerated
unfolding regenerate_for
regenerate_steps env request_id t = do
  cleanup env
  set_request_state env request_id "in_progress" "Resolving from_bundle_image"
  arches ← set_registry_auths env (auths_or_nothing t.registry_auths) (do
    image ← get_resolved_image env t.from_bundle_image
    arches ← get_image_arches env image
    regenerate_for env request_id t image arches)
  set_request_state env request_id "in_progress" "Creating the manifest list"
  output_pull_spec ← create_and_push_manifest_list env request_id arches
  pure (record { arches = env.listed arches; output_pull_spec = output_image env output_pull_spec })

unfoldable pub regenerated_payload : Regenerated → Dict Json
regenerated_payload r =
    ("arches", texts r.arches)
    ∷ ("bundle_image", str r.output_pull_spec)
    ∷ ("state", str "complete")
    ∷ ("state_reason", str "The request completed successfully")
    ∷ []

unfoldable pub handle_regenerate_bundle_request :
    Env → (request_id : ℕ) → RegenerateTask → Exec Json
unfolding regenerate_steps regenerated_payload
handle_regenerate_bundle_request env request_id t = do
  done ← regenerate_steps env request_id t
  update_request env request_id (regenerated_payload done)
      (some "Failed setting the bundle image on the request")
