-- ===== src/Workers/Frames/Build.antt =====
-- The functions that build, push and copy images keep what `Allows` allows.
use iib.Common.{ℕ, String, Bool, true, false, Option, List, [], ◌∷◌}
use iib.Json.{Json}
use iib.Web.Mappings.{RequestTypeMapping}
use iib.Workers.Exec.{Env}
use iib.Workers.Exec.Keeps.{Frame, Keeps, Keeps-pure, Keeps-bind, keeping_rules}
use iib.Workers.Retry.Attempts.{Keeps-retry}
use iib.Workers.Frames.{Allows, Keeps-run_cmd, Keeps-set_registry_token, Keeps-set_request_state}
use iib.Workers.Frames.Images.{Keeps-skopeo_inspect, Keeps-podman_pull, Keeps-get_resolved_image}
use iib.Workers.Docker.{reset_docker_config}
use iib.Workers.Build.Image.{
  build_image, cleanup, skopeo_copy, fix_manifest, push_image, build_and_push,
  create_and_push_manifest_list, add_label_to_index, copy_files_from_image,
}
use iib.Workers.Build.Opm.{opm_index_add, opm_index_rm, deprecate_bundles}
use iib.Workers.Build.Overwrite.{verify_index_image, copy_over, copy_index, overwrite_from_index}

module _ {env : Env} {type : RequestTypeMapping} {request_id : ℕ} {F : Frame}
    (a : Allows env type request_id F) where
  pub Keeps-build_image :
      (dir name : String) (arch : String) → Keeps F (build_image env dir name request_id arch)
  unfolding build_image
  Keeps-build_image dir name arch = search (keeping_rules, Keeps-run_cmd a) depth 12

  Keeps-reset : Keeps F (reset_docker_config env)
  Keeps-reset = a.resets

  pub Keeps-cleanup : Keeps F (cleanup env)
  unfolding cleanup
  Keeps-cleanup = search (keeping_rules, Keeps-run_cmd a, Keeps-reset) depth 12

  pub Keeps-skopeo_copy :
      (source destination : String) (copy_all : Bool) (exc_msg : Option String)
      → Keeps F (skopeo_copy env source destination copy_all exc_msg)
  unfolding skopeo_copy
  Keeps-skopeo_copy source destination copy_all exc_msg =
      Keeps-retry _ _ (search (keeping_rules, Keeps-run_cmd a) depth 12)

  Keeps-fix_manifest : (destination : String) (b : Bool) → Keeps F (fix_manifest env destination b)
  Keeps-fix_manifest destination true = Keeps-pure tt
  Keeps-fix_manifest destination false = Keeps-skopeo_copy _ _ _ _

  pub Keeps-push_image : (arch : String) → Keeps F (push_image env request_id arch)
  unfolding push_image
  Keeps-push_image arch =
      Keeps-retry _ _ (
        search (keeping_rules, Keeps-run_cmd a, Keeps-skopeo_inspect a, Keeps-fix_manifest) depth
          20)

  pub Keeps-build_and_push :
      (dir : String) (arches : List String) → Keeps F (build_and_push env dir request_id arches)
  unfolding build_and_push
  Keeps-build_and_push dir [] = Keeps-pure tt
  Keeps-build_and_push dir (arch ∷ arches) =
      Keeps-bind (build_image env dir "index.Dockerfile" request_id arch) _
        (Keeps-build_image _ _ arch)
        (λ built.
          Keeps-bind (push_image env request_id arch) _ (Keeps-push_image arch)
            (λ pushed. Keeps-build_and_push dir arches))

  pub Keeps-create_and_push_manifest_list :
      (arches : List String) → Keeps F (create_and_push_manifest_list env request_id arches)
  unfolding create_and_push_manifest_list
  Keeps-create_and_push_manifest_list arches =
      Keeps-retry _ _
        (search (keeping_rules, a.opens, a.removes, a.writes, a.appends, Keeps-run_cmd a) depth 30)

  pub Keeps-add_label_to_index :
      (key : String) (value : Json) (dir name : String)
      → Keeps F (add_label_to_index env key value dir name)
  unfolding add_label_to_index
  Keeps-add_label_to_index key value dir name = a.appends _ _

  pub Keeps-copy_files_from_image :
      (image src dest : String) → Keeps F (copy_files_from_image env image src dest)
  unfolding copy_files_from_image
  Keeps-copy_files_from_image image src dest =
      search (keeping_rules, Keeps-podman_pull a, Keeps-run_cmd a) depth 30

  pub Keeps-opm_index_add :
      (dir : String) (bundles : List String) (image : String) (from_index token : Option String)
      (overwrite : Bool) (tool : Option String)
      → Keeps F (opm_index_add env dir bundles image from_index token overwrite tool)
  unfolding opm_index_add
  Keeps-opm_index_add dir bundles image from_index token overwrite tool =
      Keeps-retry _ _ (Keeps-set_registry_token a _ _ _ (Keeps-run_cmd a _ _ _))

  pub Keeps-opm_index_rm :
      (dir : String) (operators : List String) (image from_index : String) (token : Option String)
      → Keeps F (opm_index_rm env dir operators image from_index token)
  unfolding opm_index_rm
  Keeps-opm_index_rm dir operators image from_index token =
      Keeps-retry _ _ (Keeps-set_registry_token a _ _ _ (Keeps-run_cmd a _ _ _))

  pub Keeps-deprecate_bundles :
      (bundles : List String) (dir image from_index : String) (token tool : Option String)
      → Keeps F (deprecate_bundles env bundles dir image from_index token tool)
  unfolding deprecate_bundles
  Keeps-deprecate_bundles bundles dir image from_index token tool =
      Keeps-set_registry_token a _ _ _ (Keeps-run_cmd a _ _ _)

  Keeps-verify_index_image :
      (resolved : Option String) (image : String) (token : Option String)
      → Keeps F (verify_index_image env resolved image token)
  unfolding verify_index_image
  Keeps-verify_index_image resolved image token =
      search (keeping_rules, Keeps-set_registry_token a, Keeps-get_resolved_image a) depth 20

  Keeps-copy_over :
      (source image : String) (token : Option String) → Keeps F (copy_over env source image token)
  Keeps-copy_over source image token = Keeps-set_registry_token a _ _ _ (Keeps-skopeo_copy _ _ _ _)

  Keeps-copy_index :
      (b : Bool) (output image : String) (token : Option String)
      → Keeps F (copy_index env b output image token)
  Keeps-copy_index false output image token = Keeps-copy_over _ _ _
  Keeps-copy_index true output image token =
      search (keeping_rules, a.opens, a.removes, Keeps-skopeo_copy, Keeps-copy_over) depth 20

  pub Keeps-overwrite_from_index :
      (output image : String) (resolved token : Option String)
      → Keeps F (overwrite_from_index env request_id output image resolved token)
  unfolding overwrite_from_index
  Keeps-overwrite_from_index output image resolved token =
      search (keeping_rules, Keeps-verify_index_image, Keeps-set_request_state a, Keeps-copy_index)
        depth 20
