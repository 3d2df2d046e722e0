-- ===== src/Workers/Frames/Tasks.antt =====
-- The steps of the three tasks on index images keep what `Allows` allows.
use iib.Common.{ℕ, String, true, false, some, List, [], ◌∷◌, refl, dec_str}
use iib.Web.Mappings.{add, rm, merge_index_image}
use iib.Workers.Exec.{Env}
use iib.Workers.Exec.Keeps.{Frame, Keeps, Keeps-pure, Keeps-bind, keeping_rules}
use iib.Workers.Exec.Returns.{Keeps-then}
use iib.Workers.Frames.{Allows, Keeps-set_request_state}
use iib.Workers.Frames.Images.{Keeps-get_resolved_bundles, Keeps-verify_labels}
use iib.Workers.Frames.Steps.{
  Keeps-update_index_image_build_state, Keeps-build_removed, Keeps-gate_if_configured,
  Keeps-check_legacy, Keeps-build_added, Keeps-build_merged,
}
use iib.Workers.Frames.Prepare.{Keeps-prepare_request_for_build}
use iib.Workers.Frames.Build.{Keeps-cleanup, Keeps-create_and_push_manifest_list}
use iib.Workers.Frames.Reports.{build_state-add, build_state-rm, build_state-merge}
use iib.Workers.Frames.Gating.{Keeps-get_legacy_support_packages, Keeps-export_legacy_packages}
use iib.Workers.Frames.Update.{
  Keeps-update_index_image_pull_spec, resolve_if-Returns, pull_spec-add, pull_spec-rm,
  unresolved-Returns,
}
use iib.Workers.Images.{get_resolved_bundles, verify_labels}
use iib.Workers.Api.{set_request_state}
use iib.Workers.Prepare.{Prebuild, prepare_request_for_build}
use iib.Workers.Prepare.Config.{add_rm, merge}
use iib.Workers.Prepare.Absent.{prepare_request_for_build-HasAbsent}
use iib.Workers.Build.Image.{cleanup}
use iib.Workers.Build.Update.{update_index_image_build_state, update_index_image_pull_spec}
use iib.Workers.Build.Add.{
  AddTask, add_config, gate_if_configured, check_legacy, export_if_needed, add_steps,
}
use iib.Workers.Build.Rm.{RmTask, rm_config, rm_steps}
use iib.Workers.Merge.{MergeTask, merge_config, merge_steps}
use iib.Workers.Legacy.{get_legacy_support_packages}

module _ {env : Env} {request_id : ℕ} {F : Frame} (a : Allows env add request_id F) where
  Keeps-export_if_needed :
      (t : AddTask) (packages : List String) (output : String)
      → Keeps F (export_if_needed env request_id t packages output)
  unfolding export_if_needed
  Keeps-export_if_needed t [] output = Keeps-pure tt
  Keeps-export_if_needed t (name ∷ packages) output = Keeps-export_legacy_packages a _ output _

  Keeps-final_add :
      (t : AddTask) (info : Prebuild) (output : String)
      → Keeps F (
          update_index_image_pull_spec env output request_id info.arches t.from_index
            t.overwrite_from_index t.overwrite_from_index_token info.from_index_resolved true)
  Keeps-final_add t info output = Keeps-update_index_image_pull_spec a _ _ _ _ _ _ true (λ image.
      resolve_if-Returns env add info.arches t.overwrite_from_index_token image
        (pull_spec-add env info.arches image))

  pub Keeps-add_steps : (t : AddTask) → Keeps F (add_steps env request_id t)
  unfolding add_steps add_config dec_str
  Keeps-add_steps t = Keeps-bind (cleanup env) _ (Keeps-cleanup a) (λ cleaned.
      Keeps-bind (set_request_state env request_id "in_progress" "Resolving the bundles") _
        (Keeps-set_request_state a _)
        (λ reply.
          Keeps-bind (get_resolved_bundles env t.bundles) _ (Keeps-get_resolved_bundles a _)
            (λ bundles.
              Keeps-bind (verify_labels env bundles) _ (Keeps-verify_labels a bundles) (λ verified.
                Keeps-bind (gate_if_configured env bundles t.greenwave_config) _
                  (Keeps-gate_if_configured a bundles _)
                  (λ gated.
                    Keeps-then (prepare_request_for_build env request_id (add_rm (add_config t))) _
                      (Keeps-prepare_request_for_build a _)
                      (prepare_request_for_build-HasAbsent env request_id _)
                      (λ info absent.
                        Keeps-bind
                          (get_legacy_support_packages env bundles request_id info.ocp_version
                            t.force_backport)
                          _ (Keeps-get_legacy_support_packages a _ _ _)
                          (λ packages.
                            Keeps-bind (check_legacy env t packages) _
                              (Keeps-check_legacy a t packages)
                              (λ checked.
                                Keeps-bind (update_index_image_build_state env request_id info) _
                                  (Keeps-update_index_image_build_state a info (
                                    build_state-add info (absent.no_source refl)
                                      (absent.no_target refl)))
                                  (λ updated.
                                    search
                                      (
                                        keeping_rules,
                                        a.opens,
                                        a.removes,
                                        Keeps-build_added a,
                                        Keeps-set_request_state a,
                                        Keeps-create_and_push_manifest_list a,
                                        Keeps-export_if_needed,
                                        Keeps-final_add,
                                      )
                                      depth 40)))))))))

module _ {env : Env} {request_id : ℕ} {F : Frame} (a : Allows env rm request_id F) where
  Keeps-final_rm :
      (t : RmTask) (info : Prebuild) (output : String)
      → Keeps F (
          update_index_image_pull_spec env output request_id info.arches
            (some t.from_index)
            t.overwrite_from_index
            t.overwrite_from_index_token
            info.from_index_resolved
            true)
  Keeps-final_rm t info output = Keeps-update_index_image_pull_spec a _ _ _ _ _ _ true (λ image.
      resolve_if-Returns env rm info.arches t.overwrite_from_index_token image
        (pull_spec-rm env info.arches image))

  pub Keeps-rm_steps : (t : RmTask) → Keeps F (rm_steps env request_id t)
  unfolding rm_steps rm_config dec_str
  Keeps-rm_steps t = Keeps-bind (cleanup env) _ (Keeps-cleanup a) (λ cleaned.
      Keeps-then (prepare_request_for_build env request_id (add_rm (rm_config t))) _
        (Keeps-prepare_request_for_build a _) (prepare_request_for_build-HasAbsent env request_id _)
        (λ info absent.
          Keeps-bind (update_index_image_build_state env request_id info) _
            (Keeps-update_index_image_build_state a info (
              build_state-rm info (absent.no_source refl) (absent.no_target refl)
                (absent.no_bundles refl)))
            (λ updated.
              search
                (
                  keeping_rules,
                  a.opens,
                  a.removes,
                  Keeps-build_removed a,
                  Keeps-set_request_state a,
                  Keeps-create_and_push_manifest_list a,
                  Keeps-final_rm,
                )
                depth 40)))

module _ {env : Env} {request_id : ℕ} {F : Frame}
    (a : Allows env merge_index_image request_id F) where
  Keeps-final_merge :
      (t : MergeTask) (info : Prebuild) (output : String)
      → Keeps F (
          update_index_image_pull_spec env output request_id info.arches t.target_index
            t.overwrite_target_index t.overwrite_target_index_token info.target_index_resolved
            false)
  Keeps-final_merge t info output =
      Keeps-update_index_image_pull_spec a _ _ _ _ _ _ false
        (λ image. unresolved-Returns env info.arches t.overwrite_target_index_token image)

  pub Keeps-merge_steps : (t : MergeTask) → Keeps F (merge_steps env request_id t)
  unfolding merge_steps merge_config dec_str
  Keeps-merge_steps t = Keeps-bind (cleanup env) _ (Keeps-cleanup a) (λ cleaned.
      Keeps-then (prepare_request_for_build env request_id (merge (merge_config t))) _
        (Keeps-prepare_request_for_build a _) (prepare_request_for_build-HasAbsent env request_id _)
        (λ info absent.
          Keeps-bind (update_index_image_build_state env request_id info) _
            (Keeps-update_index_image_build_state a info
              (build_state-merge info (absent.no_from_index refl) (absent.no_bundles refl)))
            (λ updated.
              search
                (
                  keeping_rules,
                  a.opens,
                  a.removes,
                  Keeps-build_merged a,
                  Keeps-create_and_push_manifest_list a,
                  Keeps-final_merge,
                )
                depth 40)))
