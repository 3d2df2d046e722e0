-- ===== src/Workers/Frames/Steps.antt =====
-- The larger steps of the tasks on index images keep what `Allows` allows.
use iib.Common.{ℕ, String, Option, some, List, [], ◌∷◌}
use iib.Common.Dict.{Dict}
use iib.Json.{Json}
use iib.Web.Mappings.{RequestTypeMapping}
use iib.Workers.Exec.{Env, lift}
use iib.Workers.Exec.Keeps.{Frame, Keeps, Keeps-lift, Keeps-pure, Keeps-bind, keeping_rules}
use iib.Workers.Frames.{
  Allows, IsReport, Keeps-set_registry_token, Keeps-set_request_state, Keeps-update_request,
}
use iib.Workers.Frames.Images.{Keeps-get_image_label}
use iib.Workers.Frames.Build.{
  Keeps-build_image, Keeps-push_image, Keeps-build_and_push, Keeps-create_and_push_manifest_list,
  Keeps-add_label_to_index, Keeps-opm_index_add, Keeps-opm_index_rm, Keeps-deprecate_bundles,
}
use iib.Workers.Frames.Present.{Keeps-get_present_bundles, Keeps-get_bundles_from_deprecation_list}
use iib.Workers.Frames.Gating.{Keeps-gate_bundles}
use iib.Workers.Prepare.{Prebuild}
use iib.Workers.Build.Present.{bundle_path}
use iib.Workers.Build.Update.{build_state_payload, update_index_image_build_state}
use iib.Workers.Build.Add.{
  AddTask, gate_if_configured, check_legacy, split_present, deprecate_if_any, build_added,
}
use iib.Workers.Build.Rm.{RmTask, build_removed}
use iib.Workers.Merge.{
  MergeTask, merge_config, valid_paths, add_bundles_missing_in_source, present_in_both,
  build_merged, merge_steps,
}
use iib.Workers.Merge.Version.{is_bundle_version_valid}
use iib.Workers.Merge

module _ {env : Env} {type : RequestTypeMapping} {request_id : ℕ} {F : Frame}
    (a : Allows env type request_id F) where
  pub Keeps-update_index_image_build_state :
      (info : Prebuild)
      → IsReport type (build_state_payload info)
      → Keeps F (update_index_image_build_state env request_id info)
  unfolding update_index_image_build_state
  Keeps-update_index_image_build_state info fits =
      Keeps-update_request a _ (some "Failed setting the resolved images on the request") fits

  pub Keeps-build_removed :
      (t : RmTask) (info : Prebuild) (dir : String)
      → Keeps F (build_removed env request_id t info dir)
  unfolding build_removed
  Keeps-build_removed t info dir =
      search
        (keeping_rules, Keeps-opm_index_rm a, Keeps-add_label_to_index a, Keeps-build_and_push a)
        depth 20

  pub Keeps-gate_if_configured :
      (bundles : List String) (config : Dict Json) → Keeps F (gate_if_configured env bundles config)
  unfolding gate_if_configured
  Keeps-gate_if_configured bundles [] = Keeps-pure tt
  Keeps-gate_if_configured bundles (entry ∷ config) = Keeps-gate_bundles a bundles _

  pub Keeps-check_legacy :
      (t : AddTask) (packages : List String) → Keeps F (check_legacy env t packages)
  unfolding check_legacy
  Keeps-check_legacy t [] = Keeps-pure tt
  Keeps-check_legacy t (name ∷ packages) = Keeps-lift _

  Keeps-split_present :
      (t : AddTask) (info : Prebuild) (bundles : List String) (dir : String)
      → Keeps F (split_present env request_id t info bundles dir)
  unfolding split_present
  Keeps-split_present t info bundles dir =
      search
        (
          keeping_rules,
          Keeps-set_request_state a,
          Keeps-set_registry_token a,
          Keeps-get_present_bundles a,
        )
        depth 30

  Keeps-deprecate_if_any :
      (t : AddTask) (info : Prebuild) (dir : String) (bundles : List String)
      → Keeps F (deprecate_if_any env request_id t info dir bundles)
  unfolding deprecate_if_any
  Keeps-deprecate_if_any t info dir [] = Keeps-pure tt
  Keeps-deprecate_if_any t info dir (bundle ∷ bundles) =
      search (keeping_rules, Keeps-build_image a, Keeps-deprecate_bundles a) depth 20

  pub Keeps-build_added :
      (t : AddTask) (info : Prebuild) (bundles : List String) (dir : String)
      → Keeps F (build_added env request_id t info bundles dir)
  unfolding build_added
  Keeps-build_added t info bundles dir =
      search
        (
          keeping_rules,
          Keeps-split_present,
          Keeps-opm_index_add a,
          Keeps-get_bundles_from_deprecation_list a,
          Keeps-deprecate_if_any,
          Keeps-add_label_to_index a,
          Keeps-build_and_push a,
          a.changes,
        )
        depth 40

  Keeps-is_bundle_version_valid :
      (path : String) (version : Json) → Keeps F (is_bundle_version_valid env path version)
  unfolding is_bundle_version_valid
  Keeps-is_bundle_version_valid path version =
      search (keeping_rules, Keeps-get_image_label a) depth 20

  Keeps-valid_paths :
      (version : Json) (bundles : List Json) → Keeps F (valid_paths env version bundles)
  unfolding valid_paths
  Keeps-valid_paths version [] = Keeps-pure []
  Keeps-valid_paths version (bundle ∷ bundles) =
      Keeps-bind (lift (bundle_path env bundle)) _ (Keeps-lift _) (λ path.
        Keeps-bind (is_bundle_version_valid env path version) _
          (Keeps-is_bundle_version_valid path version)
          (λ valid.
            Keeps-bind (valid_paths env version bundles) _ (Keeps-valid_paths version bundles)
              (λ paths. Keeps-pure _)))

  Keeps-add_bundles_missing_in_source :
      (source target : List Json) (dir : String) (info : Prebuild) (arch : String)
      (token : Option String)
      → Keeps F (add_bundles_missing_in_source env source target dir info request_id arch token)
  unfolding add_bundles_missing_in_source
  Keeps-add_bundles_missing_in_source source target dir info arch token =
      search
        (
          keeping_rules,
          Keeps-set_request_state a,
          Keeps-valid_paths,
          Keeps-opm_index_add a,
          Keeps-add_label_to_index a,
          Keeps-build_image a,
          Keeps-push_image a,
          Keeps-create_and_push_manifest_list a,
        )
        depth 40

  Keeps-present_in_both :
      (t : MergeTask) (info : Prebuild) (dir : String) → Keeps F (present_in_both env t info dir)
  unfolding present_in_both
  Keeps-present_in_both t info dir = search (keeping_rules, Keeps-get_present_bundles a) depth 20

  Keeps-deprecate_merged :
      (t : MergeTask) (info : Prebuild) (dir image : String) (bundles : List String)
      → Keeps F (Merge.deprecate_if_any env t info dir image bundles)
  Keeps-deprecate_merged t info dir image [] = Keeps-pure tt
  Keeps-deprecate_merged t info dir image (bundle ∷ bundles) =
      search (keeping_rules, Keeps-deprecate_bundles a) depth 20

  pub Keeps-build_merged :
      (t : MergeTask) (info : Prebuild) (dir : String)
      → Keeps F (build_merged env request_id t info dir)
  unfolding build_merged
  Keeps-build_merged t info dir =
      search
        (
          keeping_rules,
          Keeps-set_request_state a,
          Keeps-set_registry_token a,
          Keeps-present_in_both,
          Keeps-add_bundles_missing_in_source,
          Keeps-get_bundles_from_deprecation_list a,
          Keeps-deprecate_merged,
          Keeps-build_and_push a,
          a.changes,
        )
        depth 40
