-- ===== src/Workers/Frames/Regenerate.antt =====
-- The task that regenerates a bundle image keeps what `Allows` allows, up to its last line.
use iib.Common.{ℕ, String, Bool, true, false, Option, List, [], ◌∷◌, refl, dec_str}
use iib.Common.Dict.{Dict, get, keys}
use iib.Json.{Json, json_eq}
use iib.Web.Mappings.{RequestTypeMapping, regenerate_bundle}
use iib.Web.Columns.{get_mutable_keys}
use iib.Web.Api.Patch.{check_keys}
use iib.Workers.Exec.{Env, OperatorCsv}
use iib.Workers.Exec.Keeps.{Frame, Keeps, Keeps-pure, Keeps-raise, Keeps-bind, keeping_rules}
use iib.Workers.Frames.{
  Allows, IsReport, is_progress, Keeps-update_request, Keeps-set_request_state,
}
use iib.Workers.Frames.Images.{
  Keeps-get_resolved_image, Keeps-get_image_arches, Keeps-get_image_label, Keeps-podman_pull,
}
use iib.Workers.Frames.Build.{
  Keeps-build_image, Keeps-push_image, Keeps-cleanup, Keeps-copy_files_from_image,
  Keeps-create_and_push_manifest_list,
}
use iib.Workers.Api.{update_request}
use iib.Workers.Build.Image.{build_image, push_image, cleanup}
use iib.Workers.Regenerate.{
  RegenerateTask, build_arches, build_regenerated, regenerate_for, regenerate_steps,
  resolved_payload,
}
use iib.Workers.Regenerate.Contents.{BundleMetadata}
use iib.Workers.Regenerate.Annotations.{get_package_annotations, apply_package_name_suffix}
use iib.Workers.Regenerate.Pinning.{
  Bundle, Pinning, pin, dump, resolve_pullspec, resolve_pullspecs, replace_in,
  resolve_image_pull_specs,
}
use iib.Workers.Regenerate.Adjust.{
  adjust_csv_annotations, apply_suffix, replace_registries, annotate_csvs, customize, customize_all,
  adjust_operator_bundle,
}

module _ {env : Env} {type : RequestTypeMapping} {request_id : ℕ} {F : Frame}
    (a : Allows env type request_id F) where
  Keeps-get_package_annotations :
      (metadata_path : String) → Keeps F (get_package_annotations env metadata_path)
  unfolding get_package_annotations
  Keeps-get_package_annotations metadata_path = search keeping_rules depth 30

  Keeps-apply_package_name_suffix :
      (metadata_path suffix : String) → Keeps F (apply_package_name_suffix env metadata_path suffix)
  unfolding apply_package_name_suffix
  Keeps-apply_package_name_suffix metadata_path suffix =
      search (keeping_rules, a.writes, Keeps-get_package_annotations) depth 30

  Keeps-pin : (pinned : Bool) (pullspec : String) → Keeps F (pin env pinned pullspec)
  Keeps-pin true pullspec = Keeps-pure _
  Keeps-pin false pullspec = search (keeping_rules, Keeps-get_resolved_image a) depth 20

  Keeps-resolve_pullspecs :
      (pinned : Bool) (replacements : Json) (s : Pinning) (pullspecs : List String)
      → Keeps F (resolve_pullspecs env pinned replacements s pullspecs)
  unfolding resolve_pullspecs resolve_pullspec
  Keeps-resolve_pullspecs pinned replacements s [] = Keeps-pure s
  Keeps-resolve_pullspecs pinned replacements s (pullspec ∷ pullspecs) =
      Keeps-bind (resolve_pullspec env pinned replacements s pullspec) _
        (search (keeping_rules, Keeps-pin) depth 20)
        (λ next. Keeps-resolve_pullspecs pinned replacements next pullspecs)

  Keeps-dump : (csv : OperatorCsv) → Keeps F (dump env csv)
  Keeps-dump csv = search (keeping_rules, a.writes) depth 20

  Keeps-replace_in :
      (paths : List String) (replacements : Dict String) (csv : OperatorCsv)
      → Keeps F (replace_in env paths replacements csv)
  unfolding replace_in
  Keeps-replace_in paths replacements csv = search (keeping_rules, Keeps-dump) depth 20

  Keeps-resolve_image_pull_specs :
      (m : BundleMetadata) (pinned : Bool) (replacements : Json) (b : Bundle)
      → Keeps F (resolve_image_pull_specs env m pinned replacements b)
  unfolding resolve_image_pull_specs
  Keeps-resolve_image_pull_specs m pinned replacements b =
      search (keeping_rules, Keeps-resolve_pullspecs, Keeps-replace_in) depth 20

  Keeps-adjust_csv_annotations :
      (annotations : Json) (package_name : String) (files : List OperatorCsv)
      → Keeps F (adjust_csv_annotations env annotations package_name files)
  unfolding adjust_csv_annotations
  Keeps-adjust_csv_annotations annotations package_name files =
      search (keeping_rules, Keeps-dump) depth 20

  Keeps-apply_suffix :
      (metadata_path : String) (suffix : Json) (b : Bundle)
      → Keeps F (apply_suffix env metadata_path suffix b)
  Keeps-apply_suffix metadata_path suffix b =
      search (keeping_rules, Keeps-apply_package_name_suffix) depth 20

  Keeps-replace_registries :
      (pinned : Bool) (replacements : Json) (b : Bundle)
      → Keeps F (replace_registries env pinned replacements b)
  Keeps-replace_registries pinned replacements b =
      search (keeping_rules, Keeps-resolve_image_pull_specs) depth 20

  Keeps-annotate_csvs :
      (annotations : Json) (b : Bundle) → Keeps F (annotate_csvs env annotations b)
  Keeps-annotate_csvs annotations b = search (keeping_rules, Keeps-adjust_csv_annotations) depth 20

  Keeps-customize_all :
      (metadata_path : String) (organization : Option String) (pinned : Bool) (b : Bundle)
      (customizations : List Json)
      → Keeps F (customize_all env metadata_path organization pinned b customizations)
  unfolding customize_all customize
  Keeps-customize_all metadata_path organization pinned b [] = Keeps-pure b
  Keeps-customize_all metadata_path organization pinned b (c ∷ cs) =
      Keeps-bind (customize env metadata_path organization pinned b c) _
        (search (keeping_rules, Keeps-apply_suffix, Keeps-replace_registries, Keeps-annotate_csvs)
          depth 30)
        (λ next. Keeps-customize_all metadata_path organization pinned next cs)

  Keeps-adjust_operator_bundle :
      (manifests_path metadata_path : String) (organization : Option String) (pinned : Json)
      → Keeps F (adjust_operator_bundle env manifests_path metadata_path organization pinned)
  unfolding adjust_operator_bundle
  Keeps-adjust_operator_bundle manifests_path metadata_path organization pinned =
      search (keeping_rules, Keeps-get_package_annotations, Keeps-customize_all) depth 30

  Keeps-build_arches :
      (dir : String) (arches : List String) → Keeps F (build_arches env dir request_id arches)
  unfolding build_arches
  Keeps-build_arches dir [] = Keeps-pure tt
  Keeps-build_arches dir (arch ∷ arches) =
      Keeps-bind (build_image env dir "Dockerfile" request_id arch) _ (Keeps-build_image a _ _ arch)
        (λ built.
          Keeps-bind (push_image env request_id arch) _ (Keeps-push_image a arch)
            (λ pushed. Keeps-build_arches dir arches))

  Keeps-build_regenerated :
      (organization : Option String) (image : String) (arches : List String) (pinned : Json)
      (dir : String)
      → Keeps F (build_regenerated env request_id organization image arches pinned dir)
  unfolding build_regenerated
  Keeps-build_regenerated organization image arches pinned dir =
      search
        (
          keeping_rules,
          a.writes,
          Keeps-copy_files_from_image a,
          Keeps-adjust_operator_bundle,
          Keeps-build_arches,
        )
        depth 30

resolved-IsReport :
    (image : String) (arches : List String)
    → IsReport regenerate_bundle (resolved_payload image arches)
unfolding resolved_payload check_keys get_mutable_keys is_progress get keys dec_str json_eq
resolved-IsReport image arches = record { has_mutable_keys = refl; leaves_open = refl }

module _ {env : Env} {request_id : ℕ} {F : Frame}
    (a : Allows env regenerate_bundle request_id F) where
  Keeps-resolved :
      (image : String) (arches : List String) (exc_msg : Option String)
      → Keeps F (update_request env request_id (resolved_payload image arches) exc_msg)
  Keeps-resolved image arches exc_msg = Keeps-update_request a _ _ (resolved-IsReport image arches)

  Keeps-regenerate_for :
      (t : RegenerateTask) (image : String) (arches : List String)
      → Keeps F (regenerate_for env request_id t image arches)
  unfolding regenerate_for
  Keeps-regenerate_for t image [] = Keeps-raise _
  Keeps-regenerate_for t image (arch ∷ arches) =
      search
        (
          keeping_rules,
          a.opens,
          a.removes,
          Keeps-get_image_label a,
          Keeps-resolved,
          Keeps-podman_pull a,
          Keeps-build_regenerated a,
        )
        depth 30

  pub Keeps-regenerate_steps : (t : RegenerateTask) → Keeps F (regenerate_steps env request_id t)
  unfolding regenerate_steps
  Keeps-regenerate_steps t = Keeps-bind (cleanup env) _ (Keeps-cleanup a) (λ cleaned.
      search
        (
          keeping_rules,
          Keeps-set_request_state a,
          a.logs_in,
          Keeps-get_resolved_image a,
          Keeps-get_image_arches a,
          Keeps-regenerate_for,
          Keeps-create_and_push_manifest_list a,
        )
        depth 30)
