-- ===== src/Tests/Worker/Bundles.antt =====
-- The task that regenerates a bundle image, on a bundle with two files.
use iib.Common.{◌≡◌, refl, some, false, [], ◌∷◌}
use iib.Exn.{ok}
use iib.Json.{str, bool, arr, obj, field, end, cons, nil}
use iib.Workers.Exec.{Env, OperatorCsv}
use iib.Workers.Regenerate.Contents.{get_bundle_metadata}
use iib.Workers.Regenerate.Selected.{IsSelection, get_bundle_metadata-IsSelection}
use iib.Workers.Regenerate.Contents.{
  package_label, package_annotation, set_package, ends_with, add_csv, add_csvs,
}
use iib.Workers.Regenerate.Annotations.{get_package_annotations, apply_package_name_suffix}
use iib.Workers.Regenerate.Pinning.{
  resolve_image_pull_specs, resolve_pullspecs, resolve_pullspec, replace_in,
}
use iib.Workers.Regenerate.Adjust.{
  adjust_operator_bundle, customizations_of, customize_all, customize,
}
use iib.Common.Dict.{put}
use iib.Tests.Worker.Parts.{run}
use iib.Tests.Worker.{env, config, world}

abbrev listing : OperatorCsv
listing = record { path = "1.yaml"; contents = str "lists images" }

abbrev plain : OperatorCsv
plain = record { path = "2.yaml"; contents = str "plain" }

get_bundle_metadata-IsSelection_example :
    IsSelection env false
      (listing ∷ plain ∷ [])
      []
      (get_bundle_metadata env (listing ∷ plain ∷ []) false)
get_bundle_metadata-IsSelection_example =
    get_bundle_metadata-IsSelection env false (listing ∷ plain ∷ [])

-- An organization that has its registries replaced before the suffix is added.
abbrev pinned_first : Env
pinned_first = record env {
  config = record config {
    iib_organization_customizations =
        (
          "org",
          arr (
              cons (obj (field "type" (str "registry_replacements") end)) (
                cons
                  (obj (field "type" (str "package_name_suffix") (field "suffix" (str "-x") end)))
                  nil)),
        )
        ∷ [];
  };
}

-- The images are pinned, and the label that says so is lost.
label_lost :
    (adjust_operator_bundle pinned_first "/tmp/iib-1/manifests" "/tmp/iib-1/metadata"
      (some "org")
      (bool false)
      world).0
    ≡ ok ((package_label, "amq-x") ∷ [])
unfolding run adjust_operator_bundle customizations_of customize_all customize
    get_package_annotations package_annotation set_package ends_with apply_package_name_suffix
    get_bundle_metadata add_csvs add_csv resolve_image_pull_specs resolve_pullspecs resolve_pullspec
    replace_in put
label_lost = refl
