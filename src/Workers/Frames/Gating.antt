-- ===== src/Workers/Frames/Gating.antt =====
-- The gate and the legacy app registry keep what `Allows` allows.
use iib.Common.{ℕ, String, Bool, true, false, Option, some, List, [], ◌∷◌, refl, dec_str}
use iib.Common.Dict.{Dict, get, keys}
use iib.Json.{Json, str, json_eq}
use iib.Web.Mappings.{RequestTypeMapping, add}
use iib.Web.Columns.{get_mutable_keys}
use iib.Web.Api.Patch.{check_keys}
use iib.Workers.Exec.{Env}
use iib.Workers.Exec.Keeps.{Frame, Keeps, Keeps-pure, Keeps-bind, keeping_rules}
use iib.Workers.Retry.Attempts.{Keeps-retry}
use iib.Workers.Frames.{
  Allows, IsReport, is_progress, Keeps-run_cmd, Keeps-set_request_state, Keeps-update_request,
}
use iib.Workers.Frames.Images.{Keeps-get_image_labels}
use iib.Workers.Gating.{Gate, get_koji_build_nvr, gate_bundle, gate_from, gate_bundles, conclude}
use iib.Workers.Legacy.{
  add_package, collect_packages, announce_force, get_legacy_support_packages, opm_index_export,
  verify_package_info, zip_package, push_package_manifest, export_package, export_legacy_packages,
}
use iib.Workers.Api.{set_omps_operator_version}
use iib.Workers.Images.{get_image_labels}

module _ {env : Env} {type : RequestTypeMapping} {request_id : ℕ} {F : Frame}
    (a : Allows env type request_id F) where
  Keeps-get_koji_build_nvr : (bundle : String) → Keeps F (get_koji_build_nvr env bundle)
  unfolding get_koji_build_nvr
  Keeps-get_koji_build_nvr bundle = search (keeping_rules, Keeps-get_image_labels a) depth 20

  Keeps-gate_bundle :
      (config : Dict Json) (gate : Gate) (bundle : String)
      → Keeps F (gate_bundle env config gate bundle)
  unfolding gate_bundle
  Keeps-gate_bundle config gate bundle =
      search (keeping_rules, a.posts, Keeps-get_koji_build_nvr) depth 20

  Keeps-gate_from :
      (config : Dict Json) (gate : Gate) (bundles : List String)
      → Keeps F (gate_from env config gate bundles)
  unfolding gate_from
  Keeps-gate_from config gate [] = Keeps-pure gate
  Keeps-gate_from config gate (bundle ∷ bundles) =
      Keeps-bind (gate_bundle env config gate bundle) _ (Keeps-gate_bundle config gate bundle)
        (λ next. Keeps-gate_from config next bundles)

  Keeps-conclude :
      (config : Dict Json) (gate : Gate) (bundles : List String)
      → Keeps F (conclude env config gate bundles)
  Keeps-conclude config gate [] = Keeps-pure tt
  Keeps-conclude config gate (bundle ∷ bundles) = search keeping_rules depth 20

  pub Keeps-gate_bundles :
      (bundles : List String) (config : Dict Json) → Keeps F (gate_bundles env bundles config)
  unfolding gate_bundles
  Keeps-gate_bundles bundles config =
      search (keeping_rules, Keeps-gate_from, Keeps-conclude) depth 20

  Keeps-add_package :
      (force : Bool) (packages : List String) (labels : Json)
      → Keeps F (add_package env force packages labels)
  Keeps-add_package force packages labels = search keeping_rules depth 20

  Keeps-collect_packages :
      (force : Bool) (packages bundles : List String)
      → Keeps F (collect_packages env force packages bundles)
  unfolding collect_packages
  Keeps-collect_packages force packages [] = Keeps-pure packages
  Keeps-collect_packages force packages (bundle ∷ bundles) =
      Keeps-bind (get_image_labels env bundle) _ (Keeps-get_image_labels a bundle) (λ labels.
        Keeps-bind (add_package env force packages labels) _
          (Keeps-add_package force packages labels)
          (λ more. Keeps-collect_packages force more bundles))

  Keeps-announce_force : (force : Bool) → Keeps F (announce_force env request_id force)
  Keeps-announce_force false = Keeps-pure tt
  Keeps-announce_force true = search (keeping_rules, Keeps-set_request_state a)

  pub Keeps-get_legacy_support_packages :
      (bundles : List String) (version : Json) (force : Bool)
      → Keeps F (get_legacy_support_packages env bundles request_id version force)
  unfolding get_legacy_support_packages
  Keeps-get_legacy_support_packages bundles version force =
      search (keeping_rules, Keeps-announce_force, Keeps-collect_packages) depth 20

  Keeps-export_package :
      (index dir : String) (organization : Option String) (name : String)
      → Keeps F (export_package env index dir organization name)
  unfolding export_package opm_index_export verify_package_info zip_package push_package_manifest
  Keeps-export_package index dir organization name =
      search (keeping_rules, Keeps-retry, Keeps-run_cmd a, a.writes, a.posts) depth 40

omps-IsReport : (version : String) → IsReport add (("omps_operator_version", str version) ∷ [])
unfolding check_keys get_mutable_keys is_progress get keys dec_str json_eq
omps-IsReport version = record { has_mutable_keys = refl; leaves_open = refl }

module _ {env : Env} {request_id : ℕ} {F : Frame} (a : Allows env add request_id F) where
  Keeps-set_omps_operator_version :
      (versions : Dict Json) → Keeps F (set_omps_operator_version env request_id versions)
  unfolding set_omps_operator_version
  Keeps-set_omps_operator_version versions =
      Keeps-update_request a _
        (some "Setting the omps_operator_version to \"{omps_operator_version}\" failed")
        (omps-IsReport _)

  pub Keeps-export_legacy_packages :
      (packages : List String) (index : String) (organization : Option String)
      → Keeps F (export_legacy_packages env packages request_id index organization)
  unfolding export_legacy_packages
  Keeps-export_legacy_packages packages index organization =
      search
        (
          keeping_rules,
          a.opens,
          a.removes,
          Keeps-export_package a,
          Keeps-set_omps_operator_version,
          Keeps-set_request_state a,
        )
        depth 30
