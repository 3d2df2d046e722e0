-- ===== src/Workers/Regenerate/Adjust.antt =====
-- `_adjust_operator_bundle` of iib/workers/tasks/build_regenerate_bundle.py: the customizations of a
-- bundle for an organization, in their order.
use iib.Common.{String, Bool, ◌&&◌, Option, none, some, List, [], ◌∷◌, if◌then◌else◌}
use iib.Common.Dict.{Dict, get}
use iib.Common.Text.{◌⧺◌}
use iib.Exn.{Result, ok, err, iib_error, attribute_error}
use iib.Json.{Json, null, str, obj, arr, end, field, cons, nil, fields, truthy, json_eq}
use iib.Workers.Values.{subscript, dot_get, iterate, is_set}
use iib.Workers.Exec.{
  Env, Exec, OperatorCsv, Loaded, csv_files, not_yaml, not_loaded, pure, lift, ask, for_each, ◌>>=◌,
}
use iib.Workers.Regenerate.Contents.{package_annotation, as_string, get_bundle_metadata, annotated}
use iib.Workers.Regenerate.Annotations.{get_package_annotations, apply_package_name_suffix}
use iib.Workers.Regenerate.Pinning.{Bundle, dump, resolve_image_pull_specs}

-- `d.items()`
abbrev dict_items : Json → Result (Dict Json)
dict_items (obj fs) = ok (fields fs)
dict_items _ = err attribute_error

-- `_adjust_csv_annotations`
unfoldable pub adjust_csv_annotations :
    Env
    → (org_csv_annotations : Json) → (package_name : String) → List OperatorCsv
    → Exec (List OperatorCsv)
unfolding annotated
adjust_csv_annotations env org_csv_annotations package_name files =
    for_each
      (λ (csv : OperatorCsv). do
        annotations ← lift (dict_items org_csv_annotations)
        contents ← lift (annotated package_name annotations csv.contents)
        dump env (record { path = csv.path; contents = contents }))
      files

abbrev of_type : String → Json
of_type name = obj (field "type" (str name) end)

-- What is done where the organization has no customizations.
abbrev pub default_customizations : Json
default_customizations = arr (
    cons (of_type "package_name_suffix")
      (cons (of_type "registry_replacements") (cons (of_type "csv_annotations") nil)))

unfoldable pub customizations_of : Env → (organization : Option String) → Json
customizations_of env none = default_customizations
customizations_of env (some organization) =
    elim (get organization env.config.iib_organization_customizations) [
      | none ↦ default_customizations
      | some customizations ↦
          if truthy customizations then customizations else default_customizations
    ]

abbrev pub apply_suffix :
    Env → (metadata_path : String) → (package_name_suffix : Json) → Bundle → Exec Bundle
apply_suffix env metadata_path package_name_suffix b =
    if truthy package_name_suffix
    then (do
      suffix ← lift (as_string package_name_suffix)
      done ← apply_package_name_suffix env metadata_path suffix
      pure (record { package_name = done.0; labels = done.1; files = b.files }))
    else pure b

abbrev pub replace_registries :
    Env → (pinned_by_iib : Bool) → (registry_replacements : Json) → Bundle → Exec Bundle
replace_registries env pinned_by_iib registry_replacements b = do
  bundle_metadata ← lift (get_bundle_metadata env b.files pinned_by_iib)
  resolve_image_pull_specs env bundle_metadata pinned_by_iib registry_replacements b

abbrev pub annotate_csvs : Env → (org_csv_annotations : Json) → Bundle → Exec Bundle
annotate_csvs env org_csv_annotations b =
    if truthy org_csv_annotations
    then (do
      files ← adjust_csv_annotations env org_csv_annotations b.package_name b.files
      pure (record { package_name = b.package_name; labels = b.labels; files = files }))
    else pure b

-- A round of the loop over the customizations.
unfoldable pub customize :
    Env
    → (metadata_path : String) → (organization : Option String) → (pinned_by_iib : Bool) → Bundle
    → (customization : Json) → Exec Bundle
customize env metadata_path organization pinned_by_iib b customization = do
  customization_type ← lift (subscript "type" customization)
  if json_eq customization_type (str "package_name_suffix")
      then (do
        suffix ← lift (dot_get "suffix" null customization)
        apply_suffix env metadata_path suffix b)
      else if json_eq customization_type (str "registry_replacements")
      then (do
        replacements ← lift (dot_get "replacements" (obj end) customization)
        replace_registries env pinned_by_iib replacements b)
      else if json_eq customization_type (str "csv_annotations") && is_set organization
      then (do
        annotations ← lift (dot_get "annotations" null customization)
        annotate_csvs env annotations b)
      else pure b

unfoldable pub customize_all :
    Env
    → (metadata_path : String) → (organization : Option String) → (pinned_by_iib : Bool) → Bundle
    → (customizations : List Json) → Exec Bundle
unfolding customize
customize_all env metadata_path organization pinned_by_iib b [] = pure b
customize_all env metadata_path organization pinned_by_iib b (c ∷ cs) = do
  next ← customize env metadata_path organization pinned_by_iib b c
  customize_all env metadata_path organization pinned_by_iib next cs

-- `try: OperatorManifest.from_directory(manifests_path)`
abbrev pub manifest_files : Loaded → Result (List OperatorCsv)
manifest_files (csv_files files) = ok files
manifest_files (not_yaml error) =
    err (iib_error ("The Operator Manifest is not in a valid YAML format: " ⧺ error))
manifest_files (not_loaded e) = err e

-- `_adjust_operator_bundle`, which returns the labels to set on the bundle
unfoldable pub adjust_operator_bundle :
    Env
    → (manifests_path metadata_path : String) → (organization : Option String)
    → (pinned_by_iib : Json) → Exec (Dict String)
unfolding customizations_of customize_all
adjust_operator_bundle env manifests_path metadata_path organization pinned_by_iib = do
  loaded ← ask (λ events. env.manifests.from_directory events manifests_path)
  files ← lift (manifest_files loaded)
  annotations_yaml ← get_package_annotations env metadata_path
  package_name ← lift (package_annotation annotations_yaml)
  customizations ← lift (iterate (customizations_of env organization))
  b ←
      customize_all env metadata_path organization (truthy pinned_by_iib)
        (record { package_name = package_name; labels = []; files = files }) customizations
  pure b.labels
