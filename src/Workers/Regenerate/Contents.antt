-- ===== src/Workers/Regenerate/Contents.antt =====
-- What iib/workers/tasks/build_regenerate_bundle.py computes from the contents of a bundle's files.
use iib.Common.{
  String, Bool, true, not, ◌&&◌, Option, none, some, List, [], ◌∷◌, ◌++◌, ◌==◌, if◌then◌else◌,
}
use iib.Common.Dict.{Dict, put}
use iib.Common.Text.{◌⧺◌}
use iib.Common.Find.{last_piece}
use iib.Common.Format.{format}
use iib.Exn.{Result, ok, err, iib_error, type_error, attribute_error, ◌>>=◌}
use iib.Json.{Json, str, obj, end, fields}
use iib.Workers.Values.{subscript, dot_get, to_fields, union}
use iib.Workers.Exec.{Env, OperatorCsv}

abbrev pub package_label : String
package_label = "operators.operatorframework.io.bundle.package.v1"

-- A text, where Python needs one.
abbrev pub as_string : Json → Result String
as_string (str s) = ok s
as_string _ = err type_error

-- `annotations_yaml['annotations'][package_label]`
unfoldable pub package_annotation : Json → Result String
package_annotation annotations_yaml = subscript "annotations" annotations_yaml >>= λ annotations.
    subscript package_label annotations >>= λ v. as_string v

-- `d[k] = v`
abbrev pub set_item : (k : String) → (v d : Json) → Result Json
set_item k v (obj fs) = ok (obj (to_fields (put k v (fields fs))))
set_item k v _ = err type_error

-- `annotations_yaml['annotations'][package_label] = name`
unfoldable pub set_package : (name : String) → Json → Result Json
set_package name annotations_yaml = subscript "annotations" annotations_yaml >>= λ annotations.
    set_item package_label (str name) annotations >>= λ changed.
    set_item "annotations" changed annotations_yaml

-- `s.endswith(suffix)`
unfoldable pub ends_with : (suffix s : String) → Bool
ends_with suffix String.[] = suffix == ""
ends_with suffix (String.◌∷◌ c s) =
    let rest = ends_with suffix s in if suffix == String.◌∷◌ c s then true else rest

-- `operator_csvs` holds the paths of its files.
pub record BundleMetadata : Type 0 where
  pub found_pullspecs : List String
  pub operator_csvs : List String

abbrev pub related_images_message : OperatorCsv → String
related_images_message csv =
    "The ClusterServiceVersion file "
    ⧺ last_piece "/" csv.path
    ⧺ " has entries in "
    ⧺ "spec.relatedImages and one or more containers have RELATED_IMAGE_* "
    ⧺ "environment variables set. This is not allowed for bundles regenerated with "
    ⧺ "IIB."

-- A round of the loop of `_get_bundle_metadata`.
unfoldable pub add_csv :
    Env → (pinned_by_iib : Bool) → BundleMetadata → OperatorCsv → Result BundleMetadata
add_csv env pinned_by_iib m csv =
    if not pinned_by_iib && env.manifests.has_related_images csv.contents
    then if env.manifests.has_related_image_envs csv.contents
      then err (iib_error (related_images_message csv))
      else ok m
    else ok (record {
      found_pullspecs = union m.found_pullspecs (env.manifests.get_pullspecs csv.contents);
      operator_csvs = m.operator_csvs ++ csv.path ∷ [];
    })

unfoldable pub add_csvs :
    Env → (pinned_by_iib : Bool) → BundleMetadata → List OperatorCsv → Result BundleMetadata
unfolding add_csv
add_csvs env pinned_by_iib m [] = ok m
add_csvs env pinned_by_iib m (csv ∷ files) =
    add_csv env pinned_by_iib m csv >>= λ next. add_csvs env pinned_by_iib next files

-- `_get_bundle_metadata`
unfoldable pub get_bundle_metadata :
    Env → List OperatorCsv → (pinned_by_iib : Bool) → Result BundleMetadata
unfolding add_csvs
get_bundle_metadata env files pinned_by_iib =
    add_csvs env pinned_by_iib (record { found_pullspecs = []; operator_csvs = [] }) files

-- `d.setdefault(k, {})`
abbrev pub default_dict : (k : String) → Json → Result Json
default_dict k v = dot_get k (obj end) v

abbrev field_value : (package_name field : String) → Option String
field_value package_name field = if field == "package_name" then some package_name else none

-- `.format` of a text; another value has no such method.
abbrev pub format_value : (package_name : String) → Json → Result String
format_value package_name (str template) = format (field_value package_name) template
format_value package_name _ = err attribute_error

-- The loop over the annotations of the organization.
unfoldable pub annotate :
    (package_name : String) → (csv_annotations : Json) → Dict Json → Result Json
annotate package_name csv_annotations [] = ok csv_annotations
annotate package_name csv_annotations ((annotation, value_template) ∷ rest) =
    format_value package_name value_template >>= λ value.
    set_item annotation (str value) csv_annotations >>= λ next. annotate package_name next rest

-- What one round of `_adjust_csv_annotations` makes of a file.
unfoldable pub annotated : (package_name : String) → Dict Json → (contents : Json) → Result Json
unfolding annotate
annotated package_name org_csv_annotations contents =
    default_dict "metadata" contents >>= λ metadata.
    default_dict "annotations" metadata >>= λ csv_annotations.
    annotate package_name csv_annotations org_csv_annotations >>= λ changed.
    set_item "annotations" changed metadata >>= λ metadata'. set_item "metadata" metadata' contents
