-- ===== src/Workers/Regenerate/Annotations.antt =====
-- The functions of iib/workers/tasks/build_regenerate_bundle.py on the file
-- metadata/annotations.yaml of a bundle.
use iib.Common.{String, Bool, true, false, not, Option, none, some, [], ◌∷◌, if◌then◌else◌}
use iib.Common.Dict.{Dict}
use iib.Common.Text.{◌⧺◌}
use iib.Exn.{Result, ok, err, iib_error}
use iib.Json.{Json, null, str, obj, end, truthy}
use iib.Workers.Values.{dot_get}
use iib.Workers.Exec.{Env, Exec, pure, lift, raise_if, ask, emit, wrote, ◌>>=◌, ◌>>◌}
use iib.Workers.Build.Image.{join_path}
use iib.Workers.Regenerate.Contents.{package_label, package_annotation, set_package, ends_with}

abbrev is_obj : Json → Bool
is_obj (obj fs) = true
is_obj _ = false

abbrev is_str : Json → Bool
is_str (str s) = true
is_str _ = false

abbrev yaml_or_error : Option Json → Result Json
yaml_or_error none = err (iib_error "metadata/annotations.yaml is not valid YAML")
yaml_or_error (some v) = ok v

-- `_get_package_annotations`
unfoldable pub get_package_annotations : Env → (metadata_path : String) → Exec Json
get_package_annotations env metadata_path = do
  exists ← ask (λ events. env.path_exists events (join_path metadata_path "annotations.yaml"))
  raise_if (not exists) (iib_error "metadata/annotations.yaml does not exist in the bundle")
  yaml ← ask (λ events. env.yaml_file events (join_path metadata_path "annotations.yaml"))
  annotations_yaml ← lift (yaml_or_error yaml)
  annotations ← lift (dot_get "annotations" (obj end) annotations_yaml)
  raise_if (not (is_obj annotations))
      (iib_error "The value of metadata/annotations.yaml must be a dictionary")
  package_annotation ← lift (dot_get package_label null annotations)
  raise_if (not (truthy package_annotation))
      (iib_error (package_label ⧺ " is not set in metadata/annotations.yaml"))
  raise_if (not (is_str package_annotation)) (
      iib_error ("The value of " ⧺ package_label ⧺ " in metadata/annotations.yaml is not a string"))
  pure annotations_yaml

-- `_apply_package_name_suffix`
unfoldable pub apply_package_name_suffix :
    Env → (metadata_path package_name_suffix : String) → Exec (String × Dict String)
unfolding ends_with
apply_package_name_suffix env metadata_path suffix = do
  annotations_yaml ← get_package_annotations env metadata_path
  name ← lift (package_annotation annotations_yaml)
  if ends_with suffix name then pure (name, []) else (do
    changed ← lift (set_package (name ⧺ suffix) annotations_yaml)
    emit (wrote (join_path metadata_path "annotations.yaml") (env.yaml_dump changed))
    pure (name ⧺ suffix, (package_label, name ⧺ suffix) ∷ []))
