-- ===== src/Workers/Legacy.antt =====
-- iib/workers/tasks/legacy.py: packages that are also pushed to the legacy app registry.
use iib.Common.{
  ℕ, String, Bool, true, false, not, ◌&&◌, Option, none, some, List, [], ◌∷◌, nat_eq, length,
  if◌then◌else◌,
}
use iib.Common.Text.{◌⧺◌}
use iib.Common.Find.{join}
use iib.Exn.{Result, ok, err, iib_error}
use iib.Json.{Json, null, str, truthy, json_eq, bool}
use iib.Workers.Values.{is_set, add_to_set, subscript, dot_get}
use iib.Workers.Exec.{
  Env, Exec, HttpResponse, pure, raise, lift, raise_if, ask, emit, for_each, with_temp_dir, ◌>>=◌,
  ◌>>◌, wrote, posted,
}
use iib.Workers.Retry.{retry}
use iib.Workers.Command.{run_cmd}
use iib.Workers.Api.{set_request_state, set_omps_operator_version, text_of, decoded}
use iib.Workers.Images.{get_image_labels}
use iib.Workers.Build.Image.{join_path}

abbrev pub add_package :
    Env → (force_backport : Bool) → (packages : List String) → (labels : Json) → Exec (List String)
add_package env force_backport packages labels = do
  flag ← lift (dot_get "com.redhat.delivery.backport" (str "false") labels)
  asked ← (if force_backport then pure (bool true) else lift (decoded (env.yaml_load flag)))
  if truthy asked
      then (do
        pkg ← lift (subscript "operators.operatorframework.io.bundle.package.v1" labels)
        pure (add_to_set (text_of env pkg) packages))
      else pure packages

unfoldable pub collect_packages :
    Env → (force_backport : Bool) → (packages bundles : List String) → Exec (List String)
collect_packages env force_backport packages [] = pure packages
collect_packages env force_backport packages (bundle ∷ bundles) = do
  labels ← get_image_labels env bundle
  more ← add_package env force_backport packages labels
  collect_packages env force_backport more bundles

abbrev pub announce_force : Env → (request_id : ℕ) → (force_backport : Bool) → Exec (Unit {0})
announce_force env request_id false = pure tt
announce_force env request_id true = do
  set_request_state env request_id "in_progress" "Backport legacy support will be forced"
  pure tt

unfoldable pub get_legacy_support_packages :
    Env
    → (bundles : List String) → (request_id : ℕ) → (ocp_version : Json) → (force_backport : Bool)
    → Exec (List String)
unfolding collect_packages
get_legacy_support_packages env bundles request_id ocp_version force_backport =
    if json_eq ocp_version (str "v4.5")
    then (do
      announce_force env request_id force_backport
      collect_packages env force_backport [] bundles)
    else pure []

abbrev is_nonempty : List String → Bool
is_nonempty [] = false
is_nonempty (s ∷ ss) = true

unfoldable pub validate_legacy_params_and_config :
    Env → (packages : List String) → (cnr_token organization : Option String) → Result (Unit {0})
validate_legacy_params_and_config env packages cnr_token organization =
    if is_nonempty packages && not (is_set cnr_token && is_set organization)
    then err (
        iib_error (
          "Legacy support is required for "
          ⧺ join ", " (env.listed packages)
          ⧺ "; Both cnr_token and organization should be non-empty strings"))
    else if is_set env.config.iib_omps_url
    then ok tt
    else err (iib_error "IIB is not configured to handle the legacy app registry")

-- `_opm_index_export`
unfoldable pub opm_index_export : Env → (rebuilt_index_image pkg temp_dir : String) → Exec String
opm_index_export env rebuilt_index_image pkg temp_dir = retry 2 (
    run_cmd env
      ("opm" ∷ "index" ∷ "export" ∷ "--index" ∷ rebuilt_index_image ∷ "--package" ∷ pkg
        ∷ "--download-folder" ∷ pkg ∷ [])
      (some temp_dir) (some ("Failed to push " ⧺ pkg ⧺ " to the legacy application registry")))

-- `_verify_package_info`, for the package of this name
unfoldable pub verify_package_info :
    Env → (package_dir package_name from_index : String) → Exec (Unit {0})
verify_package_info env package_dir package_name from_index = do
  files ← ask (λ events. env.listdir events package_dir)
  raise_if (nat_eq (length files) 1)
      (iib_error ("package " ⧺ package_name ⧺ " is missing in index image " ⧺ from_index))

-- `_zip_package`
unfoldable pub zip_package : Env → (base_dir package_dir package_name : String) → Exec (Unit {0})
zip_package env base_dir package_dir package_name = do
  emit (wrote (base_dir ⧺ "/manifests.zip") package_dir)
  zipped ← ask env.zipped
  raise_if (not zipped) (iib_error ("Unable to zip exported package for " ⧺ package_name))

abbrev pub text_or_none : Option String → String
text_or_none none = "None"
text_or_none (some s) = s

-- What a response of OMPS that is not OK says.
abbrev pub omps_error : Env → HttpResponse → Result String
omps_error env resp = elim resp.json [
  | none ↦ ok resp.text
  | some answer ↦ elim (dot_get "message" (str "An unknown error occured") answer) [
    | err e ↦ err e
    | ok message ↦ ok (text_of env message)
  ]
]

-- `_push_package_manifest`. The event has the address and the archive; the token goes in a header.
unfoldable pub push_package_manifest :
    Env → (base_dir : String) → (organization : Option String) → Exec Json
push_package_manifest env base_dir organization = do
  emit (
      posted (text_or_none env.config.iib_omps_url ⧺ text_or_none organization ⧺ "/zipfile")
        (str (base_dir ⧺ "/manifests.zip")))
  resp ← ask env.http
  if resp.is_ok then lift (decoded resp.json) else (do
    error_msg ← lift (omps_error env resp)
    raise (
        iib_error (
          "Push to "
          ⧺ text_or_none organization
          ⧺ " in the legacy app registry was unsucessful: "
          ⧺ error_msg)))

-- What the loop of `export_legacy_packages` does with a package.
unfoldable pub export_package :
    Env
    → (rebuilt_index_image temp_dir : String) → (organization : Option String) → (pkg : String)
    → Exec (String × Json)
unfolding opm_index_export verify_package_info zip_package push_package_manifest
export_package env rebuilt_index_image temp_dir organization pkg = do
  opm_index_export env rebuilt_index_image pkg temp_dir
  verify_package_info env (join_path (join_path temp_dir pkg) pkg) pkg rebuilt_index_image
  zip_package env (join_path temp_dir pkg) (join_path (join_path temp_dir pkg) pkg) pkg
  omps_response ← push_package_manifest env (join_path temp_dir pkg) organization
  version ← lift (dot_get "version" null omps_response)
  pure (pkg, version)

unfoldable pub export_legacy_packages :
    Env
    → (packages : List String) → (request_id : ℕ) → (rebuilt_index_image : String)
    → (organization : Option String) → Exec (Unit {0})
unfolding export_package
export_legacy_packages env packages request_id rebuilt_index_image organization = do
  operator_versions ← with_temp_dir env (λ temp_dir.
      for_each (export_package env rebuilt_index_image temp_dir organization) (env.listed packages))
  set_omps_operator_version env request_id operator_versions
  set_request_state env request_id "in_progress" "Back ported packages successfully pushed to OMPS"
  pure tt
