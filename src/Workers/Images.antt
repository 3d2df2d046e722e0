-- ===== src/Workers/Images.antt =====
-- The functions of iib/workers/tasks/utils.py that ask about a container image: `skopeo_inspect`,
-- `podman_pull`, the resolved pull specifications, labels and arches.
pub mod Names
use iib.Common.{String, true, false, ◌&&◌, Option, none, some, List, [], ◌∷◌, ◌++◌, if◌then◌else◌}
use iib.Common.Dict.{Dict}
use iib.Common.Text.{◌⧺◌, has_char}
use iib.Common.Find.{starts_with, before_first, before_last, join}
use iib.Exn.{Result, ok, err, iib_error, of_worker, decode_error}
use iib.Json.{Json, end, null, int, str, obj, pos, truthy, json_eq}
use iib.Workers.Values.{subscript, dot_get, first_item, iterate, union}
use iib.Workers.Exec.{Env, Exec, pure, raise, lift, raise_if, for_each, ◌>>=◌, ◌>>◌}
use iib.Workers.Api.{text_of}
use iib.Workers.Retry.{retry}
use iib.Workers.Command.{run_cmd}
use iib.Workers.Cache.{dogpile_cache, generate_cache_key, skopeo_inspect_should_use_cache}

-- The keyword arguments that the code gives to `skopeo_inspect`.
pub data Inspect : Type 0 where
  plain as_text require_media_type : Inspect

unfoldable pub inspect_kwargs : Inspect → Dict String
inspect_kwargs plain = []
inspect_kwargs as_text = ("return_json", "False") ∷ []
inspect_kwargs require_media_type = ("require_media_type", "True") ∷ []

unfoldable pub inspect_exc_msg : (args : List String) → Option String
inspect_exc_msg [] = none
inspect_exc_msg (arg ∷ args) =
    let rest = inspect_exc_msg args in
    if starts_with "docker://" arg
    then some ("Failed to inspect " ⧺ arg ⧺ ". Make sure it exists and is accessible to IIB.")
    else rest

-- `json.loads(output)`
unfoldable pub loads : Env → String → Result Json
loads env output = elim (env.json_loads output) [
  | none ↦ err (of_worker decode_error)
  | some v ↦ ok v
]

abbrev pub check_media_type : Json → Exec Json
check_media_type json_output = do
  media_type ← lift (dot_get "mediaType" null json_output)
  if truthy media_type then pure json_output else raise (iib_error "mediaType not found")

abbrev pub inspected : Env → Inspect → String → Exec Json
inspected env as_text output = pure (str output)
inspected env plain output = lift (loads env output)
inspected env require_media_type output = do
  json_output ← lift (loads env output)
  check_media_type json_output

-- The body of `skopeo_inspect`, without its decorators.
unfoldable pub skopeo_inspect_once : Env → (args : List String) → Inspect → Exec Json
unfolding inspect_exc_msg loads
skopeo_inspect_once env args how = do
  output ←
      run_cmd env
        (("skopeo" ∷ "--command-timeout" ∷ env.config.iib_skopeo_timeout ∷ "inspect" ∷ []) ++ args)
        none (inspect_exc_msg args)
  inspected env how output

unfoldable pub skopeo_inspect : Env → (args : List String) → Inspect → Exec Json
unfolding skopeo_inspect_once inspect_kwargs
skopeo_inspect env args how = retry env.config.iib_total_attempts (
    dogpile_cache env (skopeo_inspect_should_use_cache args)
      (generate_cache_key "skopeo_inspect" args (inspect_kwargs how))
      (skopeo_inspect_once env args how))

unfoldable pub podman_pull : Env → (args : List String) → Exec (Unit {0})
podman_pull env args = retry env.config.iib_total_attempts (do
  output ←
      run_cmd env (("podman" ∷ "pull" ∷ []) ++ args) none
        (some ("Failed to pull the container image " ⧺ join " " args))
  pure tt)

-- `_get_container_image_name`
unfoldable pub get_container_image_name : String → String
get_container_image_name pull_spec =
    if has_char b'@' pull_spec then before_first b'@' pull_spec else before_last b':' pull_spec

abbrev pub digest_of_output : Env → (pull_spec output : String) → Json → Exec String
digest_of_output env pull_spec output schema_version =
    if json_eq schema_version (int (pos 2)) then pure ("sha256:" ⧺ env.sha256_hex output) else (do
      inspected ← skopeo_inspect env (("docker://" ⧺ pull_spec) ∷ []) plain
      digest ← lift (subscript "Digest" inspected)
      pure (text_of env digest))

-- The output of `skopeo_inspect(..., return_json=False)`, which is a text.
unfoldable pub text_output : Json → String
text_output (str s) = s
text_output _ = ""

unfoldable pub get_resolved_image : Env → (pull_spec : String) → Exec String
unfolding get_container_image_name text_output
get_resolved_image env pull_spec = do
  skopeo_output ← skopeo_inspect env (("docker://" ⧺ pull_spec) ∷ "--raw" ∷ []) as_text
  raw ← lift (loads env (text_output skopeo_output))
  schema_version ← lift (dot_get "schemaVersion" null raw)
  digest ← digest_of_output env pull_spec (text_output skopeo_output) schema_version
  pure (get_container_image_name pull_spec ⧺ "@" ⧺ digest)

abbrev manifest_list : Json
manifest_list = str "application/vnd.docker.distribution.manifest.list.v2+json"

abbrev manifest_v2 : Json
manifest_v2 = str "application/vnd.docker.distribution.manifest.v2+json"

-- What the loop of `get_resolved_bundles` does with a bundle.
unfoldable pub get_resolved_bundle : Env → (bundle_pull_spec : String) → Exec String
unfolding get_container_image_name
get_resolved_bundle env bundle_pull_spec = do
  skopeo_raw ←
      skopeo_inspect env (("docker://" ⧺ bundle_pull_spec) ∷ "--raw" ∷ []) require_media_type
  media_type ← lift (dot_get "mediaType" null skopeo_raw)
  schema_version ← lift (dot_get "schemaVersion" null skopeo_raw)
  if json_eq media_type manifest_list
      then (do
        manifests ← lift (subscript "manifests" skopeo_raw)
        first ← lift (first_item manifests)
        digest ← lift (subscript "digest" first)
        pure (get_container_image_name bundle_pull_spec ⧺ "@" ⧺ text_of env digest))
      else if json_eq media_type manifest_v2 && json_eq schema_version (int (pos 2))
      then get_resolved_image env bundle_pull_spec
      else raise (
          iib_error (
            "The pull specification of "
            ⧺ bundle_pull_spec
            ⧺ " is neither "
            ⧺ "a v2 manifest list nor a v2s2 manifest. Type "
            ⧺ text_of env media_type
            ⧺ " and schema version "
            ⧺ text_of env schema_version
            ⧺ " is not supported by IIB."))

unfoldable pub get_resolved_bundles : Env → (bundles : List String) → Exec (List String)
unfolding get_resolved_bundle
get_resolved_bundles env bundles = do
  resolved ← for_each (get_resolved_bundle env) bundles
  pure (env.listed (union [] resolved))

unfoldable pub get_image_labels : Env → (pull_spec : String) → Exec Json
get_image_labels env pull_spec = do
  inspected ←
      skopeo_inspect env
        ((if starts_with "docker://" pull_spec then pull_spec else "docker://" ⧺ pull_spec)
          ∷ "--config"
          ∷ [])
        plain
  config ← lift (dot_get "config" (obj end) inspected)
  lift (dot_get "Labels" (obj end) config)

unfoldable pub get_image_label : Env → (pull_spec label : String) → Exec Json
get_image_label env pull_spec label = do
  labels ← get_image_labels env pull_spec
  lift (dot_get label null labels)

-- An architecture is a text, by the specification of manifests.
abbrev pub architecture_of : Env → Json → Exec String
architecture_of env manifest = do
  platform ← lift (subscript "platform" manifest)
  architecture ← lift (subscript "architecture" platform)
  pure (text_of env architecture)

unfoldable pub get_image_arches : Env → (pull_spec : String) → Exec (List String)
get_image_arches env pull_spec = do
  skopeo_raw ← skopeo_inspect env (("docker://" ⧺ pull_spec) ∷ "--raw" ∷ []) plain
  media_type ← lift (dot_get "mediaType" null skopeo_raw)
  if json_eq media_type manifest_list
      then (do
        manifests ← lift (subscript "manifests" skopeo_raw)
        manifests ← lift (iterate manifests)
        arches ← for_each (architecture_of env) manifests
        pure (union [] arches))
      else if json_eq media_type manifest_v2
      then (do
        skopeo_out ← skopeo_inspect env (("docker://" ⧺ pull_spec) ∷ "--config" ∷ []) plain
        architecture ← lift (subscript "architecture" skopeo_out)
        pure (text_of env architecture ∷ []))
      else raise (
          iib_error (
            "The pull specification of " ⧺ pull_spec
            ⧺ " is neither a v2 manifest list nor a v2 manifest"))

-- What `verify_labels` does with a label of a bundle.
abbrev pub check_label : Env → (bundle : String) → Json → String × Json → Exec (Unit {0})
check_label env bundle labels (label, value) = do
  found ← lift (dot_get label null labels)
  raise_if (if json_eq found value then false else true) (
      iib_error
        ("The bundle " ⧺ bundle ⧺ " does not have the label " ⧺ label ⧺ "=" ⧺ text_of env value))

abbrev pub check_bundle : Env → (required : Dict Json) → (bundle : String) → Exec (Unit {0})
check_bundle env required bundle = do
  labels ← get_image_labels env bundle
  checked ← for_each (check_label env bundle labels) required
  pure tt

abbrev pub verify_with : Env → (required : Dict Json) → (bundles : List String) → Exec (Unit {0})
verify_with env [] bundles = pure tt
verify_with env (label ∷ labels) bundles = do
  checked ← for_each (check_bundle env (label ∷ labels)) bundles
  pure tt

unfoldable pub verify_labels : Env → (bundles : List String) → Exec (Unit {0})
verify_labels env bundles = verify_with env env.config.iib_required_labels bundles
