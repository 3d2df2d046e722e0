-- ===== src/Workers/Prepare.antt =====
-- The part of iib/workers/tasks/utils.py that prepares a request for its build: the request
-- configuration, what is known of the index images, the binary image, the arches and the
-- distribution scope.
pub mod Config
pub mod Scope
pub mod Steps
pub mod Arches
pub mod Absent
use iib.Common.{
  ℕ, String, Bool, not, Option, none, some, List, [], ◌∷◌, ◌++◌, ◌==◌, contains, all, keep,
  if◌then◌else◌,
}
use iib.Common.Dict.{Dict, get, put}
use iib.Common.Text.{◌⧺◌}
use iib.Common.Find.{join, sorted}
use iib.Exn.{Exn, Result, ok, err, iib_error, key_error}
use iib.Json.{Json, str, truthy}
use iib.Workers.Values.{is_set, union}
use iib.Workers.Exec.{Env, Exec, pure, lift, raise_if, for_each, ◌>>=◌, ◌>>◌}
use iib.Workers.Docker.{set_registry_token}
use iib.Workers.Api.{set_request_state, text_of}
use iib.Workers.Images.{get_resolved_image, get_image_arches, get_image_label}
use iib.Workers.Prepare.Config.{
  RequestConfig, add_arches_of, bundles_of, index_of, token_of, source_of, scope_of, binary_image,
}
use iib.Workers.Prepare.Scope.{validate_distribution_scope}

pub record IndexInfo : Type 0 where
  pub resolved_from_index : Option String
  pub ocp_version : Json
  pub arches : List String
  pub resolved_distribution_scope : Json

-- `v or default`
abbrev pub json_or : Json → (default : String) → Json
json_or v default = if truthy v then v else str default

unfoldable pub get_index_image_info :
    Env
    → (overwrite_from_index_token from_index : Option String) → (default_ocp_version : String)
    → Exec IndexInfo
get_index_image_info env token none default_ocp_version = pure (record {
  resolved_from_index = none;
  ocp_version = str default_ocp_version;
  arches = [];
  resolved_distribution_scope = str "prod";
})
get_index_image_info env token (some from_index) default_ocp_version =
    if from_index == ""
    then pure (record {
      resolved_from_index = none;
      ocp_version = str default_ocp_version;
      arches = [];
      resolved_distribution_scope = str "prod";
    })
    else set_registry_token env token (some from_index) (do
      resolved ← get_resolved_image env from_index
      arches ← get_image_arches env resolved
      version ← get_image_label env resolved "com.redhat.index.delivery.version"
      scope ← get_image_label env resolved "com.redhat.index.delivery.distribution_scope"
      pure (record {
        resolved_from_index = some resolved;
        ocp_version = json_or version "v4.5";
        arches = arches;
        resolved_distribution_scope = json_or scope "prod";
      }))

unfoldable pub get_all_index_images_info :
    Env → RequestConfig → (index_version_map : Dict String) → Exec (Dict IndexInfo)
get_all_index_images_info env config index_version_map =
    for_each
      (λ (entry : String × String). do
        info ← get_index_image_info env (token_of config) (index_of config entry.0) entry.1
        pure (entry.0, info))
      index_version_map

abbrev pub all_arches : List String → Dict IndexInfo → List String
all_arches arches [] = arches
all_arches arches ((name, info) ∷ infos) = all_arches (union arches info.arches) infos

unfoldable pub gather_index_image_arches :
    RequestConfig → (index_image_infos : Dict IndexInfo) → Result (List String)
gather_index_image_arches config infos = elim (all_arches (union [] (add_arches_of config)) infos) [
  | [] ↦ err (iib_error "No arches were provided to build the index image")
  | arch ∷ arches ↦ ok (arch ∷ arches)
]

pub record Prebuild : Type 0 where
  pub arches : List String
  pub binary_image : String
  pub binary_image_resolved : String
  pub bundle_mapping : Dict (List String)
  pub from_index_resolved : Option String
  pub ocp_version : Json
  pub distribution_scope : Json
  pub source_from_index_resolved : Option String
  pub source_ocp_version : Json
  pub target_index_resolved : Option String
  pub target_ocp_version : Json

unfoldable pub info_of : String → Dict IndexInfo → Result IndexInfo
info_of name infos = elim (get name infos) [ some info ↦ ok info | none ↦ err key_error ]

-- `mapping.setdefault(operator, []).append(bundle)`
abbrev pub add_bundle : (operator bundle : String) → Dict (List String) → Dict (List String)
add_bundle operator bundle mapping = elim (get operator mapping) [
  | some bundles ↦ put operator (bundles ++ bundle ∷ []) mapping
  | none ↦ put operator (bundle ∷ []) mapping
]

-- The loop that fills `bundle_mapping`.
unfoldable pub map_bundles :
    Env → Dict (List String) → (bundles : List String) → Exec (Dict (List String))
map_bundles env mapping [] = pure mapping
map_bundles env mapping (bundle ∷ bundles) = do
  operator ← get_image_label env bundle "operators.operatorframework.io.bundle.package.v1"
  map_bundles env
      (if truthy operator then add_bundle (text_of env operator) bundle mapping else mapping)
      bundles

-- `arches - others`
abbrev pub arches_without : (others arches : List String) → List String
arches_without others arches = keep (λ arch. not (contains arch others)) arches

-- `arches.issubset(others)`
abbrev pub is_subset : (arches others : List String) → Bool
is_subset arches others = all (λ arch. contains arch others) arches

abbrev pub arches_missing : (missing : List String) → Exn
arches_missing missing =
    iib_error
      ("The binary image is not available for the following arches: " ⧺ join ", " (sorted missing))

-- What is decided before the binary image is looked at.
abbrev pub scope_for : Env → RequestConfig → (from_index target_index : IndexInfo) → Result Json
scope_for env config from_index target_index =
    validate_distribution_scope (text_of env)
      (if is_set (source_of config)
        then target_index.resolved_distribution_scope
        else from_index.resolved_distribution_scope)
      (scope_of config)

abbrev pub index_versions : Dict String
index_versions =
    ("from_index", "v4.5") ∷ ("source_from_index", "v4.5") ∷ ("target_index", "v4.6") ∷ []

unfoldable pub prepare_request_for_build : Env → (request_id : ℕ) → RequestConfig → Exec Prebuild
unfolding map_bundles info_of
prepare_request_for_build env request_id config = do
  set_request_state env request_id "in_progress" "Resolving the container images"
  infos ← get_all_index_images_info env config index_versions
  arches ← lift (gather_index_image_arches config infos)
  from_index ← lift (info_of "from_index" infos)
  source ← lift (info_of "source_from_index" infos)
  target ← lift (info_of "target_index" infos)
  scope ← lift (scope_for env config from_index target)
  image ← lift (binary_image (text_of env) config from_index.ocp_version scope)
  resolved ← get_resolved_image env image
  image_arches ← get_image_arches env resolved
  raise_if (not (is_subset arches image_arches))
      (arches_missing (arches_without image_arches arches))
  mapping ← map_bundles env [] (bundles_of config)
  pure (record {
    arches = arches;
    binary_image = image;
    binary_image_resolved = resolved;
    bundle_mapping = mapping;
    from_index_resolved = from_index.resolved_from_index;
    ocp_version = from_index.ocp_version;
    distribution_scope = scope;
    source_from_index_resolved = source.resolved_from_index;
    source_ocp_version = source.ocp_version;
    target_index_resolved = target.resolved_from_index;
    target_ocp_version = target.ocp_version;
  })
