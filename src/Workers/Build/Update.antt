-- ===== src/Workers/Build/Update.antt =====
-- What iib/workers/tasks/build.py reports of a build: `_update_index_image_build_state` and
-- `_update_index_image_pull_spec`.
use iib.Common.{
  ℕ, String, Bool, true, false, ◌&&◌, Option, none, some, List, [], ◌∷◌, ◌++◌, ◌==◌, map,
  if◌then◌else◌,
}
use iib.Common.Dict.{Dict}
use iib.Common.Text.{◌⧺◌}
use iib.Common.Find.{join, sorted, replace_first}
use iib.Json.{Json, str, arr, obj, of_list}
use iib.Workers.Values.{is_set, to_fields}
use iib.Workers.Exec.{Env, Exec, pure, ◌>>=◌, ◌>>◌}
use iib.Workers.Docker.{set_registry_token}
use iib.Workers.Api.{update_request}
use iib.Workers.Images.{get_resolved_image}
use iib.Workers.Prepare.{Prebuild}
use iib.Workers.Build.Overwrite.{overwrite_from_index}

abbrev pub texts : List String → Json
texts ss = arr (of_list (map str ss))

abbrev pub mapping_fields : Dict (List String) → Dict Json
mapping_fields [] = []
mapping_fields ((k, ss) ∷ d) = (k, texts ss) ∷ mapping_fields d

-- `if value: payload[key] = value`
abbrev pub field_if : (key : String) → Option String → Dict Json
field_if key none = []
field_if key (some value) = if value == "" then [] else (key, str value) ∷ []

abbrev pub mapping_if : Dict (List String) → Dict Json
mapping_if [] = []
mapping_if (entry ∷ mapping) =
    ("bundle_mapping", obj (to_fields (mapping_fields (entry ∷ mapping)))) ∷ []

unfoldable pub build_state_payload : Prebuild → Dict Json
build_state_payload info =
    (("binary_image", str info.binary_image)
      ∷ ("binary_image_resolved", str info.binary_image_resolved)
      ∷ ("state", str "in_progress")
      ∷ ("distribution_scope", info.distribution_scope)
      ∷ (
        "state_reason",
        str (
            "Building the index image for the following arches: " ⧺ join ", " (sorted info.arches)),
      )
      ∷ [])
    ++ (mapping_if info.bundle_mapping
        ++ (field_if "from_index_resolved" info.from_index_resolved
            ++ (field_if "source_from_index_resolved" info.source_from_index_resolved
                ++ field_if "target_index_resolved" info.target_index_resolved)))

-- `_update_index_image_build_state`
unfoldable pub update_index_image_build_state : Env → (request_id : ℕ) → Prebuild → Exec Json
unfolding build_state_payload
update_index_image_build_state env request_id info =
    update_request env request_id (build_state_payload info)
      (some "Failed setting the resolved images on the request")

-- The image that the request gets where nothing is overwritten.
abbrev pub output_image : Env → String → String
output_image env output_pull_spec = elim env.config.iib_index_image_output_registry [
  | none ↦ output_pull_spec
  | some registry ↦
      if registry == ""
      then output_pull_spec
      else replace_first env.config.iib_registry registry output_pull_spec
]

abbrev pub or_empty_text : Option String → String
or_empty_text none = ""
or_empty_text (some s) = s

unfoldable pub place_index_image :
    Env
    → (request_id : ℕ) → (output_pull_spec : String) → (from_index : Option String)
    → (overwrite : Bool) → (token resolved_prebuild_from_index : Option String) → Exec String
place_index_image env request_id output_pull_spec from_index overwrite token resolved_prebuild =
    if is_set from_index && overwrite
    then (do
      overwrite_from_index env request_id output_pull_spec (or_empty_text from_index)
          resolved_prebuild token
      pure (or_empty_text from_index))
    else pure (output_image env output_pull_spec)

abbrev pub resolve_if :
    Env → (add_or_rm : Bool) → (token : Option String) → (index_image : String) → Exec (Dict Json)
resolve_if env false token index_image = pure []
resolve_if env true token index_image = do
  resolved ← set_registry_token env token (some index_image) (get_resolved_image env index_image)
  pure (("index_image_resolved", str resolved) ∷ [])

unfoldable pub pull_spec_payload :
    Env → (arches : List String) → (index_image : String) → (resolved : Dict Json) → Dict Json
pull_spec_payload env arches index_image resolved =
    ("arches", texts (env.listed arches)) ∷ ("index_image", str index_image) ∷ resolved

-- `_update_index_image_pull_spec`
unfoldable pub update_index_image_pull_spec :
    Env
    → (output_pull_spec : String) → (request_id : ℕ) → (arches : List String)
    → (from_index : Option String) → (overwrite : Bool)
    → (token resolved_prebuild_from_index : Option String) → (add_or_rm : Bool) → Exec Json
unfolding place_index_image pull_spec_payload
update_index_image_pull_spec env output_pull_spec request_id arches from_index overwrite token
      resolved_prebuild add_or_rm =
    do
      index_image ←
          place_index_image env request_id output_pull_spec from_index overwrite token
            resolved_prebuild
      resolved ← resolve_if env add_or_rm token index_image
      update_request env request_id (pull_spec_payload env arches index_image resolved)
          (some "Failed setting the index image on the request")
