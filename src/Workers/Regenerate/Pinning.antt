-- ===== src/Workers/Regenerate/Pinning.antt =====
-- How iib/workers/tasks/build_regenerate_bundle.py pins the images that a bundle's manifests name.
-- The files that the code shares between lists stand in one list, and a file is known by its path.
use iib.Common.{String, Bool, true, false, List, [], ◌∷◌, contains, if◌then◌else◌}
use iib.Common.Dict.{Dict, put}
use iib.Common.Text.{has_char}
use iib.Json.{Json, null, truthy}
use iib.Workers.Values.{dot_get}
use iib.Workers.Exec.{Env, Exec, OperatorCsv, pure, lift, emit, wrote, for_each, ◌>>=◌, ◌>>◌}
use iib.Workers.Api.{text_of}
use iib.Workers.Images.{get_resolved_image}
use iib.Workers.Regenerate.Contents.{BundleMetadata}

-- What the loop over `found_pullspecs` changes.
pub record Pinning : Type 0 where
  pub labels : Dict String
  pub replacement_pullspecs : Dict String

-- A pull specification and whether it takes the place of the one that was found.
pub record NewPullspec : Type 0 where
  pub replacement_needed : Bool
  pub new_pullspec : String

-- `':' in ImageName.parse(pullspec).tag`
abbrev pub is_pinned : Env → (pullspec : String) → Bool
is_pinned env pullspec = has_char b':' (env.manifests.tag_of pullspec)

abbrev pub pin : Env → (pinned_by_iib : Bool) → (pullspec : String) → Exec NewPullspec
pin env true pullspec = pure (record { replacement_needed = false; new_pullspec = pullspec })
pin env false pullspec = do
  resolved_image ← get_resolved_image env pullspec
  pure (
      if is_pinned env pullspec
      then record { replacement_needed = false; new_pullspec = pullspec }
      else record { replacement_needed = true; new_pullspec = resolved_image })

abbrev move : Env → (new_registry : Json) → NewPullspec → NewPullspec
move env new_registry p =
    if truthy new_registry
    then record {
      replacement_needed = true;
      new_pullspec = env.manifests.with_registry (text_of env new_registry) p.new_pullspec;
    }
    else p

abbrev replace_if : (pullspec : String) → NewPullspec → Dict String → Dict String
replace_if pullspec p replacements =
    if p.replacement_needed then put pullspec p.new_pullspec replacements else replacements

-- A round of the loop over `found_pullspecs`. Only `pin` has asked for a replacement before the
-- registry is looked up, and it sets the label then.
unfoldable pub resolve_pullspec :
    Env
    → (pinned_by_iib : Bool) → (registry_replacements : Json) → Pinning
    → (pullspec : String) → Exec Pinning
resolve_pullspec env pinned_by_iib registry_replacements s pullspec = do
  p ← pin env pinned_by_iib pullspec
  new_registry ← lift (dot_get (env.registry_of p.new_pullspec) null registry_replacements)
  pure (record {
    labels = if p.replacement_needed then put "com.redhat.iib.pinned" "true" s.labels else s.labels;
    replacement_pullspecs = replace_if pullspec (move env new_registry p) s.replacement_pullspecs;
  })

unfoldable pub resolve_pullspecs :
    Env
    → (pinned_by_iib : Bool) → (registry_replacements : Json) → Pinning
    → (pullspecs : List String) → Exec Pinning
unfolding resolve_pullspec
resolve_pullspecs env pinned_by_iib registry_replacements s [] = pure s
resolve_pullspecs env pinned_by_iib registry_replacements s (pullspec ∷ pullspecs) = do
  next ← resolve_pullspec env pinned_by_iib registry_replacements s pullspec
  resolve_pullspecs env pinned_by_iib registry_replacements next pullspecs

-- `operator_csv.dump()`
abbrev pub dump : Env → OperatorCsv → Exec OperatorCsv
dump env csv = do emit (wrote csv.path (env.yaml_dump csv.contents)); pure csv

-- A round of the loop over `operator_csvs`; the other files stay as they are.
unfoldable pub replace_in :
    Env
    → (operator_csvs : List String) → (replacement_pullspecs : Dict String) → OperatorCsv
    → Exec OperatorCsv
replace_in env operator_csvs replacements csv =
    if contains csv.path operator_csvs
    then (do
      contents ← lift (
          env.manifests.set_related_images
            (env.manifests.replace_pullspecs_everywhere replacements csv.contents))
      dump env (record { path = csv.path; contents = contents }))
    else pure csv

-- What the customizations change.
pub record Bundle : Type 0 where
  pub package_name : String
  pub labels : Dict String
  pub files : List OperatorCsv

-- `_resolve_image_pull_specs`
unfoldable pub resolve_image_pull_specs :
    Env
    → BundleMetadata
    → (pinned_by_iib : Bool) → (registry_replacements : Json) → Bundle
    → Exec Bundle
unfolding resolve_pullspecs replace_in
resolve_image_pull_specs env m pinned_by_iib registry_replacements b = do
  pinning ←
      resolve_pullspecs env pinned_by_iib registry_replacements
        (record { labels = b.labels; replacement_pullspecs = [] }) (env.listed m.found_pullspecs)
  files ← for_each (replace_in env m.operator_csvs pinning.replacement_pullspecs) b.files
  pure (record { package_name = b.package_name; labels = pinning.labels; files = files })
