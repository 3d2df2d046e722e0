-- ===== src/Workers/Frames/Images.antt =====
-- The functions that ask about images keep what `Allows` allows.
use iib.Common.{ℕ, String, List, [], ◌∷◌}
use iib.Common.Dict.{Dict}
use iib.Json.{Json}
use iib.Web.Mappings.{RequestTypeMapping}
use iib.Workers.Exec.{Env}
use iib.Workers.Exec.Keeps.{Frame, Keeps, Keeps-lift, Keeps-pure, keeping_rules}
use iib.Workers.Retry.Attempts.{Keeps-retry}
use iib.Workers.Images.{
  Inspect, plain, as_text, require_media_type, inspected, skopeo_inspect_once, skopeo_inspect,
  podman_pull, digest_of_output, get_resolved_image, get_resolved_bundle, get_resolved_bundles,
  get_image_labels, get_image_label, get_image_arches, verify_with, verify_labels,
}
use iib.Workers.Frames.{Allows, Keeps-run_cmd, Keeps-dogpile_cache}

module _ {env : Env} {type : RequestTypeMapping} {request_id : ℕ} {F : Frame}
    (a : Allows env type request_id F) where
  Keeps-inspected : (how : Inspect) (output : String) → Keeps F (inspected env how output)
  Keeps-inspected plain output = Keeps-lift _
  Keeps-inspected as_text output = Keeps-pure _
  Keeps-inspected require_media_type output = search keeping_rules depth 12

  Keeps-skopeo_inspect_once :
      (args : List String) (how : Inspect) → Keeps F (skopeo_inspect_once env args how)
  unfolding skopeo_inspect_once
  Keeps-skopeo_inspect_once args how =
      search (keeping_rules, Keeps-run_cmd a, Keeps-inspected) depth 12

  pub Keeps-skopeo_inspect :
      (args : List String) (how : Inspect) → Keeps F (skopeo_inspect env args how)
  unfolding skopeo_inspect
  Keeps-skopeo_inspect args how =
      Keeps-retry _ _ (Keeps-dogpile_cache a _ _ _ (Keeps-skopeo_inspect_once args how))

  pub Keeps-podman_pull : (args : List String) → Keeps F (podman_pull env args)
  unfolding podman_pull
  Keeps-podman_pull args = Keeps-retry _ _ (search (keeping_rules, Keeps-run_cmd a) depth 12)

  Keeps-digest_of_output :
      (pull_spec output : String) (v : Json) → Keeps F (digest_of_output env pull_spec output v)
  Keeps-digest_of_output pull_spec output v = search (keeping_rules, Keeps-skopeo_inspect) depth 12

  pub Keeps-get_resolved_image : (pull_spec : String) → Keeps F (get_resolved_image env pull_spec)
  unfolding get_resolved_image
  Keeps-get_resolved_image pull_spec =
      search (keeping_rules, Keeps-skopeo_inspect, Keeps-digest_of_output) depth 20

  Keeps-get_resolved_bundle : (pull_spec : String) → Keeps F (get_resolved_bundle env pull_spec)
  unfolding get_resolved_bundle
  Keeps-get_resolved_bundle pull_spec =
      search (keeping_rules, Keeps-skopeo_inspect, Keeps-get_resolved_image) depth 20

  pub Keeps-get_resolved_bundles :
      (bundles : List String) → Keeps F (get_resolved_bundles env bundles)
  unfolding get_resolved_bundles
  Keeps-get_resolved_bundles bundles = search (keeping_rules, Keeps-get_resolved_bundle) depth 20

  pub Keeps-get_image_labels : (pull_spec : String) → Keeps F (get_image_labels env pull_spec)
  unfolding get_image_labels
  Keeps-get_image_labels pull_spec = search (keeping_rules, Keeps-skopeo_inspect) depth 20

  pub Keeps-get_image_label :
      (pull_spec label : String) → Keeps F (get_image_label env pull_spec label)
  unfolding get_image_label
  Keeps-get_image_label pull_spec label = search (keeping_rules, Keeps-get_image_labels) depth 20

  pub Keeps-get_image_arches : (pull_spec : String) → Keeps F (get_image_arches env pull_spec)
  unfolding get_image_arches
  Keeps-get_image_arches pull_spec = search (keeping_rules, Keeps-skopeo_inspect) depth 20

  Keeps-verify_with :
      (required : Dict Json) (bundles : List String) → Keeps F (verify_with env required bundles)
  Keeps-verify_with [] bundles = Keeps-pure tt
  Keeps-verify_with (label ∷ labels) bundles =
      search (keeping_rules, Keeps-get_image_labels) depth 20

  pub Keeps-verify_labels : (bundles : List String) → Keeps F (verify_labels env bundles)
  unfolding verify_labels
  Keeps-verify_labels bundles = Keeps-verify_with _ bundles
