-- ===== src/Workers/Frames/Prepare.antt =====
-- The preparation of a request keeps what `Allows` allows.
use iib.Common.{ℕ, String, Option, none, some, List, [], ◌∷◌, if◌then◌else◌}
use iib.Common.Dict.{Dict}
use iib.Web.Mappings.{RequestTypeMapping}
use iib.Workers.Exec.{Env}
use iib.Workers.Exec.Keeps.{Frame, Keeps, Keeps-pure, Keeps-bind, keeping_rules}
use iib.Workers.Frames.{Allows, Keeps-set_registry_token, Keeps-set_request_state}
use iib.Workers.Frames.Images.{
  Keeps-get_resolved_image, Keeps-get_image_label, Keeps-get_image_arches,
}
use iib.Json.{truthy}
use iib.Workers.Api.{text_of}
use iib.Workers.Prepare.{add_bundle}
use iib.Workers.Images.{get_image_label}
use iib.Workers.Prepare.Config.{RequestConfig}
use iib.Workers.Prepare.{
  get_index_image_info, get_all_index_images_info, map_bundles, prepare_request_for_build,
}

module _ {env : Env} {type : RequestTypeMapping} {request_id : ℕ} {F : Frame}
    (a : Allows env type request_id F) where
  Keeps-get_index_image_info :
      (token from_index : Option String) (version : String)
      → Keeps F (get_index_image_info env token from_index version)
  unfolding get_index_image_info
  Keeps-get_index_image_info token none version = Keeps-pure _
  Keeps-get_index_image_info token (some image) version =
      search
        (
          keeping_rules,
          Keeps-set_registry_token a,
          Keeps-get_resolved_image a,
          Keeps-get_image_arches a,
          Keeps-get_image_label a,
        )
        depth 20

  Keeps-get_all_index_images_info :
      (config : RequestConfig) (versions : Dict String)
      → Keeps F (get_all_index_images_info env config versions)
  unfolding get_all_index_images_info
  Keeps-get_all_index_images_info config versions =
      search (keeping_rules, Keeps-get_index_image_info) depth 20

  Keeps-map_bundles :
      (mapping : Dict (List String)) (bundles : List String)
      → Keeps F (map_bundles env mapping bundles)
  unfolding map_bundles
  Keeps-map_bundles mapping [] = Keeps-pure mapping
  Keeps-map_bundles mapping (bundle ∷ bundles) =
      Keeps-bind (get_image_label env bundle "operators.operatorframework.io.bundle.package.v1") _
        (Keeps-get_image_label a _ _)
        (λ operator.
          Keeps-map_bundles
            (if truthy operator then add_bundle (text_of env operator) bundle mapping else mapping)
            bundles)

  pub Keeps-prepare_request_for_build :
      (config : RequestConfig) → Keeps F (prepare_request_for_build env request_id config)
  unfolding prepare_request_for_build
  Keeps-prepare_request_for_build config =
      search
        (
          keeping_rules,
          Keeps-set_request_state a,
          Keeps-get_all_index_images_info,
          Keeps-get_resolved_image a,
          Keeps-get_image_arches a,
          Keeps-map_bundles,
        )
        depth 30
