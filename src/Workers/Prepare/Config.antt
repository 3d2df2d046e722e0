-- ===== src/Workers/Prepare/Config.antt =====
-- `RequestConfig` of iib/workers/tasks/utils.py with its two classes, and the binary image that is
-- configured for an OCP version and a distribution scope.
pub mod Equal
use iib.Common.{
  String, Bool, true, false, ◌&&◌, Option, none, some, List, [], ◌∷◌, ◌==◌, map, if◌then◌else◌,
}
use iib.Common.Dict.{Dict}
use iib.Common.Text.{◌⧺◌}
use iib.Exn.{Result, ok, err, ◌>>=◌, iib_error, attribute_error}
use iib.Json.{Json, null, str, arr, obj, of_list, items_eq}
use iib.Workers.Values.{get_by_json, str_or_null, to_fields}

-- Maps a distribution scope to a dict from OCP versions to images.
abbrev pub BinaryImages : Type 0
BinaryImages = Dict (Dict String)

pub record AddRm : Type 0 where
  pub _binary_image : Option String
  pub distribution_scope : Option String
  pub binary_image_config : Option BinaryImages
  pub overwrite_from_index_token : Option String
  pub from_index : Option String
  pub add_arches : Option (List String)
  pub bundles : Option (List String)
  pub operators : Option (List String)

pub record Merge : Type 0 where
  pub _binary_image : Option String
  pub distribution_scope : Option String
  pub binary_image_config : Option BinaryImages
  pub source_from_index : Option String
  pub target_index : Option String
  pub overwrite_target_index_token : Option String

-- `RequestConfigAddRm` or `RequestConfigMerge`
pub data RequestConfig : Type 0 where
  add_rm : AddRm → RequestConfig
  merge : Merge → RequestConfig

-- `x or []`
abbrev pub or_nothing : Option (List String) → List String
or_nothing none = []
or_nothing (some xs) = xs

abbrev pub add_arches_of : RequestConfig → List String
add_arches_of (add_rm c) = or_nothing c.add_arches
add_arches_of (merge c) = []

abbrev pub bundles_of : RequestConfig → List String
bundles_of (add_rm c) = or_nothing c.bundles
bundles_of (merge c) = []

-- `getattr(config, index)` where the class has the attribute
abbrev pub index_of : RequestConfig → String → Option String
index_of (add_rm c) index = if index == "from_index" then c.from_index else none
index_of (merge c) index =
    if index == "source_from_index"
    then c.source_from_index
    else if index == "target_index"
    then c.target_index
    else none

abbrev pub token_of : RequestConfig → Option String
token_of (add_rm c) = c.overwrite_from_index_token
token_of (merge c) = c.overwrite_target_index_token

abbrev pub source_of : RequestConfig → Option String
source_of (add_rm c) = none
source_of (merge c) = c.source_from_index

abbrev pub scope_of : RequestConfig → Option String
scope_of (add_rm c) = c.distribution_scope
scope_of (merge c) = c.distribution_scope

abbrev pub binary_image_of : RequestConfig → Option String
binary_image_of (add_rm c) = c._binary_image
binary_image_of (merge c) = c._binary_image

abbrev pub images_of : RequestConfig → Option BinaryImages
images_of (add_rm c) = c.binary_image_config
images_of (merge c) = c.binary_image_config

abbrev pub or_no_images : Option (Dict String) → Dict String
or_no_images none = []
or_no_images (some images) = images

abbrev no_binary_image : (distribution_scope ocp_version : String) → Result String
no_binary_image distribution_scope ocp_version = err (
    iib_error (
      "IIB does not have a configured binary_image for distribution_scope : " ⧺ distribution_scope
      ⧺ " and ocp_version: " ⧺ ocp_version ⧺ "."
      ⧺ " Please specify a binary_image value in the request."))

-- `text` is Python's `str`, for the message.
module _ (text : Json → String) where
  unfoldable pub get_binary_image_from_config :
      (ocp_version distribution_scope : Json) → Option BinaryImages → Result String
  get_binary_image_from_config ocp_version distribution_scope none = err attribute_error
  get_binary_image_from_config ocp_version distribution_scope (some binary_image_config) =
      get_by_json distribution_scope binary_image_config >>= λ images.
      get_by_json ocp_version (or_no_images images) >>= λ image. elim image [
        | none ↦ no_binary_image (text distribution_scope) (text ocp_version)
        | some image ↦
            if image == ""
            then no_binary_image (text distribution_scope) (text ocp_version)
            else ok image
      ]

  -- The method `RequestConfig.binary_image`.
  unfoldable pub binary_image :
      RequestConfig → (ocp_version distribution_scope : Json) → Result String
  unfolding get_binary_image_from_config
  binary_image config ocp_version distribution_scope = elim (binary_image_of config) [
    | none ↦ get_binary_image_from_config ocp_version distribution_scope (images_of config)
    | some image ↦
        if image == ""
        then get_binary_image_from_config ocp_version distribution_scope (images_of config)
        else ok image
  ]

abbrev list_or_null : Option (List String) → Json
list_or_null none = null
list_or_null (some xs) = arr (of_list (map str xs))

abbrev text_fields : Dict String → Dict Json
text_fields [] = []
text_fields ((k, v) ∷ d) = (k, str v) ∷ text_fields d

abbrev image_fields : BinaryImages → Dict Json
image_fields [] = []
image_fields ((k, d) ∷ images) = (k, obj (to_fields (text_fields d))) ∷ image_fields images

abbrev images_or_null : Option BinaryImages → Json
images_or_null none = null
images_or_null (some images) = obj (to_fields (image_fields images))

-- `[getattr(self, x) for x in self.__slots__]`
unfoldable pub slots : RequestConfig → List Json
slots (add_rm c) =
    str_or_null c._binary_image
    ∷ str_or_null c.distribution_scope
    ∷ images_or_null c.binary_image_config
    ∷ str_or_null c.overwrite_from_index_token
    ∷ str_or_null c.from_index
    ∷ list_or_null c.add_arches
    ∷ list_or_null c.bundles
    ∷ list_or_null c.operators
    ∷ []
slots (merge c) =
    str_or_null c._binary_image
    ∷ str_or_null c.distribution_scope
    ∷ images_or_null c.binary_image_config
    ∷ str_or_null c.source_from_index
    ∷ str_or_null c.target_index
    ∷ str_or_null c.overwrite_target_index_token
    ∷ []

unfoldable pub same_class : RequestConfig → RequestConfig → Bool
same_class (add_rm a) (add_rm b) = true
same_class (merge a) (merge b) = true
same_class _ _ = false

-- `RequestConfig.__eq__`: both lists that it compares are of `self`.
unfoldable pub request_config_eq : (self other : RequestConfig) → Bool
unfolding slots same_class
request_config_eq self other =
    same_class self other && items_eq (of_list (slots self)) (of_list (slots self))
