-- ===== src/Web/Columns.antt =====
-- The keys that a worker may change on each type of request (`get_mutable_keys` of
-- iib/web/models.py), and the columns of each type that name one image.
use iib.Common.{String, List, [], ◌∷◌, ◌++◌}
use iib.Web.Mappings.{RequestTypeMapping, generic, add, rm, regenerate_bundle, merge_index_image}

-- `Request.get_mutable_keys`
abbrev pub base_mutable_keys : List String
base_mutable_keys = "arches" ∷ "state" ∷ "state_reason" ∷ []

-- `get_index_image_mutable_keys`
abbrev pub index_image_mutable_keys : List String
index_image_mutable_keys =
    "binary_image" ∷ "binary_image_resolved" ∷ "distribution_scope" ∷ "from_bundle_image_resolved"
    ∷ "from_index_resolved" ∷ "index_image" ∷ "index_image_resolved" ∷ []

unfoldable pub get_mutable_keys : RequestTypeMapping → List String
get_mutable_keys generic = base_mutable_keys
get_mutable_keys add =
    base_mutable_keys
    ++ index_image_mutable_keys
    ++ "bundles" ∷ "bundle_mapping" ∷ "omps_operator_version" ∷ []
get_mutable_keys rm = base_mutable_keys ++ index_image_mutable_keys
get_mutable_keys regenerate_bundle =
    base_mutable_keys ++ "bundle_image" ∷ "from_bundle_image_resolved" ∷ []
get_mutable_keys merge_index_image =
    base_mutable_keys
    ++ "binary_image" ∷ "binary_image_resolved" ∷ "distribution_scope" ∷ "index_image"
      ∷ "source_from_index_resolved" ∷ "target_index_resolved" ∷ []

-- A request of another type has no such column, and an attribute that is no column is lost.
unfoldable pub image_columns : RequestTypeMapping → List String
image_columns generic = []
image_columns regenerate_bundle =
    "bundle_image" ∷ "from_bundle_image" ∷ "from_bundle_image_resolved" ∷ []
image_columns merge_index_image =
    "binary_image" ∷ "binary_image_resolved" ∷ "index_image" ∷ "source_from_index"
    ∷ "source_from_index_resolved" ∷ "target_index" ∷ "target_index_resolved" ∷ []
image_columns _ =
    "binary_image" ∷ "binary_image_resolved" ∷ "from_index" ∷ "from_index_resolved" ∷ "index_image"
    ∷ "index_image_resolved" ∷ []
