-- ===== src/Web/Tables.antt =====
-- The rows of iib/web/models.py. An image, an operator, an architecture and a user stand by the
-- text that is unique to them, and what refers to one holds that text.
use iib.Common.{ℕ, String, Option, List}
use iib.Common.Dict.{Dict}
use iib.Json.{Json}
use iib.Web.Mappings.{RequestTypeMapping}

-- The operator of an image is the name of a row of `operators`.
pub record Image : Type 0 where
  pub pull_specification : String
  pub operator : Option String

-- `state` is a value of `RequestStateMapping`; `updated` is the time of the insertion.
pub record RequestState : Type 0 where
  pub id : ℕ
  pub state : ℕ
  pub state_reason : String
  pub updated : ℕ

-- `states` is in the order of insertion. `state` is what the session has loaded for the
-- relationship of `request_state_id`: it is read again only after a commit.
-- `images` holds the columns that name one image, by the name of the column.
-- `omps_operator_version` holds the text of a JSON object.
pub record Request : Type 0 where
  pub id : ℕ
  pub type : RequestTypeMapping
  pub batch_id : ℕ
  pub user : Option String
  pub architectures : List String
  pub states : List RequestState
  pub request_state_id : Option ℕ
  pub state : Option RequestState
  pub images : Dict String
  pub bundles : List String
  pub deprecation_list : List String
  pub operators : List String
  pub organization : Option Json
  pub omps_operator_version : Option String
  pub distribution_scope : Option String

pub record Batch : Type 0 where
  pub id : ℕ
  pub annotations : Option Json

pub record Tables : Type 0 where
  pub images : List Image
  pub operators : List String
  pub architectures : List String
  pub users : List String
  pub batches : List Batch
  pub requests : List Request
