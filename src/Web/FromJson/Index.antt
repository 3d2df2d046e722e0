-- ===== src/Web/FromJson/Index.antt =====
-- What the `from_json` methods of iib/web/models.py share: the tests on the overwrite, scope and
-- binary image parameters, the batch, the initial state, and `RequestIndexImageMixin._from_json`.
use iib.Common.{
  ℕ, String, false, not, ◌&&◌, Option, none, some, List, [], ◌∷◌, ◌++◌, contains, if◌then◌else◌,
}
use iib.Common.Dict.{Dict, get, put}
use iib.Common.Text.{lowers_to}
use iib.Exn.{
  Result, ok, err, validation_error, forbidden, not_privileged, attribute_error, not_string,
  no_index_nor_arches, overwrite_not_bool, token_not_string, overwrite_required, bad_scope,
  binary_image_not_string, binary_image_required,
}
use iib.Json.{Json, null, bool, str, arr, nil, truthy, is_bool, is_str}
use iib.Web.Mappings.{RequestTypeMapping}
use iib.Web.Tables.{Request}
use iib.Web.Request.{add_state}
use iib.Web.Params.{get_or_null, get_or_else, validate_request_params, validate_architecture_json}
use iib.Web.Session.{
  Env, Exec, pure, raise, lift, raise_if, ◌>>=◌, ◌>>◌, get_or_create_image, request_ids, batch_ids,
  all_state_ids,
}

-- The text of a string; only called on one.
abbrev pub text : Json → String
text (str s) = s
text _ = ""

-- `overwrite_from_index` and its token, or `overwrite_target_index` and its token.
unfoldable pub check_overwrite : (overwrite token : Json) → Result (Unit {0})
check_overwrite overwrite token =
    if not (is_bool overwrite)
    then err (validation_error overwrite_not_bool)
    else if not (truthy token)
    then ok tt
    else if not (is_str token)
    then err (validation_error token_not_string)
    else if not (truthy overwrite)
    then err (validation_error overwrite_required)
    else ok tt

-- The scope in lower case, if one is given. A value that is no string has no `lower`.
unfoldable pub check_scope : Json → Result (Option String)
unfolding lowers_to
check_scope v =
    if not (truthy v)
    then ok none
    else if not (is_str v)
    then err attribute_error
    else if lowers_to (text v) "prod"
    then ok (some "prod")
    else if lowers_to (text v) "stage"
    then ok (some "stage")
    else if lowers_to (text v) "dev"
    then ok (some "dev")
    else err (validation_error bad_scope)

-- `None` and a missing key are the same here.
unfoldable pub check_binary_image : (config binary_image : Json) → Result (Unit {0})
check_binary_image config null =
    if not (truthy config) then err (validation_error binary_image_required) else ok tt
check_binary_image config (str s) =
    if not (truthy (str s)) && not (truthy config)
    then err (validation_error binary_image_required)
    else ok tt
check_binary_image config _ = err (validation_error binary_image_not_string)

-- `if v: Image.get_or_create(v)`
unfoldable pub image_if_set : Json → Exec (Option String)
image_if_set v =
    if truthy v then (do i ← get_or_create_image (text v); pure (some i)) else pure none

-- Only an authenticated user who is not privileged is refused.
unfoldable pub check_privileged : Env → (overwrite token : Json) → Result (Unit {0})
check_privileged env overwrite token = elim env.current_user [
  | none ↦ ok tt
  | some username ↦
      if truthy overwrite
        && not (truthy token)
        && not (contains username env.config.privileged_usernames)
      then err (forbidden not_privileged)
      else ok tt
]

module _ (env : Env) where
  -- `Batch(annotations=...)`, added to the session
  unfoldable pub add_batch : Option Json → Exec ℕ
  unfolding batch_ids
  add_batch annotations w =
      let id = env.next_id (batch_ids w.tables.batches) in
      (
        ok id,
        record w {
          tables = record w.tables {
            batches = w.tables.batches ++ record { id = id; annotations = annotations } ∷ [];
          };
        },
      )

  -- `batch or Batch()`
  unfoldable pub batch_or_new : Option ℕ → Exec ℕ
  batch_or_new none = add_batch none
  batch_or_new (some id) = pure id

  -- `request.add_state('in_progress', 'The request was initiated')`. Its flush inserts the request
  -- too, and gives it its key. The result is the key.
  unfoldable pub insert_request : Request → Exec ℕ
  unfolding request_ids all_state_ids
  insert_request request w =
      let id = env.next_id (request_ids w.tables.requests) in
      let state_id = env.next_id (all_state_ids w.tables.requests) in
      elim (add_state state_id w.now "in_progress" "The request was initiated"
        (record request { id = id })) [
          | err e ↦ (err e, w)
          | ok r ↦ (
            ok id,
            record w { tables = record w.tables { requests = w.tables.requests ++ r ∷ [] } },
          )
        ]

-- A new row of a type: no state yet and no column set but those that every type has.
abbrev pub blank : RequestTypeMapping → (batch : ℕ) → Option String → Request
blank type batch user = record {
  id = 0;
  type = type;
  batch_id = batch;
  user = user;
  architectures = [];
  states = [];
  request_state_id = none;
  state = none;
  images = [];
  bundles = [];
  deprecation_list = [];
  operators = [];
  organization = none;
  omps_operator_version = none;
  distribution_scope = none;
}

-- A column that names an image, where the image is given.
unfoldable pub set_image : String → Option String → Dict String → Dict String
set_image column none images = images
set_image column (some image) images = put column image images

-- What `_from_json` leaves in `request_kwargs`: the parameters that it does not take out, and the
-- objects that it puts in.
pub record IndexKwargs : Type 0 where
  pub rest : Dict Json
  pub binary_image : Option String
  pub from_index : Option String
  pub distribution_scope : Option String
  pub batch : ℕ

abbrev pub index_params : List String
index_params =
    "add_arches" ∷ "binary_image" ∷ "overwrite_from_index" ∷ "overwrite_from_index_token"
    ∷ "distribution_scope" ∷ []

-- `if 'from_index' in request_kwargs`
unfoldable pub from_index_image : Option Json → Exec (Option String)
from_index_image none = pure none
from_index_image (some v) =
    if is_str v
    then (do i ← get_or_create_image (text v); pure (some i))
    else raise (validation_error (not_string "from_index"))

unfoldable pub index_from_json :
    Env → Dict Json → (required optional : List String) → (batch : Option ℕ) → Exec IndexKwargs
index_from_json env params required optional batch = do
  kwargs ← lift (validate_request_params params required (index_params ++ optional))
  raise_if
      (not (truthy (get_or_null "from_index" kwargs))
        && not (truthy (get_or_null "add_arches" kwargs)))
      (validation_error no_index_nor_arches)
  let overwrite = get_or_else "overwrite_from_index" (bool false) kwargs
  let token = get_or_null "overwrite_from_index_token" kwargs
  lift (check_overwrite overwrite token)
  scope ← lift (check_scope (get_or_null "distribution_scope" kwargs))
  lift (check_privileged env overwrite token)
  lift (validate_architecture_json (get_or_else "add_arches" (arr nil) kwargs))
  let binary_image = get_or_null "binary_image" kwargs
  lift (check_binary_image env.config.binary_image_config binary_image)
  image ← image_if_set binary_image
  index ← from_index_image (get "from_index" kwargs)
  id ← batch_or_new env batch
  pure (record {
    rest = kwargs;
    binary_image = image;
    from_index = index;
    distribution_scope = scope;
    batch = id;
  })
