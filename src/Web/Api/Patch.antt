-- ===== src/Web/Api/Patch.antt =====
-- `patch_request` of iib/web/api_v1.py: what a worker reports about a request.
pub mod Quiet
pub mod Atomic
pub mod Columns
pub mod Sound
pub mod Report
use iib.Common.{
  ℕ, String, Bool, true, false, not, ◌&&◌, ◌||◌, ◌==◌, Option, none, some, List, [], ◌∷◌, all, keep,
  contains, if◌then◌else◌,
}
use iib.Common.Dict.{Dict, get, has, keys, put}
use iib.Exn.{
  Result, ok, err, validation_error, forbidden, not_a_worker, not_found, attribute_error, no_keys,
  keys_not_allowed, mapping_format, not_nonempty_string, reason_required, state_required,
  no_omps_version,
}
use iib.Json.{Json, int, pos, str, arr, nil, obj, end, fields, items, truthy, is_str, json_eq}
use iib.Web.Mappings.{RequestTypeMapping, add, validate_state}
use iib.Web.Columns.{get_mutable_keys, image_columns}
use iib.Web.Tables.{Image, RequestState, Request}
use iib.Web.Request.{add_architecture}
use iib.Web.Params.{get_or_null, get_or_else, validate_architecture_json, strings}
use iib.Web.Session.{
  Env, Exec, pure, raise, lift, raise_if, modify, ◌>>=◌, ◌>>◌, commit, get_or_create_image,
  get_or_create_operator, get_or_create_architecture,
}
use iib.Web.Messaging.{find_request, send_message_for_state_change}
use iib.Web.FromJson.Index.{text}
use iib.Web.Api.Broker.{add_state_to, write_request}
use iib.Web.Api.Submit.{as_object}

-- `Request.query.get_or_404(request_id)`
unfoldable pub get_or_404 : ℕ → Exec Request
get_or_404 id w = elim (find_request id w.tables.requests) [
  | none ↦ (err not_found, w)
  | some r ↦ (ok r, w)
]

-- `payload.keys() - request.get_mutable_keys()` must be empty.
unfoldable pub check_keys : RequestTypeMapping → Dict Json → Result (Unit {0})
unfolding get_mutable_keys
check_keys type payload =
    elim (keep (λ k. not (contains k (get_mutable_keys type))) (keys payload)) [
      | [] ↦ ok tt
      | k ∷ ks ↦ err (validation_error (keys_not_allowed (k ∷ ks)))
    ]

-- `isinstance(v, list)` and every item a string
unfoldable pub is_list_of_str : Json → Bool
is_list_of_str (arr vs) = all is_str (items vs)
is_list_of_str _ = false

unfoldable pub is_mapping : Json → Bool
unfolding is_list_of_str
is_mapping (obj fs) = all (λ (_, v). is_list_of_str v) (fields fs)
is_mapping _ = false

-- One round of the loop over `payload.items()`.
unfoldable pub check_item : String → Json → Result (Unit {0})
unfolding is_mapping
check_item key value =
    if key == "arches"
    then validate_architecture_json value
    else if key == "bundle_mapping"
    then (if is_mapping value then ok tt else err (validation_error (mapping_format key)))
    else if not (truthy value) || not (is_str value)
    then err (validation_error (not_nonempty_string key))
    else ok tt

unfoldable pub check_items : Dict Json → Result (Unit {0})
unfolding check_item
check_items [] = ok tt
check_items ((k, v) ∷ payload) =
    let rest = check_items payload in elim (check_item k v) [ err e ↦ err e | ok _ ↦ rest ]

-- A state and its reason come together.
unfoldable pub check_reason : Dict Json → Result (Unit {0})
check_reason payload =
    if has "state" payload && not (has "state_reason" payload)
    then err (validation_error reason_required)
    else if has "state_reason" payload && not (has "state" payload)
    then err (validation_error state_required)
    else ok tt

-- `request.state.state == new_state and request.state.state_reason == new_state_reason`: the first
-- comparison is of a number with a text.
unfoldable pub is_same_state : RequestState → (new_state new_state_reason : Json) → Bool
is_same_state s new_state new_state_reason =
    json_eq (int (pos s.state)) new_state && json_eq (str s.state_reason) new_state_reason

module _ (env : Env) where
  -- A new state, unless it is the same as the loaded one. The result is `state_updated`.
  unfoldable pub apply_state :
      (id : ℕ) → Option RequestState → (new_state new_state_reason : Json) → Exec Bool
  apply_state id none new_state new_state_reason = raise attribute_error
  apply_state id (some s) new_state new_state_reason =
      if is_same_state s new_state new_state_reason
      then pure false
      else (do add_state_to env id (text new_state) (text new_state_reason); pure true)

  unfoldable pub patch_state : Request → Dict Json → Exec Bool
  unfolding apply_state
  patch_state r payload =
      if has "state" payload && has "state_reason" payload
      then (do
        lift (validate_state (text (get_or_null "state" payload)))
        apply_state r.id r.state (get_or_null "state" payload) (get_or_null "state_reason" payload))
      else pure false

-- A change to the row of a request of the session.
unfoldable pub update_request : ℕ → (Request → Request) → Exec (Unit {0})
update_request id f w = elim (find_request id w.tables.requests) [
  | none ↦ (err attribute_error, w)
  | some r ↦ (ok tt, write_request (f r) w)
]

unfoldable pub is_add : RequestTypeMapping → Bool
is_add add = true
is_add _ = false

unfoldable pub patch_omps : Request → Dict Json → Exec (Unit {0})
unfolding is_add update_request
patch_omps r payload =
    if not (has "omps_operator_version" payload)
    then pure tt
    else if not (is_add r.type)
    then raise (validation_error (no_omps_version r.id))
    else update_request r.id (λ x. record x {
      omps_operator_version = some (text (get_or_null "omps_operator_version" payload));
    })

abbrev pub image_keys : List String
image_keys =
    "binary_image" ∷ "binary_image_resolved" ∷ "bundle_image" ∷ "from_bundle_image_resolved"
    ∷ "from_index_resolved" ∷ "index_image" ∷ "index_image_resolved" ∷ "source_from_index_resolved"
    ∷ "target_index_resolved" ∷ []

-- `setattr(request, key, key_object)`
unfoldable pub set_image_column : String → String → Request → Request
set_image_column key spec r =
    if contains key (image_columns r.type) then record r { images = put key spec r.images } else r

-- One round of the loop over `image_keys`, for the value under the key.
unfoldable pub patch_image : ℕ → (key : String) → Option Json → Exec (Unit {0})
unfolding update_request set_image_column
patch_image id key none = pure tt
patch_image id key (some v) = do
  spec ← get_or_create_image (text v)
  update_request id (set_image_column key spec)

unfoldable pub patch_images : ℕ → Dict Json → List String → Exec (Unit {0})
unfolding patch_image
patch_images id payload [] = pure tt
patch_images id payload (key ∷ image_keys) = do
  patch_image id key (get key payload)
  patch_images id payload image_keys

unfoldable pub patch_arches : ℕ → List String → Exec (Unit {0})
unfolding update_request add_architecture
patch_arches id [] = pure tt
patch_arches id (arch ∷ arches) = do
  name ← get_or_create_architecture arch
  update_request id (add_architecture name)
  patch_arches id arches

-- `bundle_img.operator = operator_img`
unfoldable pub set_operator : (spec operator : String) → List Image → List Image
set_operator spec operator [] = []
set_operator spec operator (i ∷ images) =
    let rest = set_operator spec operator images in
    if i.pull_specification == spec then record i { operator = some operator } ∷ rest else i ∷ rest

unfoldable pub patch_bundles : (operator : String) → List String → Exec (Unit {0})
unfolding set_operator
patch_bundles operator [] = pure tt
patch_bundles operator (bundle ∷ bundles) = do
  spec ← get_or_create_image bundle
  modify (λ w. record w {
    tables = record w.tables { images = set_operator spec operator w.tables.images };
  })
  patch_bundles operator bundles

unfoldable pub patch_mapping : Dict Json → Exec (Unit {0})
unfolding patch_bundles
patch_mapping [] = pure tt
patch_mapping ((operator, bundles) ∷ mapping) = do
  name ← get_or_create_operator operator
  patch_bundles name (strings bundles)
  patch_mapping mapping

-- The object under a key; only called on one.
abbrev pub object : Json → Dict Json
object (obj fs) = fields fs
object _ = []

-- `if 'distribution_scope' in payload`, for the value under the key
unfoldable pub patch_scope : ℕ → Option Json → Exec (Unit {0})
unfolding update_request
patch_scope id none = pure tt
patch_scope id (some v) = update_request id (λ x. record x { distribution_scope = some (text v) })

-- A user who is authenticated must be a worker.
unfoldable pub check_worker : Env → Result (Unit {0})
check_worker env = elim env.current_user [
  | none ↦ ok tt
  | some username ↦
      if contains username env.config.worker_usernames then ok tt else err (forbidden not_a_worker)
]

-- The result is `state_updated`.
unfoldable pub patch_request : Env → ℕ → Json → Exec Bool
unfolding check_worker as_object get_or_404 check_keys check_items check_reason
patch_request env id json = do
  lift (check_worker env)
  payload ← lift (as_object json)
  raise_if (not (truthy json)) (validation_error no_keys)
  r ← get_or_404 id
  lift (check_keys r.type payload)
  lift (check_items payload)
  lift (check_reason payload)
  state_updated ← patch_state env r payload
  patch_omps r payload
  patch_images id payload image_keys
  patch_arches id (strings (get_or_else "arches" (arr nil) payload))
  patch_mapping (object (get_or_else "bundle_mapping" (obj end) payload))
  patch_scope id (get "distribution_scope" payload)
  commit
  if state_updated then send_message_for_state_change env id false else pure tt
  pure state_updated
