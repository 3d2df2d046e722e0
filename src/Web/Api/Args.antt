-- ===== src/Web/Api/Args.antt =====
-- The arguments of a task in iib/web/api_v1.py: which they are, which of them are hidden in the
-- log, in which queue the task goes, and whether an overwrite is forced.
pub mod Unique
pub mod Hidden
pub mod Errors
use iib.Common.{
  String, Bool, true, false, ◌&&◌, ◌==◌, Option, none, some, List, [], ◌∷◌, any, contains,
  if◌then◌else◌,
}
use iib.Common.Dict.{Dict, get}
use iib.Common.Text.{◌⧺◌}
use iib.Exn.{Result, ok, err, ◌>>=◌, ◌>>◌, type_error, value_error}
use iib.Json.{Json, null, bool, int, pos, str, arr, obj, nil, truthy, json_eq}
use iib.Web.Tables.{Request}
use iib.Web.Params.{get_or_null, get_or_else}
use iib.Web.Session.{Env}

-- A text or `None`.
abbrev pub str_or_null : Option String → Json
str_or_null none = null
str_or_null (some s) = str s

module _ (env : Env) where
  unfoldable pub get_rm_args : Dict Json → Request → (overwrite : Json) → List Json
  get_rm_args payload request overwrite =
      get_or_null "operators" payload
      ∷ int (pos request.id)
      ∷ get_or_null "from_index" payload
      ∷ get_or_null "binary_image" payload
      ∷ get_or_null "add_arches" payload
      ∷ overwrite
      ∷ get_or_null "overwrite_from_index_token" payload
      ∷ str_or_null request.distribution_scope
      ∷ env.config.binary_image_config
      ∷ []

  unfoldable pub get_add_args :
      Dict Json → Request → (overwrite : Json) → (celery_queue : Option String) → List Json
  get_add_args payload request overwrite celery_queue =
      get_or_else "bundles" (arr nil) payload
      ∷ int (pos request.id)
      ∷ get_or_null "binary_image" payload
      ∷ get_or_null "from_index" payload
      ∷ get_or_null "add_arches" payload
      ∷ get_or_null "cnr_token" payload
      ∷ get_or_null "organization" payload
      ∷ get_or_null "force_backport" payload
      ∷ overwrite
      ∷ get_or_null "overwrite_from_index_token" payload
      ∷ str_or_null request.distribution_scope
      ∷ env.config.greenwave_config celery_queue
      ∷ env.config.binary_image_config
      ∷ get_or_else "deprecation_list" (arr nil) payload
      ∷ []

  unfoldable pub get_merge_args : Dict Json → Request → (overwrite : Json) → List Json
  get_merge_args payload request overwrite =
      get_or_null "source_from_index" payload
      ∷ get_or_else "deprecation_list" (arr nil) payload
      ∷ int (pos request.id)
      ∷ get_or_null "binary_image" payload
      ∷ get_or_null "target_index" payload
      ∷ overwrite
      ∷ get_or_null "overwrite_target_index_token" payload
      ∷ str_or_null request.distribution_scope
      ∷ env.config.binary_image_config
      ∷ []

  -- `_should_force_overwrite`
  unfoldable pub should_force_overwrite : Bool
  should_force_overwrite = elim env.current_user [
    | none ↦ false
    | some username ↦
        contains username env.config.privileged_usernames && env.config.force_overwrite_from_index
  ]

  -- `_should_force_overwrite() or payload.get('overwrite_from_index')`
  unfoldable pub overwrite_of : Dict Json → Json
  unfolding should_force_overwrite
  overwrite_of payload =
      if should_force_overwrite then bool true else get_or_null "overwrite_from_index" payload

  -- `_get_user_queue`: the entry with the label, or else the one without. An empty name is no
  -- queue.
  unfoldable pub get_user_queue : (serial : Bool) → Option String
  get_user_queue serial = elim env.current_user [
    | none ↦ none
    | some username ↦
        let label = (if serial then "SERIAL:" else "PARALLEL:") ⧺ username in
        let plain = get username env.config.user_to_queue in
        elim (get label env.config.user_to_queue) [
          | none ↦ plain
          | some queue ↦ if queue == "" then plain else some queue
        ]
  ]

abbrev pub hidden : Json
hidden = str "*****"

-- `safe_args[safe_args.index(token)] = '*****'`: the first equal argument, or `ValueError`
unfoldable pub hide : Json → List Json → Result (List Json)
hide token [] = err value_error
hide token (a ∷ args) =
    let rest = hide token args in
    if json_eq a token
    then ok (hidden ∷ args)
    else elim rest [ err e ↦ err e | ok hid ↦ ok (a ∷ hid) ]

unfoldable pub hide_if_set : Json → List Json → Result (List Json)
unfolding hide
hide_if_set token args = if truthy token then hide token args else ok args

-- `_get_safe_args`
unfoldable pub get_safe_args : List Json → Dict Json → Result (List Json)
unfolding hide_if_set
get_safe_args args payload = do
  a ← hide_if_set (get_or_null "cnr_token" payload) args
  b ← hide_if_set (get_or_null "overwrite_from_index_token" payload) a
  c ← hide_if_set (get_or_null "overwrite_target_index_token" payload) b
  hide_if_set (get_or_null "registry_auths" payload) c

-- A list or a dict cannot be the key of a dict.
unfoldable pub is_unhashable : Json → Bool
is_unhashable (arr vs) = true
is_unhashable (obj fs) = true
is_unhashable _ = false

-- `list(dict.fromkeys(bundles).keys())`: the first of equal keys stays, in order. `seen` holds the
-- keys before. What is no text is refused by every caller's `from_json`, and is all kept here.
unfoldable pub unique_from : (seen : List String) → List Json → List Json
unique_from seen [] = []
unique_from seen (str s ∷ bundles) =
    let kept = unique_from (s ∷ seen) bundles in
    let dropped = unique_from seen bundles in if contains s seen then dropped else str s ∷ kept
unique_from seen (v ∷ bundles) = v ∷ unique_from seen bundles

-- `_get_unique_bundles`
unfoldable pub get_unique_bundles : List Json → Result (List Json)
unfolding is_unhashable unique_from
get_unique_bundles bundles =
    if any is_unhashable bundles then err type_error else ok (unique_from [] bundles)
