-- ===== src/Tests/Submissions.antt =====
-- Submissions: accepted, refused, and not taken by the broker.
use iib.Common.{arith, ℕ, ◌≢◌, ◌≡◌, refl, true, false, some, none, [], ◌∷◌, dec_str}
use iib.Common.Text.{has_char}
use iib.Common.Dict.{get, has, keys, put, remove}
use iib.Web.Errors.{status_code}
use iib.Exn.{ok, err, validation_error, image_without_tag, at_index}
use iib.Json.{
  fields, Json, Fields, str, bool, arr, nil, cons, obj, end, field, json_eq, truthy, is_bool,
  is_str, is_list, is_dict,
}
use iib.Web.Mappings.{state_of_value}
use iib.Web.Request.{add_state, state_int, name_of, name_of_value, refresh, find_state}
use iib.Web.Batch.{
  requests_of, request_states, batch_state, batch_user, validate_batch_request_params,
  loaded_state_name,
}
use iib.Web.Params.{
  get_or_null, get_or_else, strings, is_str_list, validate_request_params,
  validate_architecture_json, missing, invalid, require_set, drop_empty,
}
use iib.Web.Session.{
  Env, handle_add_request, serve, commit, rollback, get_or_create_image, get_or_create_operator,
  image_names, for_each,
}
use iib.Web.Session.Quiet.{SameOutside}
use iib.Web.Session.Images.{HasImage, get_or_create_image-HasImage}
use iib.Web.Messaging.{
  find_request, request_envelope, batch_envelope, send_messages, send_message_for_state_change,
}
use iib.Web.FromJson.Index.{
  index_from_json, check_overwrite, check_scope, check_privileged, check_binary_image, image_if_set,
  from_index_image, batch_or_new, add_batch, insert_request, set_image,
}
use iib.Web.FromJson.Add.{add_from_json}
use iib.Web.Api.Submit.{merge_index_image}
use iib.Web.FromJson.Merge.{merge_from_json, check_overwrite_target, remove_all}
use iib.Web.Api.Args.{get_merge_args}
use iib.Web.Api.Overwrite.{merge_index_image_token}
use iib.Web.FromJson.Rm.{rm_from_json}
use iib.Web.FromJson.Regenerate.{regenerate_from_json}
use iib.Web.FromJson.Overwrite.{MayOverwrite}
use iib.Web.Api.Args.{
  get_rm_args, get_add_args, overwrite_of, get_user_queue, get_safe_args, get_unique_bundles,
}
use iib.Web.Api.Broker.{apply_async, add_state_to}
use iib.Web.Api.Submit.{add_bundles, rm_operators, schedule, announce, with_unique_bundles}
use iib.Web.Api.Batches.{
  regenerate_bundle_batch, catch_invalid, index_of, submit_batch, create_regenerate, create_all,
}
use iib.Web.Api.Routes.{post, builds_regenerate_bundle_batch}
use iib.Web.Api.Refusal.{refused_post-SameOutside}
use iib.Web.Api.Overwrite.{add_bundles-MayOverwrite, rm_operators-MayOverwrite}
use iib.Tests.Samples.{env_of, world_of, running, initiated}
use iib.Tests.Keys.{above-GivesNewKeys}
use iib.Web.Api.Failure.{HasFailed, schedule-HasFailed}

run : Unit {0}
unfolding serve commit rollback refresh find_state find_request get has keys put remove json_eq
    truthy is_bool is_str is_list is_dict add_state state_int name_of name_of_value state_of_value
    loaded_state_name get_or_null get_or_else strings is_str_list validate_request_params
    validate_architecture_json missing invalid require_set drop_empty get_or_create_image
    get_or_create_operator image_names for_each has_char request_envelope batch_envelope
    send_messages send_message_for_state_change requests_of request_states batch_state batch_user
    index_from_json check_overwrite check_scope check_privileged check_binary_image image_if_set
    from_index_image batch_or_new add_batch insert_request set_image add_from_json rm_from_json
    regenerate_from_json get_rm_args get_add_args overwrite_of get_user_queue get_safe_args
    get_unique_bundles apply_async add_state_to add_bundles rm_operators schedule announce
    with_unique_bundles regenerate_bundle_batch catch_invalid index_of submit_batch
    create_regenerate create_all validate_batch_request_params post dec_str
run = tt

-- A payload that asks to overwrite the index.
abbrev overwriting : Fields
overwriting = field "bundles" (arr (cons (str "a:1") nil)) (
    field "from_index" (str "index:1")
      (field "binary_image" (str "binary:1") (field "overwrite_from_index" (bool true) end)))

added :
    (serve (add_bundles (env_of (some "tbrady")) (obj overwriting)) (world_of (running ∷ []))).0
    ≡ ok 2
unfolding run
added = refl

add_bundles-MayOverwrite_example : MayOverwrite (env_of (some "tbrady")) false
unfolding truthy get_or_null get dec_str
add_bundles-MayOverwrite_example =
    add_bundles-MayOverwrite (env_of (some "tbrady")) overwriting (world_of (running ∷ [])) 2 added
      refl

abbrev removing : Fields
removing = field "operators" (arr (cons (str "etcd") nil)) (
    field "from_index" (str "index:1") (
      field "binary_image" (str "binary:1") (
        field "overwrite_from_index" (bool true)
          (field "overwrite_from_index_token" (str "user:pass") end))))

removed :
    (serve (rm_operators (env_of (some "worker")) (obj removing)) (world_of (running ∷ []))).0
    ≡ ok 2
unfolding run
removed = refl

rm_operators-MayOverwrite_example : MayOverwrite (env_of (some "worker")) true
unfolding truthy get_or_null get dec_str
rm_operators-MayOverwrite_example =
    rm_operators-MayOverwrite (env_of (some "worker")) removing (world_of (running ∷ [])) 2 removed
      refl

-- A batch whose second build request is refused.
abbrev bad_batch : Json
bad_batch = obj (
    field "build_requests"
      (arr (
        cons (obj (field "from_bundle_image" (str "a:1") end))
          (cons (obj (field "from_bundle_image" (str "a") end)) nil)))
      end)

refused :
    (serve
      (post (env_of (some "tbrady")) builds_regenerate_bundle_batch bad_batch)
      (world_of (running ∷ []))).0
    ≡ err (validation_error (at_index (image_without_tag "a") 1))
unfolding run
refused = refl

refused_post-SameOutside_example :
    SameOutside
      (world_of (running ∷ []))
      (serve
        (post (env_of (some "tbrady")) builds_regenerate_bundle_batch bad_batch)
        (world_of (running ∷ []))).1
unfolding status_code
refused_post-SameOutside_example =
    refused_post-SameOutside (env_of (some "tbrady")) builds_regenerate_bundle_batch bad_batch
      (world_of (running ∷ [])) (validation_error (at_index (image_without_tag "a") 1))
      (λ tasks. refl) refused (omega arith)

get_or_create_image-HasImage_example :
    ((get_or_create_image "a:1" (world_of (running ∷ []))).0 ≡ ok "a:1")
    × HasImage "a:1"
        (world_of (running ∷ []))
        (get_or_create_image "a:1" (world_of (running ∷ []))).1
unfolding has_char image_names
get_or_create_image-HasImage_example =
    get_or_create_image-HasImage "a:1" (world_of (running ∷ [])) (refl, tt)

abbrev broken : Env
broken = record (env_of (some "tbrady")) { broker_up = λ tasks. false }

found_running : find_request 1 (world_of (running ∷ [])).tables.requests ≡ some running
unfolding find_request
found_running = refl

schedule-HasFailed_example :
    HasFailed 1
      (world_of (running ∷ []))
      (schedule broken handle_add_request 1 [] [] none (world_of (running ∷ []))).1
    × ((a : ℕ)
        → (schedule broken handle_add_request 1 [] [] none (world_of (running ∷ []))).0 ≢ ok a)
schedule-HasFailed_example =
    schedule-HasFailed broken handle_add_request 1 [] [] none (world_of (running ∷ [])) running
      initiated above-GivesNewKeys refl found_running refl refl

abbrev merging : Fields
merging = field "source_from_index" (str "source:1") (
    field "target_index" (str "target:1") (
      field "binary_image" (str "binary:1") (
        field "overwrite_target_index" (bool true)
          (field "overwrite_target_index_token" (str "user:pass") end))))

merged :
    (serve (merge_index_image (env_of (some "worker")) (obj merging)) (world_of (running ∷ []))).0
    ≡ ok 2
unfolding run merge_index_image merge_from_json check_overwrite_target remove_all get_merge_args
merged = refl

merge_index_image_token_example :
    truthy (get_or_null "overwrite_target_index_token" (fields merging)) ≡ true
unfolding truthy get_or_null get dec_str
merge_index_image_token_example =
    merge_index_image_token (env_of (some "worker")) merging (world_of (running ∷ [])) 2 merged refl
