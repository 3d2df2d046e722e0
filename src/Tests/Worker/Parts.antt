-- ===== src/Tests/Worker/Parts.antt =====
-- The retries, the cache, the names of images and the preparation of a request.
use iib.Common.{ℕ, ◌≤◌, true, none, some, [], ◌∷◌, ◌≡◌, refl, arith, dec_str}
use iib.Exn.{ok, err, iib_error}
use iib.Json.{Json, str}
use iib.Workers.Exec.{World, Exec, slept}
use iib.Common.Dict.{get, has, keys, put}
use iib.Common.Find.{
  after_last, before_first, before_last, before_last?, contains_text, decimal, last_piece, rstrip,
  sorted, split_lines,
}
use iib.Common.Format.{format}
use iib.Common.Text.{has_char}
use iib.Json.{json_eq, truthy}
use iib.Workers.Api.{refusal_message, set_request_state, text_of, update_request}
use iib.Workers.Build.Present.{bundle_path, get_missing_bundles, present_hashes}
use iib.Workers.Build.Registry.{
  check_service, ended_error, is_address_in_use, serve_from, serve_index_registry,
  serve_index_registry_at_port, try_to_serve, wait_for, wait_round,
}
use iib.Workers.Cache.{dogpile_cache, generate_cache_key, skopeo_inspect_should_use_cache}
use iib.Workers.Command.{error_of_line, failure_message, first_error, is_opm, run_cmd}
use iib.Workers.Docker.{
  reset_docker_config, set_registry_auths, set_registry_token, token_auths, update, update_auths,
}
use iib.Workers.Exec.{for_each}
use iib.Workers.Frames.{is_progress}
use iib.Workers.Gating.{
  decide, gate_bundle, gate_bundles, gate_from, get_koji_build_nvr, testcases_of,
  validate_greenwave_params_and_config,
}
use iib.Workers.Images.{
  get_container_image_name, get_image_arches, get_image_label, get_image_labels, get_resolved_image,
  inspect_exc_msg, inspect_kwargs, loads, skopeo_inspect, skopeo_inspect_once, text_output,
}
use iib.Workers.Merge.Missing.{digest_of, missing_in_source, pick_missing, read_source, read_target}
use iib.Workers.Prepare.{
  gather_index_image_arches, get_all_index_images_info, get_index_image_info, info_of, map_bundles,
  prepare_request_for_build,
}
use iib.Workers.Prepare.Config.{binary_image, get_binary_image_from_config}
use iib.Workers.Prepare.Scope.{scope_index, validate_distribution_scope}
use iib.Workers.Retry.{is_iib_error, retry, retry_from, waits}
use iib.Workers.Values.{add_to_set, dot_get, get_by_json, iterate, subscript, union}
use iib.Common.Text.{◌⧺◌}
use iib.Workers.Retry.Attempts.{Runs, once, again, Ended, most_runs, retry-Ended, retry-reaches}
use iib.Workers.Cache.Hit.{dogpile_cache-again}
use iib.Workers.Images.Names.{get_container_image_name-resolved}
use iib.Workers.Prepare.{Prebuild}
use iib.Workers.Prepare.Arches.{IsBuildable, prepare_request_for_build-IsBuildable}
use iib.Workers.Prepare.Config.{RequestConfig, add_rm, request_config_eq, same_class}
use iib.Workers.Prepare.Config.Equal.{request_config_eq-same_class}
use iib.Workers.Prepare.Scope.NoRegress.{validate_distribution_scope-le}
use iib.Tests.Worker.{env, world}

unfoldable pub run : Unit {0}
unfolding add_to_set after_last before_first before_last before_last? binary_image bundle_path
    check_service contains_text decide decimal digest_of dogpile_cache dot_get ended_error
    error_of_line failure_message first_error for_each format gate_bundle gate_bundles gate_from
    gather_index_image_arches generate_cache_key get get_all_index_images_info
    get_binary_image_from_config get_by_json get_container_image_name get_image_arches
    get_image_label get_image_labels get_index_image_info get_koji_build_nvr get_missing_bundles
    get_resolved_image has has_char info_of inspect_exc_msg inspect_kwargs is_address_in_use
    is_iib_error is_opm is_progress iterate json_eq keys last_piece loads map_bundles
    missing_in_source pick_missing prepare_request_for_build present_hashes put read_source
    read_target refusal_message reset_docker_config retry retry_from rstrip run_cmd scope_index
    serve_from serve_index_registry serve_index_registry_at_port set_registry_auths
    set_registry_token set_request_state skopeo_inspect skopeo_inspect_once
    skopeo_inspect_should_use_cache sorted split_lines subscript testcases_of text_of text_output
    token_auths truthy try_to_serve union update update_auths update_request
    validate_distribution_scope validate_greenwave_params_and_config wait_for wait_round waits
    dec_str
run = tt

-- It fails the first time, and not the second.
abbrev second_time : Exec ℕ
second_time w = elim w.events [
  | [] ↦ (err (iib_error "busy"), record w { events = slept ∷ [] })
  | e ∷ events ↦ (ok 7, w)
]

retry-Ended_example : Ended second_time (most_runs 3) world (retry 3 second_time world)
retry-Ended_example = retry-Ended second_time 3 world

runs : Runs second_time 2 world (second_time (second_time world).1)
unfolding run
runs = again world 1 _ refl (once (second_time world).1)

retry-reaches_example : retry 5 second_time world ≡ second_time (second_time world).1
unfolding run
retry-reaches_example = retry-reaches second_time 5 2 world _ runs refl (omega arith)

abbrev inspected : Exec Json
inspected w = (ok (str "{}"), record w { events = slept ∷ w.events })

abbrev gone : Exec Json
gone w = (err (iib_error "gone"), w)

abbrev stored : World
stored = record world { cache = ("key", str "{}") ∷ []; events = slept ∷ [] }

dogpile_cache-again_example : dogpile_cache env true "key" gone stored ≡ (ok (str "{}"), stored)
unfolding run
dogpile_cache-again_example =
    dogpile_cache-again env "key" inspected gone world stored (str "{}") refl refl refl refl

get_container_image_name-resolved_example :
    get_container_image_name ("quay.io/bundle" ⧺ "@" ⧺ "sha256:1") ≡ "quay.io/bundle"
unfolding run
get_container_image_name-resolved_example =
    get_container_image_name-resolved "quay.io/bundle" "sha256:1" refl

abbrev new_index : RequestConfig
new_index = add_rm (record {
  _binary_image = some "quay.io/ose:v4.6";
  distribution_scope = none;
  binary_image_config = none;
  overwrite_from_index_token = none;
  from_index = none;
  add_arches = some ("amd64" ∷ []);
  bundles = some ("quay.io/bundle:1" ∷ []);
  operators = none;
})

abbrev prepared : Prebuild
prepared = record {
  arches = "amd64" ∷ [];
  binary_image = "quay.io/ose:v4.6";
  binary_image_resolved = "quay.io/ose@sha256:2";
  bundle_mapping = [];
  from_index_resolved = none;
  ocp_version = str "v4.5";
  distribution_scope = str "prod";
  source_from_index_resolved = none;
  source_ocp_version = str "v4.5";
  target_index_resolved = none;
  target_ocp_version = str "v4.6";
}

prepares : (prepare_request_for_build env 1 new_index world).0 ≡ ok prepared
unfolding run
prepares = refl

prepare_request_for_build-IsBuildable_example : IsBuildable env prepared
prepare_request_for_build-IsBuildable_example =
    prepare_request_for_build-IsBuildable env 1 new_index world prepared prepares

request_config_eq-same_class_example :
    request_config_eq new_index new_index ≡ same_class new_index new_index
request_config_eq-same_class_example = request_config_eq-same_class new_index new_index

validate_distribution_scope-le_example : (n : ℕ) × (scope_index (str "stage") ≡ ok n) × (n ≤ 2)
unfolding run
validate_distribution_scope-le_example =
    validate_distribution_scope-le (text_of env) (str "prod") (some "stage") (str "stage") 2 refl
      refl
