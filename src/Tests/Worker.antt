-- ===== src/Tests/Worker.antt =====
-- A worker with tools that answer every command.
pub mod Bundles
pub mod Indexes
pub mod Parts
pub mod Runs
use iib.Common.{
  ◌*◌, String, true, false, Option, none, some, List, [], ◌∷◌, length, contains, ◌==◌,
  if◌then◌else◌,
}
use iib.Json.{json_eq, Json, null, bool, int, str, arr, obj, pos, end, field, cons, nil}
use iib.Workers.Exec.{
  Env, Config, World, Event, OperatorManifests, csv_files, Response, Answer, accepted, ran, linked,
}
use iib.Exn.{ok}
use iib.Workers.Build.Registry.{second}

abbrev pub config : Config
config = record {
  iib_registry = "registry:8443";
  iib_image_push_template = "{registry}/iib-build:{request_id}";
  iib_index_image_output_registry = none;
  iib_required_labels = [];
  iib_skopeo_timeout = "300s";
  iib_total_attempts = 2;
  iib_greenwave_url = some "http://greenwave/";
  iib_omps_url = none;
  iib_grpc_start_port = 50_051;
  iib_grpc_max_port_tries = 2;
  iib_grpc_max_tries = 1;
  iib_grpc_init_wait_time = 1;
  iib_organization_customizations = [];
}

abbrev text_answer : List String → String
text_answer cmd =
    if contains "--raw" cmd
    then "raw"
    else if contains "--config" cmd
    then "config"
    else if contains "list" cmd
    then "api.Registry.ListBundles"
    else ""

abbrev answer_to : List Event → Option Response
answer_to (ran docker cwd cmd ∷ events) =
    some (record { succeeded = true; stdout = text_answer cmd; stderr = "" })
answer_to _ = none

abbrev raw : Json
raw = obj (
    field "mediaType" (str "application/vnd.docker.distribution.manifest.list.v2+json") (
      field "schemaVersion" (int (pos 2)) (
        field "manifests"
          (arr (
            cons
              (obj (
                field "digest" (str "sha256:1")
                  (field "platform" (obj (field "architecture" (str "amd64") end)) end)))
              nil))
          end)))

abbrev labels : Json
labels = obj (
    field "config"
      (obj (
        field "Labels"
          (obj (
            field "com.redhat.component" (str "bundle")
              (field "version" (str "1") (field "release" (str "2") end))))
          end))
      end)

abbrev loaded : String → Option Json
loaded s = if s == "raw" then some raw else if s == "config" then some labels else none

abbrev manifests : OperatorManifests
manifests = record {
  from_directory = λ events path.
      csv_files (record { path = "/tmp/iib-1/manifests/amq.yaml"; contents = obj end } ∷ []);
  has_related_images = λ contents. json_eq contents (str "lists images");
  has_related_image_envs = λ contents. false;
  get_pullspecs = λ contents. "quay.io/amq/broker:latest" ∷ [];
  replace_pullspecs_everywhere = λ names contents. contents;
  set_related_images = λ contents. ok contents;
  tag_of = λ s. "latest";
  with_registry = λ registry s. s;
}

abbrev pub env_with : Answer → Env
env_with answer = record {
  config = config;
  template = some [];
  run = answer_to;
  poll = λ events. none;
  clock = λ events. length events * second;
  answer = λ events id payload. answer;
  reply = λ events. some null;
  holds = λ events key. true;
  http = λ events. record {
    is_ok = true;
    text = "";
    json = some (obj (field "policies_satisfied" (bool true) end));
  };
  temp_name = λ events. "/tmp/iib-1";
  json_loads = loaded;
  json_dumps = λ v. "{}";
  yaml_load = λ v. some (bool false);
  listdir = λ events path. "package.yaml" ∷ "4.1" ∷ [];
  zipped = λ events. true;
  str_of = λ v. "?";
  sha256_hex = λ s. "2";
  base64 = λ s. s;
  registry_of = λ s. "quay.io";
  listed = λ s. s;
  yaml_dump = λ v. "annotations: {}";
  yaml_file = λ events path. some (
      obj (
        field "annotations"
          (obj (field "operators.operatorframework.io.bundle.package.v1" (str "amq") end)) end));
  path_exists = λ events path. true;
  manifests = manifests;
}

abbrev pub env : Env
env = env_with accepted

abbrev pub world : World
world = record { docker = linked; cache = []; events = [] }
