-- ===== src/Workers/Exec.antt =====
-- A worker's task: what it reads of the configuration and of the outside, what it changes, and how
-- its statements follow each other. Every call that leaves the process is an event. What it answers
-- may depend on all the events before it, and is a parameter.
pub mod Keeps
pub mod Adds
pub mod Returns
pub mod Ends
use iib.Common.{ℕ, String, Bool, true, false, Option, List, [], ◌∷◌, if◌then◌else◌}
use iib.Common.Dict.{Dict}
use iib.Exn.{Exn, Result, ok, err}
use iib.Json.{Json}

-- `~/.docker/config.json`: not there, a symlink to `iib_docker_config_template`, or a file written
-- with this JSON.
pub data DockerConfig : Type 0 where
  absent linked : DockerConfig
  written : Dict Json → DockerConfig

-- How the REST API answered a PATCH request, or that the connection failed.
pub data Answer : Type 0 where
  connection_failed refused accepted : Answer

pub data Event : Type 0 where
  -- `subprocess.run`, with the Docker configuration at that time
  ran : (docker : DockerConfig) (cwd : Option String) (cmd : List String) → Event
  -- `subprocess.Popen`, and its methods `poll` and `kill`
  started : (cmd : List String) → Event
  polled killed : Event
  slept : Event
  -- `requests_auth_session.patch` on a request
  patched : (request_id : ℕ) (payload : Dict Json) (answer : Answer) → Event
  -- `requests.post`
  posted : (url : String) (payload : Json) → Event
  -- a temporary directory, a file written or appended to, a directory tree changed
  opened_dir removed_dir changed_modes : (path : String) → Event
  wrote appended : (path text : String) → Event

-- Whether the event is a PATCH request.
abbrev pub is_patch : Event → Bool
is_patch (patched request_id payload answer) = true
is_patch _ = false

-- The values of iib/workers/config.py that the tasks read.
pub record Config : Type 0 where
  pub iib_registry : String
  pub iib_image_push_template : String
  pub iib_index_image_output_registry : Option String
  pub iib_required_labels : Dict Json
  pub iib_skopeo_timeout : String
  pub iib_total_attempts : ℕ
  pub iib_greenwave_url : Option String
  pub iib_omps_url : Option String
  pub iib_grpc_start_port : ℕ
  pub iib_grpc_max_port_tries : ℕ
  pub iib_grpc_max_tries : ℕ
  pub iib_grpc_init_wait_time : ℕ
  pub iib_organization_customizations : Dict Json

pub record Response : Type 0 where
  pub succeeded : Bool
  pub stdout : String
  pub stderr : String

-- `resp.ok`, `resp.text` and the JSON of the body, `none` where it is not JSON
pub record HttpResponse : Type 0 where
  pub is_ok : Bool
  pub text : String
  pub json : Option Json

-- An `OperatorCSV` of operator_manifest: its file, and what it holds of it.
pub record OperatorCsv : Type 0 where
  pub path : String
  pub contents : Json

-- `OperatorManifest.from_directory`: the files, an error of the YAML, or another exception.
pub data Loaded : Type 0 where
  csv_files : List OperatorCsv → Loaded
  not_yaml : (error : String) → Loaded
  not_loaded : Exn → Loaded

-- operator_manifest. An `ImageName` stands by its text. `tag_of` is its tag, and `with_registry` is
-- the name after its registry has been set.
pub record OperatorManifests : Type 0 where
  pub from_directory : List Event → String → Loaded
  pub has_related_images : Json → Bool
  pub has_related_image_envs : Json → Bool
  pub get_pullspecs : Json → List String
  pub replace_pullspecs_everywhere : Dict String → Json → Json
  pub set_related_images : Json → Result Json
  pub tag_of : String → String
  pub with_registry : (registry : String) → String → String

-- The outside. `run` answers the last event, and is `none` where the program cannot be started;
-- `poll` is the standard error of a process that has ended. `answer` is how the API takes a PATCH
-- request and `reply` the JSON of its body. `holds` says that the dogpile backend has kept an entry
-- and has not let it expire. `template` is the file `iib_docker_config_template`, if it exists.
-- `json_loads` and `json_dumps` are the text of JSON, `yaml_load` and `yaml_dump`
-- are ruamel.yaml's, `yaml_file` what it loads from a file, `none` where that is not YAML,
-- `path_exists` is `os.path.exists`, `listdir` lists a
-- directory, `zipped` says that an archive could be made, `str_of` is Python's `str` on a JSON value,
-- `registry_of` is `ImageName.parse(s).registry` of operator_manifest, and `listed` is the order in
-- which Python lists a set.
pub record Env : Type 0 where
  pub config : Config
  pub template : Option (Dict Json)
  pub run : List Event → Option Response
  pub poll : List Event → Option String
  pub clock : List Event → ℕ
  pub answer : List Event → ℕ → Dict Json → Answer
  pub reply : List Event → Option Json
  pub holds : List Event → String → Bool
  pub http : List Event → HttpResponse
  pub temp_name : List Event → String
  pub json_loads : String → Option Json
  pub json_dumps : Json → String
  pub yaml_load : Json → Option Json
  pub listdir : List Event → String → List String
  pub zipped : List Event → Bool
  pub str_of : Json → String
  pub sha256_hex : String → String
  pub base64 : String → String
  pub registry_of : String → String
  pub listed : List String → List String
  pub yaml_dump : Json → String
  pub yaml_file : List Event → String → Option Json
  pub path_exists : List Event → String → Bool
  pub manifests : OperatorManifests

-- `events` holds the last one first, `cache` is the dogpile region.
pub record World : Type 0 where
  pub docker : DockerConfig
  pub cache : Dict Json
  pub events : List Event

abbrev pub Exec {ℓ} : Type ℓ → Type ℓ
Exec A = World → Result A × World

module _ {ℓ} {A : Type ℓ} where
  abbrev pub pure : A → Exec A
  pure a w = (ok a, w)

  abbrev pub raise : Exn → Exec A
  raise e w = (err e, w)

  -- A function that only computes or raises.
  abbrev pub lift : Result A → Exec A
  lift r w = (r, w)

module _ {A B : Type 0} where
  abbrev pub continue : Result A → (A → Exec B) → Exec B
  continue (ok a) f w = f a w
  continue (err e) f w = (err e, w)

  infixl 5 ◌>>=◌ ◌>>◌
  abbrev pub ◌>>=◌ : Exec A → (A → Exec B) → Exec B
  ◌>>=◌ m f w = let (r, w') = m w in continue r f w'

  abbrev pub ◌>>◌ : Exec A → Exec B → Exec B
  m >> n = m >>= λ _. n

module _ {A : Type 0} where
  abbrev pub recover : Result A → (Exn → Exec A) → Exec A
  recover (ok a) handler w = (ok a, w)
  recover (err e) handler w = handler e w

  -- `try: body except: handler`, where the handler takes every exception and may raise it again
  abbrev pub catch : Exec A → (Exn → Exec A) → Exec A
  catch body handler w = let (r, w') = body w in recover r handler w'

  abbrev pub finish : Result A → Result (Unit {0}) → Result A
  finish r (ok nothing) = r
  finish r (err e) = err e

  -- `try: body finally: cleanup`
  abbrev pub finally : Exec A → Exec (Unit {0}) → Exec A
  finally body cleanup w = let (r, w') = body w in let (s, w'') = cleanup w' in (finish r s, w'')

  -- What the code computes from the events so far.
  abbrev pub ask : (List Event → A) → Exec A
  ask f w = (ok (f w.events), w)

-- `if c: raise ...`
abbrev pub raise_if : Bool → Exn → Exec (Unit {0})
raise_if c e w = (if c then err e else ok tt, w)

abbrev pub emit : Event → Exec (Unit {0})
emit e w = (ok tt, record w { events = e ∷ w.events })

-- `[f(x) for x in xs]`, where `f` may raise
unfoldable pub for_each : {A B : Type 0} → (A → Exec B) → List A → Exec (List B)
for_each f [] = pure []
for_each f (x ∷ xs) = do y ← f x; ys ← for_each f xs; pure (y ∷ ys)

-- `with tempfile.TemporaryDirectory(prefix='iib-') as temp_dir: body`
unfoldable pub with_temp_dir : {A : Type 0} → Env → (String → Exec A) → Exec A
with_temp_dir env body = do
  temp_dir ← ask env.temp_name
  emit (opened_dir temp_dir)
  finally (body temp_dir) (emit (removed_dir temp_dir))
