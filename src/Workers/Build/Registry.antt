-- ===== src/Workers/Build/Registry.antt =====
-- `_serve_index_registry` of iib/workers/tasks/build.py: a local registry service on the first free
-- port.
pub mod Port
pub mod Wait
use iib.Common.{
  ℕ, zero, suc, ◌+◌, ◌-◌, ◌*◌, String, Bool, true, false, not, Option, none, some, List, [], ◌∷◌,
  ltb, if◌then◌else◌,
}
use iib.Common.Text.{◌⧺◌}
use iib.Common.Find.{join, decimal, contains_text}
use iib.Exn.{Exn, ok, iib_error, of_worker, address_already_in_use}
use iib.Json.{null}
use iib.Workers.Exec.{
  Env, Exec, pure, raise, ask, emit, catch, ◌>>=◌, ◌>>◌, started, polled, killed, slept,
}
use iib.Workers.Retry.{retry, is_iib_error}
use iib.Workers.Command.{run_cmd}

-- How the wait for the service ended. With enough fuel it never runs out (Registry/Wait).
pub data Waited : Type 0 where
  is_up timed_out out_of_fuel : Waited

abbrev pub serve_cmd : (db_path : String) → (port : ℕ) → List String
serve_cmd db_path port =
    "opm" ∷ "registry" ∷ "serve" ∷ "-p" ∷ decimal port ∷ "-d" ∷ db_path ∷ "-t" ∷ "/dev/null" ∷ []

-- What is raised where the process has ended.
unfoldable pub ended_error : (cmd : List String) → (port : ℕ) → (stderr : String) → Exn
ended_error cmd port stderr =
    if contains_text "address already in use" stderr
    then of_worker (
        address_already_in_use ("Port " ⧺ decimal port ⧺ " is already used by a different service"))
    else iib_error ("Command \"" ⧺ join " " cmd ⧺ "\" has failed with error \"" ⧺ stderr ⧺ "\"")

abbrev pub check_running : (cmd : List String) → (port : ℕ) → Option String → Exec (Unit {0})
check_running cmd port none = pure tt
check_running cmd port (some stderr) = raise (ended_error cmd port stderr)

-- The service's answer to a query, empty where the query fails.
abbrev pub query : Env → (port : ℕ) → Exec String
query env port =
    catch
      (run_cmd env
        ("grpcurl" ∷ "-plaintext" ∷ ("localhost:" ⧺ decimal port) ∷ "list" ∷ "api.Registry" ∷ [])
        none none)
      (λ e. if is_iib_error e then pure "" else raise e)

-- One round of the loop after its pause: whether the service is up.
unfoldable pub check_service : Env → (cmd : List String) → (port : ℕ) → Exec Bool
unfolding ended_error
check_service env cmd port = do
  emit polled
  ret ← ask env.poll
  check_running cmd port ret
  output ← query env port
  pure (contains_text "api.Registry.ListBundles" output)

unfoldable pub wait_round : Env → (cmd : List String) → (port : ℕ) → Exec Bool
unfolding check_service
wait_round env cmd port = do emit slept; check_service env cmd port

-- `time.time()` and `wait_time` are in nanoseconds here.
abbrev pub second : ℕ
second = 1_000_000_000

-- `while time.time() - start_time < wait_time`
unfoldable pub wait_for :
    Env → (cmd : List String) → (port start_time wait_time fuel : ℕ) → Exec Waited
unfolding wait_round
wait_for env cmd port start_time wait_time zero w = (
  ok (
      if ltb (env.clock w.events - start_time) (wait_time * second)
      then out_of_fuel
      else timed_out),
  w,
)
wait_for env cmd port start_time wait_time (suc fuel) w =
    elim (ltb (env.clock w.events - start_time) (wait_time * second)) [
      | false ↦ (ok timed_out, w)
      | true ↦
          (do
            up ← wait_round env cmd port
            elim up [ true ↦ pure is_up | false ↦ wait_for env cmd port start_time wait_time fuel ])
            w
    ]

-- `for attempt in range(max_tries)`
unfoldable pub try_to_serve :
    Env → (db_path : String) → (port wait_time max_tries left : ℕ) → Exec (Unit {0})
unfolding wait_for
try_to_serve env db_path port wait_time max_tries zero =
    raise
      (iib_error ("Index registry has not been initialized after " ⧺ decimal max_tries ⧺ " tries"))
try_to_serve env db_path port wait_time max_tries (suc left) = do
  emit (started (serve_cmd db_path port))
  start_time ← ask env.clock
  waited ← wait_for env (serve_cmd db_path port) port start_time wait_time wait_time
  elim waited [
    | is_up ↦ pure tt
    | timed_out ↦ (emit killed >> try_to_serve env db_path port wait_time max_tries left)
    | out_of_fuel ↦ (emit killed >> try_to_serve env db_path port wait_time max_tries left)
  ]

-- `_serve_index_registry_at_port`; the process that it returns is known by the port.
unfoldable pub serve_index_registry_at_port :
    Env → (db_path : String) → (port max_tries wait_time : ℕ) → Exec (Unit {0})
unfolding try_to_serve
serve_index_registry_at_port env db_path port max_tries wait_time =
    retry 2 (try_to_serve env db_path port wait_time max_tries max_tries)

unfoldable pub is_address_in_use : Exn → Bool
is_address_in_use (of_worker (address_already_in_use message)) = true
is_address_in_use _ = false

-- The loop over the ports: `left` of them are to be tried.
unfoldable pub serve_from : Env → (db_path : String) → (port left : ℕ) → Exec ℕ
unfolding is_address_in_use
serve_from env db_path port zero = raise (
    iib_error (
      "No free port has been found after "
      ⧺ decimal env.config.iib_grpc_max_port_tries
      ⧺ " attempts."))
serve_from env db_path port (suc left) =
    catch
      (do
        serve_index_registry_at_port env db_path port env.config.iib_grpc_max_tries
            env.config.iib_grpc_init_wait_time
        pure port)
      (λ e. if is_address_in_use e then serve_from env db_path (port + 1) left else raise e)

-- `_serve_index_registry`
unfoldable pub serve_index_registry : Env → (db_path : String) → Exec ℕ
unfolding serve_from
serve_index_registry env db_path =
    serve_from env db_path env.config.iib_grpc_start_port env.config.iib_grpc_max_port_tries
