-- ===== src/Workers/Build/Registry/Wait.antt =====
-- The wait for the registry service, in `_serve_index_registry_at_port` of iib/workers/tasks/build.py.
use iib.Common.{
  ℕ, zero, suc, ◌+◌, ◌-◌, ◌*◌, ◌≤◌, String, Bool, true, false, List, [], ◌∷◌, ◌≡◌, ◌≢◌, arith, ltb,
  Bool-cases, inl, inr,
}
use iib.Common.Dict.{Dict}
use iib.Exn.{Result, ok, err}
use iib.Json.{Json}
use iib.Web.Mappings.{add}
use iib.Workers.Exec.{Env, World, Exec, Event, DockerConfig, emit, slept, continue, pure}
use iib.Workers.Exec.Keeps.{Frame, Keeps, keeping_rules}
use iib.Workers.Cache.{region_set}
use iib.Workers.Docker.{set_registry_auths, reset_docker_config, set_docker}
use iib.Workers.Frames.{Allows}
use iib.Workers.Frames.Present.{Keeps-check_service}
use iib.Workers.Build.Registry.{Waited, is_up, out_of_fuel, wait_round, wait_for, second}

-- `time.time()` does not run backwards, and `time.sleep(1)` takes a second or more.
pub record IsClock (clock : List Event → ℕ) : Type 0 where
  pub forward : (e : Event) (events : List Event) → clock events ≤ clock (e ∷ events)
  pub sleeps : (events : List Event) → clock events + second ≤ clock (slept ∷ events)

module _ (env : Env) (c : IsClock env.clock) where
  -- It is not earlier.
  unfoldable later : Frame
  later = record {
    Rel = λ w w'. env.clock w.events ≤ env.clock w'.events;
    same = λ w. omega arith;
    turn = λ p q. omega arith;
  }

  set_docker-later : (d : DockerConfig) → Keeps later (set_docker d)
  unfolding later
  set_docker-later d = record { at = λ w. omega arith }

  reset-later : Keeps later (reset_docker_config env)
  unfolding reset_docker_config
  reset-later = search (keeping_rules, set_docker-later)

  logs_in-later :
      {A : Type 0} (auths : Dict Json) (body : Exec A)
      → Keeps later body
      → Keeps later (set_registry_auths env auths body)
  unfolding set_registry_auths
  logs_in-later [] body k = k
  logs_in-later (auth ∷ auths) body k =
      search (keeping_rules, set_docker-later, reset-later) depth 20

  caches-later : (should : Bool) (key : String) (v : Json) → Keeps later (region_set should key v)
  unfolding later
  caches-later true key v = record { at = λ w. omega arith }
  caches-later false key v = record { at = λ w. omega arith }

  later-Allows : Allows env add 0 later
  unfolding later
  later-Allows = record {
    runs = λ cwd cmd. record { at = λ w. c.forward _ _ };
    caches = caches-later;
    logs_in = logs_in-later;
    resets = reset-later;
    starts = λ cmd. record { at = λ w. c.forward _ _ };
    polls = record { at = λ w. c.forward _ _ };
    kills = record { at = λ w. c.forward _ _ };
    sleeps = record { at = λ w. c.forward _ _ };
    posts = λ url payload. record { at = λ w. c.forward _ _ };
    opens = λ path. record { at = λ w. c.forward _ _ };
    removes = λ path. record { at = λ w. c.forward _ _ };
    changes = λ path. record { at = λ w. c.forward _ _ };
    writes = λ path text. record { at = λ w. c.forward _ _ };
    appends = λ path text. record { at = λ w. c.forward _ _ };
    reports = λ payload answer fits. record { at = λ w. c.forward _ _ };
  }

  -- A round takes a second or more.
  round-second :
      (cmd : List String) (port : ℕ) (w : World)
      → env.clock w.events + second ≤ env.clock (wait_round env cmd port w).1.events
  unfolding wait_round later
  round-second cmd port w =
      let slept_second = c.sleeps w.events in
      let checked = (Keeps-check_service later-Allows cmd port).at (emit slept w).1 in omega arith

  unless_up-ends :
      (r : Result Bool) (next : World → Result Waited × World) (w : World)
      → (next w).0 ≢ ok out_of_fuel
      → (continue r (λ up. elim up [ true ↦ pure is_up | false ↦ next ]) w).0 ≢ ok out_of_fuel
  unless_up-ends (err e) next w h = λ k. cc
  unless_up-ends (ok true) next w h = λ k. cc
  unless_up-ends (ok false) next w h = h

  ends :
      (wait_time start fuel : ℕ) (cmd : List String) (port : ℕ) (w : World)
      → start + wait_time * second ≤ env.clock w.events + fuel * second
      → (wait_for env cmd port start wait_time fuel w).0 ≢ ok out_of_fuel
  unfolding wait_for
  ends wait_time start zero cmd port w h =
      let late : ltb (env.clock w.events - start) (wait_time * second) ≡ false = ground arith in
      rw late (λ k. cc)
  ends wait_time start (suc fuel) cmd port w h =
      elim (Bool-cases (ltb (env.clock w.events - start) (wait_time * second))) [
        | inr late ↦ rw (late, wait_for) (λ k. cc)
        | inl early ↦
            let round = round-second cmd port w in
            rw (early, wait_for)
              (unless_up-ends (wait_round env cmd port w).0
                (wait_for env cmd port start wait_time fuel) (wait_round env cmd port w).1
                (ends wait_time start fuel cmd port (wait_round env cmd port w).1 (omega arith)))
      ]

  -- On a clock that does not run backwards, where a pause of a second lasts a second or more, the
  -- wait for the registry service ends by its own test, or by what a round raises or finds: as many
  -- rounds as there are seconds to wait are enough, so the fuel does not run out.
  pub wait_for-ends :
      (cmd : List String) (port wait_time : ℕ) (w : World)
      → (wait_for env cmd port (env.clock w.events) wait_time wait_time w).0 ≢ ok out_of_fuel
  wait_for-ends cmd port wait_time w =
      ends wait_time (env.clock w.events) wait_time cmd port w (omega arith)
