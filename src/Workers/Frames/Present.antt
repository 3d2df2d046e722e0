-- ===== src/Workers/Frames/Present.antt =====
-- The functions that ask an index image for its bundles keep what `Allows` allows.
use iib.Common.{
  ℕ, zero, suc, ◌+◌, ◌-◌, ◌*◌, String, Bool, true, false, Option, none, some, List, inl, inr, ltb,
  Bool-cases,
}
use iib.Web.Mappings.{RequestTypeMapping}
use iib.Workers.Exec.{Env, Exec, emit, ask, pure, ◌>>=◌, ◌>>◌, started, polled, killed, slept}
use iib.Workers.Exec.Keeps.{
  Frame, Keeps, Keeps-pure, Keeps-raise, Keeps-if, Keeps-ask, Keeps-bind, Keeps-catch,
  keeping_rules,
}
use iib.Workers.Retry.Attempts.{Keeps-retry}
use iib.Workers.Frames.{Allows, Keeps-run_cmd}
use iib.Workers.Frames.Images.{Keeps-get_resolved_bundles, Keeps-get_image_label}
use iib.Workers.Build.Registry.{
  Waited, is_up, timed_out, out_of_fuel, check_running, check_service, wait_round, second, wait_for,
  try_to_serve, serve_cmd, serve_index_registry_at_port, serve_from, serve_index_registry,
  is_address_in_use,
}
use iib.Workers.Build.Present.{
  get_index_database, get_present_bundles, get_bundles_from_deprecation_list,
}
use iib.Workers.Frames.Build.{Keeps-copy_files_from_image}

module _ {env : Env} {type : RequestTypeMapping} {request_id : ℕ} {F : Frame}
    (a : Allows env type request_id F) where
  Keeps-check_running :
      (cmd : List String) (port : ℕ) (ret : Option String) → Keeps F (check_running cmd port ret)
  Keeps-check_running cmd port none = Keeps-pure tt
  Keeps-check_running cmd port (some stderr) = Keeps-raise _

  Keeps-slept : Keeps F (emit slept)
  Keeps-slept = a.sleeps

  Keeps-polled : Keeps F (emit polled)
  Keeps-polled = a.polls

  Keeps-killed : Keeps F (emit killed)
  Keeps-killed = a.kills

  pub Keeps-check_service : (cmd : List String) (port : ℕ) → Keeps F (check_service env cmd port)
  unfolding check_service
  Keeps-check_service cmd port =
      search (keeping_rules, Keeps-polled, Keeps-check_running, Keeps-run_cmd a) depth 30

  Keeps-wait_round : (cmd : List String) (port : ℕ) → Keeps F (wait_round env cmd port)
  unfolding wait_round
  Keeps-wait_round cmd port = search (keeping_rules, Keeps-slept, Keeps-check_service) depth 30

  Keeps-unless_up :
      (up : Bool) (m : Exec Waited)
      → Keeps F m
      → Keeps F (elim up [ true ↦ pure is_up | false ↦ m ])
  Keeps-unless_up true m k = Keeps-pure is_up
  Keeps-unless_up false m k = k

  Keeps-wait_for :
      (cmd : List String) (port start wait_time fuel : ℕ)
      → Keeps F (wait_for env cmd port start wait_time fuel)
  unfolding wait_for
  Keeps-wait_for cmd port start wait_time zero = record { at = F.same }
  Keeps-wait_for cmd port start wait_time (suc fuel) = record {
    at = λ w. elim (Bool-cases (ltb (env.clock w.events - start) (wait_time * second))) [
      | inl h ↦
          rw (h, wait_for)
            ((Keeps-bind (wait_round env cmd port) _ (Keeps-wait_round cmd port)
                (λ up. Keeps-unless_up up _ (Keeps-wait_for cmd port start wait_time fuel))).at
              w)
      | inr h ↦ rw (h, wait_for) (F.same w)
    ];
  }

  Keeps-after :
      (waited : Waited) (m : Exec (Unit {0}))
      → Keeps F m
      → Keeps F (elim waited [
        | is_up ↦ pure tt
        | timed_out ↦ (emit killed >> m)
        | out_of_fuel ↦ (emit killed >> m)
      ])
  Keeps-after is_up m k = Keeps-pure tt
  Keeps-after timed_out m k = Keeps-bind (emit killed) _ Keeps-killed (λ nothing. k)
  Keeps-after out_of_fuel m k = Keeps-bind (emit killed) _ Keeps-killed (λ nothing. k)

  Keeps-try_to_serve :
      (db : String) (port wait_time tries left : ℕ)
      → Keeps F (try_to_serve env db port wait_time tries left)
  unfolding try_to_serve
  Keeps-try_to_serve db port wait_time tries zero = Keeps-raise _
  Keeps-try_to_serve db port wait_time tries (suc left) =
      Keeps-bind (emit (started (serve_cmd db port))) _ (a.starts _) (λ nothing.
        Keeps-bind (ask env.clock) _ (Keeps-ask _) (λ start.
          Keeps-bind (wait_for env (serve_cmd db port) port start wait_time wait_time) _
            (Keeps-wait_for (serve_cmd db port) port start wait_time wait_time)
            (λ waited. Keeps-after waited _ (Keeps-try_to_serve db port wait_time tries left))))

  Keeps-serve_index_registry_at_port :
      (db : String) (port tries wait_time : ℕ)
      → Keeps F (serve_index_registry_at_port env db port tries wait_time)
  unfolding serve_index_registry_at_port
  Keeps-serve_index_registry_at_port db port tries wait_time =
      Keeps-retry _ _ (Keeps-try_to_serve _ _ _ _ _)

  Keeps-serve_from : (db : String) (port left : ℕ) → Keeps F (serve_from env db port left)
  unfolding serve_from
  Keeps-serve_from db port zero = Keeps-raise _
  Keeps-serve_from db port (suc left) =
      Keeps-catch
        (serve_index_registry_at_port env db port env.config.iib_grpc_max_tries
            env.config.iib_grpc_init_wait_time
          >>= λ nothing. pure port)
        _
        (Keeps-bind
          (serve_index_registry_at_port env db port env.config.iib_grpc_max_tries
            env.config.iib_grpc_init_wait_time)
          _ (Keeps-serve_index_registry_at_port _ _ _ _) (λ nothing. Keeps-pure port))
        (λ e.
          Keeps-if (is_address_in_use e) _ _ (Keeps-serve_from db (port + 1) left) (Keeps-raise e))

  pub Keeps-get_present_bundles :
      (from_index dir : String) → Keeps F (get_present_bundles env from_index dir)
  unfolding get_present_bundles get_index_database serve_index_registry
  Keeps-get_present_bundles from_index dir =
      search
        (
          keeping_rules,
          Keeps-get_image_label a,
          Keeps-copy_files_from_image a,
          Keeps-serve_from,
          Keeps-run_cmd a,
          Keeps-killed,
        )
        depth 40

  pub Keeps-get_bundles_from_deprecation_list :
      (bundles deprecated : List String)
      → Keeps F (get_bundles_from_deprecation_list env bundles deprecated)
  unfolding get_bundles_from_deprecation_list
  Keeps-get_bundles_from_deprecation_list bundles deprecated =
      search (keeping_rules, Keeps-get_resolved_bundles a) depth 20
