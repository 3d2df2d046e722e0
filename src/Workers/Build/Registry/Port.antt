-- ===== src/Workers/Build/Registry/Port.antt =====
-- The port that the registry service is found on.
use iib.Common.{ℕ, zero, suc, ◌+◌, ◌≤◌, ◌<◌, String, Bool, true, false, ◌≡◌, arith, if◌then◌else◌}
use iib.Exn.{Result, ok, err}
use iib.Workers.Exec.{Env, World, pure, raise, continue, recover}
use iib.Workers.Build.Registry.{serve_from, serve_index_registry, is_address_in_use}

record Within (low count port : ℕ) : Type 0 where
  pub above : low ≤ port
  pub below : port < low + count

next-Within : (low count port : ℕ) → Within (low + 1) count port → Within low (suc count) port
next-Within low count port h = record {
  above = ground (arith, h.above);
  below = ground (arith, h.below);
}

module _ (env : Env) (db_path : String) where
  -- The first port, or what the loop finds after it.
  tried-Within :
      (port count found : ℕ) (r : Result (Unit {0})) (w : World) (next : World → Result ℕ × World)
      → ((w : World) (found : ℕ) → (next w).0 ≡ ok found → Within (port + 1) count found)
      → ((let p = continue r (λ nothing. pure port) w in
            recover p.0 (λ e. if is_address_in_use e then next else raise e) p.1).0
          ≡ ok found)
      → Within port (suc count) found
  tried-Within port count found (ok nothing) w next k h =
      let same : port ≡ found = cc in record { above = ground arith; below = ground arith }
  tried-Within port count found (err e) w next k h = refused (is_address_in_use e) h
    where
      refused :
          (b : Bool)
          → ((if b then next else raise e) w).0 ≡ ok found
          → Within port (suc count) found
      refused true h = next-Within port count found (k w found h)
      refused false h = cc

  serve_from-Within :
      (left port found : ℕ) (w : World)
      → (serve_from env db_path port left w).0 ≡ ok found
      → Within port left found
  unfolding serve_from
  serve_from-Within zero port found w h = cc
  serve_from-Within (suc left) port found w h =
      tried-Within port left found _ _ (serve_from env db_path (port + 1) left)
        (λ w' found' h'. serve_from-Within left (port + 1) found' w' h') h

  -- Where the service is found on a port, the port is not below the configured start, and fewer ports
  -- above it than the configured number of tries.
  pub serve_index_registry-Within :
      (w : World) (port : ℕ)
      → (serve_index_registry env db_path w).0 ≡ ok port
      → (env.config.iib_grpc_start_port ≤ port)
        × (port < env.config.iib_grpc_start_port + env.config.iib_grpc_max_port_tries)
  unfolding serve_index_registry
  serve_index_registry-Within w port h =
      let p =
        serve_from-Within env.config.iib_grpc_max_port_tries env.config.iib_grpc_start_port port w
          h in
      (p.above, p.below)
