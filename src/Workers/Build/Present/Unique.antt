-- ===== src/Workers/Build/Present/Unique.antt =====
-- The list that `_get_present_bundles` of iib/workers/tasks/build.py returns.
use iib.Common.{
  String, Bool, true, false, List, [], ◌∷◌, ◌++◌, ◌≡◌, refl, subst, arith, contains, if◌then◌else◌,
  ◌==◌, ◌||◌,
}
use iib.Exn.{Result, ok, err}
use iib.Json.{Json}
use iib.Workers.Exec.{Env, lift, emit, killed, pure}
use iib.Workers.Exec.Returns.{Returns, Returns-bind}
use iib.Workers.Command.{run_cmd}
use iib.Common.{some, none}
use iib.Common.Text.{◌⧺◌}
use iib.Common.Find.{decimal}
use iib.Workers.Build.Present.{
  unique_from, bundle_path, parse_present, load_all, split_bundles, get_present_bundles,
  get_index_database,
}
use iib.Workers.Build.Registry.{serve_index_registry}

-- No path twice.
unfoldable pub is_unique : List String → Bool
is_unique [] = true
is_unique (s ∷ ss) = let rest = is_unique ss in if contains s ss then false else rest

contains-++ :
    (s : String) (xs : List String) (t : String)
    → contains s (xs ++ t ∷ []) ≡ (contains s xs || t == s)
contains-++ s [] t = ground arith
contains-++ s (x ∷ xs) t = ground (arith, contains-++ s xs t)

differ : (s t : String) → (s == t) ≡ false → (t == s) ≡ false
differ s t h = ground arith

is_unique-++ :
    (xs : List String) (t : String)
    → is_unique xs ≡ true
    → contains t xs ≡ false
    → is_unique (xs ++ t ∷ []) ≡ true
unfolding is_unique
is_unique-++ [] t u n = refl
is_unique-++ (x ∷ xs) t u n = ground (arith, contains-++ x xs t, is_unique-++ xs t, differ x t)

-- The bundles have these paths, in this order.
pub data HasPaths (env : Env) : List Json → List String → Type 0 where
  no_bundle : HasPaths env [] []
  one_more :
      (bundle : Json) (path : String) (bundles : List Json) (paths : List String)
      → bundle_path env bundle ≡ ok path
      → HasPaths env bundles paths
      → HasPaths env (bundle ∷ bundles) (path ∷ paths)

HasPaths-++ :
    (env : Env) (bundles : List Json) (paths : List String) (bundle : Json) (path : String)
    → HasPaths env bundles paths
    → bundle_path env bundle ≡ ok path
    → HasPaths env (bundles ++ bundle ∷ []) (paths ++ path ∷ [])
HasPaths-++ env _ _ bundle path no_bundle e = one_more bundle path [] [] e no_bundle
HasPaths-++ env _ _ bundle path (one_more b p bs ps e' h) e =
    one_more b p _ _ e' (HasPaths-++ env bs ps bundle path h e)

-- Each bundle stands with its path, and no path stands twice.
pub record IsListed (env : Env) (found : List Json × List String) : Type 0 where
  pub has_paths : HasPaths env found.0 found.1
  pub once : is_unique found.1 ≡ true

module _ (env : Env) where
  kept :
      (seen : Bool) (bundles : List Json) (paths : List String) (bundle : Json) (path : String)
      → contains path paths ≡ seen
      → bundle_path env bundle ≡ ok path
      → IsListed env (bundles, paths)
      → IsListed env (
        (if seen then bundles else bundles ++ bundle ∷ []),
        (if seen then paths else paths ++ path ∷ []),
      )
  kept true bundles paths bundle path s e h = h
  kept false bundles paths bundle path s e h = record {
    has_paths = HasPaths-++ env bundles paths bundle path h.has_paths e;
    once = is_unique-++ paths path h.once s;
  }

  unique_from-IsListed :
      (present bundles : List Json) (paths : List String) (found : List Json × List String)
      → IsListed env (bundles, paths)
      → unique_from env bundles paths present ≡ ok found
      → IsListed env found
  unfolding unique_from
  unique_from-IsListed [] bundles paths found h e =
      let same : Path (List Json × List String) (bundles, paths) found = cc in
      subst (IsListed env) same h
  unique_from-IsListed (bundle ∷ present) bundles paths found h e =
      split
        (λ path b e'.
          unique_from-IsListed present _ _ found
            (kept (contains path paths) bundles paths bundle path refl b h) e')
        (bundle_path env bundle) refl e
    where
      split :
          ((path : String)
            → bundle_path env bundle ≡ ok path
            → unique_from env
                (if contains path paths then bundles else bundles ++ bundle ∷ [])
                (if contains path paths then paths else paths ++ path ∷ [])
                present
              ≡ ok found
            → IsListed env found)
          → (r : Result String) → bundle_path env bundle ≡ r
          → elim r [
            | err x ↦ err x
            | ok path ↦
                unique_from env
                  (if contains path paths then bundles else bundles ++ bundle ∷ [])
                  (if contains path paths then paths else paths ++ path ∷ [])
                  present
          ]
            ≡ ok found
          → IsListed env found
      split go (err x) b e = cc
      split go (ok path) b e = go path b e

  parse_present-IsListed :
      (output : String) (found : List Json × List String)
      → parse_present env output ≡ ok found
      → IsListed env found
  unfolding is_unique
  parse_present-IsListed output found h = split (load_all env (split_bundles output)) h
    where
      split :
          (r : Result (List Json))
          → elim r [ err e ↦ err e | ok present ↦ unique_from env [] [] present ] ≡ ok found
          → IsListed env found
      split (err e) h = cc
      split (ok present) h =
          unique_from-IsListed present [] [] found (record { has_paths = no_bundle; once = refl }) h

  last-IsListed :
      (b : Bool) (output : String)
      → Returns (IsListed env) (if b then pure ([], []) else lift (parse_present env output))
  unfolding is_unique
  last-IsListed true output = record {
    at = λ w found h.
        let same : Path (List Json × List String) ([], []) found = cc in
        subst (IsListed env) same (record { has_paths = no_bundle; once = refl });
  }
  last-IsListed false output = record { at = λ w found h. parse_present-IsListed output found h }

  -- Where the bundles of an index image are read, they stand with their paths in the same order, and
  -- no path stands twice, however often opm lists it.
  pub get_present_bundles-IsListed :
      (from_index base_dir : String)
      → Returns (IsListed env) (get_present_bundles env from_index base_dir)
  unfolding get_present_bundles
  get_present_bundles-IsListed from_index base_dir =
      Returns-bind (get_index_database env from_index base_dir) _ (λ w0 db h0.
        Returns-bind (serve_index_registry env db) _ (λ w1 port h1.
          Returns-bind
            (run_cmd env
              ("grpcurl"
                ∷ "-plaintext"
                ∷ ("localhost:" ⧺ decimal port)
                ∷ "api.Registry/ListBundles"
                ∷ [])
              none (some "Failed to get bundle data from index image"))
            _
            (λ w2 output h2.
              Returns-bind (emit killed) _ (λ w3 nothing h3. last-IsListed (output == "") output))))
