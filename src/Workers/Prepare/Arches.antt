-- ===== src/Workers/Prepare/Arches.antt =====
-- What `prepare_request_for_build` has made sure of where it returns.
use iib.Common.{ℕ, String, true, List, [], ◌∷◌, ◌≡◌, ◌≢◌}
use iib.Common.Dict.{Dict}
use iib.Exn.{Result, ok, err, iib_error}
use iib.Workers.Values.{union}
use iib.Workers.Exec.{Env, World}
use iib.Workers.Images.{get_image_arches}
use iib.Workers.Prepare.Config.{RequestConfig, add_arches_of}
use iib.Workers.Prepare.Steps.{prepare_request_for_build-Prepared}
use iib.Workers.Prepare.{
  IndexInfo, Prebuild, gather_index_image_arches, prepare_request_for_build, is_subset, all_arches,
}

-- The binary image, when it was asked for its arches, had all of those to build, of which there is
-- at least one.
pub record IsBuildable (env : Env) (p : Prebuild) : Type 0 where
  pub some_arch : p.arches ≢ []
  pub image_arches : List String
  pub when : World
  pub answered : (get_image_arches env p.binary_image_resolved when).0 ≡ ok image_arches
  pub available : is_subset p.arches image_arches ≡ true

checked-some :
    (found arches : List String)
    → Path
        (Result (List String))
        (elim found [
          | [] ↦ err (iib_error "No arches were provided to build the index image")
          | arch ∷ rest ↦ ok (arch ∷ rest)
        ])
        (ok arches)
    → arches ≢ []
checked-some [] arches h = cc
checked-some (arch ∷ rest) arches h = λ none. cc

gather-some :
    (config : RequestConfig) (infos : Dict IndexInfo) (arches : List String)
    → gather_index_image_arches config infos ≡ ok arches
    → arches ≢ []
unfolding gather_index_image_arches
gather-some config infos arches h =
    checked-some (all_arches (union [] (add_arches_of config)) infos) arches h

-- Where the preparation of a request returns, there is an arch to build for, and the binary image was
-- found to be available for every arch.
pub prepare_request_for_build-IsBuildable :
    (env : Env) (request_id : ℕ) (config : RequestConfig) (w : World) (p : Prebuild)
    → (prepare_request_for_build env request_id config w).0 ≡ ok p
    → IsBuildable env p
prepare_request_for_build-IsBuildable env request_id config w p h =
    let s = (prepare_request_for_build-Prepared env request_id config).at w p h in
    record {
      some_arch = gather-some config s.infos p.arches s.arches_are;
      image_arches = s.image_arches;
      when = s.at_arches;
      answered = s.image_arches_are;
      available = s.available;
    }
