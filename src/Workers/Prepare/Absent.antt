-- ===== src/Workers/Prepare/Absent.antt =====
-- What a request that does not name an index image, or no bundles, gets from its preparation.
use iib.Common.{
  ℕ, String, Option, none, some, List, [], ◌∷◌, ◌≡◌, refl, ap, sym, ◌∙◌, subst, All, ==-eq, ◌==◌,
  Bool, true, false, if◌then◌else◌,
}
use iib.Common.Dict.{Dict, get}
use iib.Exn.{Result, ok, err, key_error}
use iib.Workers.Exec.{Env, World}
use iib.Workers.Exec.Returns.{Returns, Returns-bind, Returns-for_each}
use iib.Workers.Prepare.Config.{RequestConfig, token_of, index_of, bundles_of}
use iib.Workers.Prepare.Steps.{prepare_request_for_build-Prepared}
use iib.Workers.Prepare.{
  IndexInfo, Prebuild, get_index_image_info, get_all_index_images_info, info_of, map_bundles,
  prepare_request_for_build, index_versions,
}

-- An index image that the request does not name is not resolved, and without bundles none is mapped.
pub record HasAbsent (config : RequestConfig) (p : Prebuild) : Type 0 where
  pub no_from_index : index_of config "from_index" ≡ none → p.from_index_resolved ≡ none
  pub no_source : index_of config "source_from_index" ≡ none → p.source_from_index_resolved ≡ none
  pub no_target : index_of config "target_index" ≡ none → p.target_index_resolved ≡ none
  pub no_bundles : bundles_of config ≡ [] → p.bundle_mapping ≡ []

pub record Absent (config : RequestConfig) (entry : String × IndexInfo) : Type 0 where
  pub holds : index_of config entry.0 ≡ none → entry.1.resolved_from_index ≡ none

info-absent :
    (env : Env) (token from_index : Option String) (version : String) (w : World) (info : IndexInfo)
    → (get_index_image_info env token from_index version w).0 ≡ ok info
    → from_index ≡ none
    → info.resolved_from_index ≡ none
unfolding get_index_image_info
info-absent env token none version w info h e = ap (λ r. resolved r) (sym h)
  where
    resolved : Result IndexInfo → Option String
    resolved (ok i) = i.resolved_from_index
    resolved (err e) = none
info-absent env token (some s) version w info h e = cc

infos-Absent :
    (env : Env) (config : RequestConfig) (versions : Dict String)
    → Returns (All (Absent config)) (get_all_index_images_info env config versions)
unfolding get_all_index_images_info
infos-Absent env config versions =
    Returns-for_each _
      (λ entry.
        Returns-bind (get_index_image_info env (token_of config) (index_of config entry.0) entry.1)
          _
          (λ w info h. record {
            at = λ w' found e.
                let same : Path (String × IndexInfo) (entry.0, info) found = cc in
                subst (Absent config) same (record {
                  holds =
                      info-absent env (token_of config) (index_of config entry.0) entry.1 w info h;
                });
          }))
      versions

-- The entry that a lookup finds is the first of the name, or one of the others.
picked :
    (is_first : Bool) (v info : IndexInfo) (name : String) (infos : Dict IndexInfo)
    → Path
        (Result IndexInfo)
        (elim (if is_first then some v else get name infos) [
          | some i ↦ ok i
          | none ↦ err key_error
        ])
        (ok info)
    → (is_first ≡ true → v.resolved_from_index ≡ none)
    → (info_of name infos ≡ ok info → info.resolved_from_index ≡ none)
    → info.resolved_from_index ≡ none
unfolding info_of
picked true v info name infos h first others =
    let same : v ≡ info = cc in
    subst (λ (i : IndexInfo). i.resolved_from_index ≡ none) same (first refl)
picked false v info name infos h first others = others h

found-Absent :
    (config : RequestConfig) (name : String) (infos : Dict IndexInfo) (info : IndexInfo)
    → All (Absent config) infos
    → info_of name infos ≡ ok info
    → index_of config name ≡ none
    → info.resolved_from_index ≡ none
unfolding info_of get
found-Absent config name [] info a h e = cc
found-Absent config name ((k, v) ∷ infos) info a h e =
    picked (k == name) v info name infos h (λ t. a.0.holds (rw (==-eq k name t) e))
      (λ h'. found-Absent config name infos info a.1 h' e)

unmapped :
    (env : Env) (w : World) (bundles : List String) (mapping : Dict (List String))
    → bundles ≡ []
    → (map_bundles env [] bundles w).0 ≡ ok mapping
    → mapping ≡ []
unfolding map_bundles
unmapped env w [] mapping e h = cc
unmapped env w (b ∷ bundles) mapping e h = cc

pub prepare_request_for_build-HasAbsent :
    (env : Env) (request_id : ℕ) (config : RequestConfig)
    → Returns (HasAbsent config) (prepare_request_for_build env request_id config)
prepare_request_for_build-HasAbsent env request_id config = record {
  at = λ w p h.
      let s = (prepare_request_for_build-Prepared env request_id config).at w p h in
      let a = (infos-Absent env config index_versions).at s.at_infos s.infos s.infos_are in
      record {
        no_from_index =
            λ e. s.from_index_resolved ∙ found-Absent config _ s.infos _ a s.from_index_is e;
        no_source = λ e. s.source_resolved ∙ found-Absent config _ s.infos _ a s.source_is e;
        no_target = λ e. s.target_resolved ∙ found-Absent config _ s.infos _ a s.target_is e;
        no_bundles = λ e. unmapped env s.at_mapping _ p.bundle_mapping e s.mapping_is;
      };
}
