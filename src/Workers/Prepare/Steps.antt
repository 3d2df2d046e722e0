-- ===== src/Workers/Prepare/Steps.antt =====
-- The steps of `prepare_request_for_build`, where it returns.
use iib.Common.{ℕ, String, Bool, true, false, not, List, [], ◌≡◌, refl, subst}
use iib.Common.Dict.{Dict}
use iib.Exn.{Result, ok}
use iib.Workers.Exec.{Env, World, lift, raise_if}
use iib.Workers.Exec.Returns.{Returns, Returns-bind, raise_if-ok}
use iib.Workers.Api.{set_request_state, text_of}
use iib.Workers.Images.{get_image_arches, get_resolved_image}
use iib.Workers.Prepare.Config.{RequestConfig, bundles_of, binary_image}
use iib.Workers.Prepare.{
  get_all_index_images_info, info_of, scope_for, map_bundles, index_versions, IndexInfo, Prebuild,
  gather_index_image_arches, prepare_request_for_build, is_subset, arches_missing, arches_without,
}

-- What each step returned, at the state that it was taken in.
pub record Prepared (env : Env) (config : RequestConfig) (p : Prebuild) : Type 0 where
  pub infos : Dict IndexInfo
  pub from_index : IndexInfo
  pub source : IndexInfo
  pub target : IndexInfo
  pub image_arches : List String
  pub at_infos : World
  pub at_arches : World
  pub at_mapping : World
  pub infos_are : (get_all_index_images_info env config index_versions at_infos).0 ≡ ok infos
  pub arches_are : gather_index_image_arches config infos ≡ ok p.arches
  pub from_index_is : info_of "from_index" infos ≡ ok from_index
  pub source_is : info_of "source_from_index" infos ≡ ok source
  pub target_is : info_of "target_index" infos ≡ ok target
  pub scope_is : scope_for env config from_index target ≡ ok p.distribution_scope
  pub image_arches_are :
      (get_image_arches env p.binary_image_resolved at_arches).0 ≡ ok image_arches
  pub available : is_subset p.arches image_arches ≡ true
  pub mapping_is : (map_bundles env [] (bundles_of config) at_mapping).0 ≡ ok p.bundle_mapping
  pub from_index_resolved : p.from_index_resolved ≡ from_index.resolved_from_index
  pub source_resolved : p.source_from_index_resolved ≡ source.resolved_from_index
  pub target_resolved : p.target_index_resolved ≡ target.resolved_from_index

not-false : (b : Bool) → not b ≡ false → b ≡ true
not-false true h = refl
not-false false h = cc

ok-inj : {A : Type 0} {a b : A} → Path (Result A) (ok a) (ok b) → a ≡ b
ok-inj h = cc

pub prepare_request_for_build-Prepared :
    (env : Env) (request_id : ℕ) (config : RequestConfig)
    → Returns (Prepared env config) (prepare_request_for_build env request_id config)
unfolding prepare_request_for_build
prepare_request_for_build-Prepared env request_id config =
    Returns-bind (set_request_state env request_id "in_progress" "Resolving the container images") _
      (λ w0 reply h0.
        Returns-bind (get_all_index_images_info env config index_versions) _ (λ w1 infos h1.
          Returns-bind (lift (gather_index_image_arches config infos)) _ (λ w2 arches h2.
            Returns-bind (lift (info_of "from_index" infos)) _ (λ w3 from_index h3.
              Returns-bind (lift (info_of "source_from_index" infos)) _ (λ w4 source h4.
                Returns-bind (lift (info_of "target_index" infos)) _ (λ w5 target h5.
                  Returns-bind (lift (scope_for env config from_index target)) _ (λ w6 scope h6.
                    Returns-bind
                      (lift (binary_image (text_of env) config from_index.ocp_version scope)) _
                      (λ w7 image h7.
                        Returns-bind (get_resolved_image env image) _ (λ w8 resolved h8.
                          Returns-bind (get_image_arches env resolved) _ (λ w9 image_arches h9.
                            Returns-bind
                              (raise_if (not (is_subset arches image_arches))
                                (arches_missing (arches_without image_arches arches)))
                              _
                              (λ w10 nothing h10.
                                Returns-bind (map_bundles env [] (bundles_of config)) _
                                  (λ w11 mapping h11. record {
                                    at = λ w p e. subst (Prepared env config) (ok-inj e) (record {
                                      infos = infos;
                                      from_index = from_index;
                                      source = source;
                                      target = target;
                                      image_arches = image_arches;
                                      at_infos = w1;
                                      at_arches = w9;
                                      at_mapping = w11;
                                      infos_are = h1;
                                      arches_are = h2;
                                      from_index_is = h3;
                                      source_is = h4;
                                      target_is = h5;
                                      scope_is = h6;
                                      image_arches_are = h9;
                                      available = not-false (is_subset arches image_arches) (
                                          raise_if-ok (not (is_subset arches image_arches))
                                            (arches_missing (arches_without image_arches arches))
                                            w10 h10);
                                      mapping_is = h11;
                                      from_index_resolved = refl;
                                      source_resolved = refl;
                                      target_resolved = refl;
                                    });
                                  }))))))))))))
