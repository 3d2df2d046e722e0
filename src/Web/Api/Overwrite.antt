-- ===== src/Web/Api/Overwrite.antt =====
-- Whose submission to iib/web/api_v1.py overwrites an index image.
use iib.Common.{
  inl, inr, String, ◌≡◌, refl, true, false, ap, ◌∙◌, subst, arith, ℕ, dec_str, ◌==◌, none,
}
use iib.Common.Dict.{Dict, get-put}
use iib.Exn.{ok, Result-cases}
use iib.Json.{Json, obj, Fields, fields, truthy}
use iib.Web.Params.{get_or_null}
use iib.Web.Session.{Env, World, serve, rollback}
use iib.Web.Session.Returns.{Ensures, Ensures-lift, Ensures-first}
use iib.Web.FromJson.Add.{add_from_json}
use iib.Web.Api.Submit.{merge_index_image}
use iib.Web.FromJson.Overwrite.{Ensures-merge_from_json}
use iib.Web.FromJson.Merge.{merge_from_json}
use iib.Web.FromJson.Rm.{rm_from_json}
use iib.Web.FromJson.Overwrite.{MayOverwrite, Ensures-add_from_json, Ensures-rm_from_json}
use iib.Web.Api.Submit.{
  as_object, with_unique_bundles, unique_bundles_of, add_bundles, rm_operators,
}

with_unique_bundles-get :
    (k : String) (given payload : Dict Json)
    → ("bundles" == k) ≡ false
    → with_unique_bundles given ≡ ok payload
    → get_or_null k payload ≡ get_or_null k given
unfolding with_unique_bundles get_or_null
with_unique_bundles-get k given payload b h =
    elim (Result-cases (unique_bundles_of (get_or_null "bundles" given))) [
      | inl (e, refused) ↦ ground arith
      | inr (v, unique) ↦ ground (arith, get-put k "bundles" v given)
    ]

module _ (env : Env) (fs : Fields) where
  Ensures-rm_operators :
      truthy (get_or_null "overwrite_from_index" (fields fs)) ≡ true
      → Ensures
          (MayOverwrite env (truthy (get_or_null "overwrite_from_index_token" (fields fs))))
          (rm_operators env (obj fs))
  unfolding rm_operators as_object
  Ensures-rm_operators t =
      Ensures-first (rm_from_json env (fields fs) none) _
        (Ensures-rm_from_json env (fields fs) none t)

  with_unique_bundles-get_overwrite :
      (payload : Dict Json)
      → with_unique_bundles (fields fs) ≡ ok payload
      → get_or_null "overwrite_from_index" payload ≡ get_or_null "overwrite_from_index" (fields fs)
  unfolding dec_str
  with_unique_bundles-get_overwrite payload e =
      with_unique_bundles-get "overwrite_from_index" (fields fs) payload refl e

  with_unique_bundles-get_token :
      (payload : Dict Json)
      → with_unique_bundles (fields fs) ≡ ok payload
      → get_or_null "overwrite_from_index_token" payload
        ≡ get_or_null "overwrite_from_index_token" (fields fs)
  unfolding dec_str
  with_unique_bundles-get_token payload e =
      with_unique_bundles-get "overwrite_from_index_token" (fields fs) payload refl e

  Ensures-add_bundles :
      truthy (get_or_null "overwrite_from_index" (fields fs)) ≡ true
      → Ensures
          (MayOverwrite env (truthy (get_or_null "overwrite_from_index_token" (fields fs))))
          (add_bundles env (obj fs))
  unfolding add_bundles as_object
  Ensures-add_bundles t = Ensures-lift (with_unique_bundles (fields fs)) _ (λ payload e.
      Ensures-first (add_from_json env payload none) _ (
        subst (λ v. Ensures (MayOverwrite env (truthy v)) (add_from_json env payload none))
          (with_unique_bundles-get_token payload e)
          (Ensures-add_from_json env payload none
            (ap truthy (with_unique_bundles-get_overwrite payload e) ∙ t))))

-- A request to add that is accepted and asks to overwrite its index image carries a token, or is
-- a privileged user's, or authentication is disabled.
pub add_bundles-MayOverwrite :
    (env : Env) (fs : Fields) (w : World) (id : ℕ)
    → (serve (add_bundles env (obj fs)) w).0 ≡ ok id
    → truthy (get_or_null "overwrite_from_index" (fields fs)) ≡ true
    → MayOverwrite env (truthy (get_or_null "overwrite_from_index_token" (fields fs)))
unfolding serve rollback
add_bundles-MayOverwrite env fs w id h t = (Ensures-add_bundles env fs t).at (rollback w).1 id h

-- A request to remove that is accepted and asks to overwrite its index image carries a token, or is
-- a privileged user's, or authentication is disabled.
pub rm_operators-MayOverwrite :
    (env : Env) (fs : Fields) (w : World) (id : ℕ)
    → (serve (rm_operators env (obj fs)) w).0 ≡ ok id
    → truthy (get_or_null "overwrite_from_index" (fields fs)) ≡ true
    → MayOverwrite env (truthy (get_or_null "overwrite_from_index_token" (fields fs)))
unfolding serve rollback
rm_operators-MayOverwrite env fs w id h t = (Ensures-rm_operators env fs t).at (rollback w).1 id h

-- A merge request that is accepted and asks to overwrite its target index carries a token.
pub merge_index_image_token :
    (env : Env) (fs : Fields) (w : World) (id : ℕ)
    → (serve (merge_index_image env (obj fs)) w).0 ≡ ok id
    → truthy (get_or_null "overwrite_target_index" (fields fs)) ≡ true
    → truthy (get_or_null "overwrite_target_index_token" (fields fs)) ≡ true
unfolding serve rollback merge_index_image as_object
merge_index_image_token env fs w id h t =
    (Ensures-first (merge_from_json env (fields fs) none) _
        (Ensures-merge_from_json env (fields fs) none t)).at
      (rollback w).1 id h
