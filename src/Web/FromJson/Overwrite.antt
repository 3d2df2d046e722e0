-- ===== src/Web/FromJson/Overwrite.antt =====
-- Who may overwrite an index image.
use iib.Common.{
  ap, dec_str, subst, ◌∙◌, Option-cases, Bool-cases, String, ◌≡◌, refl, Bool, true, false, Option,
  none, some, List, [], ◌++◌, ◌==◌, ◌⊎◌, inl, inr, arith, contains, ℕ,
}
use iib.Common.Dict.{Dict, remove, get-remove}
use iib.Exn.{ok}
use iib.Json.{Json, bool, truthy, is_bool}
use iib.Web.Params.{get_or_null, get_or_else, validate_request_params}
use iib.Web.Params.Accepted.{validate_request_params_iff, get-drop_empty}
use iib.Web.Session.{Env, lift, raise_if}
use iib.Web.Session.Returns.{Ensures, Ensures-now, Ensures-lift, Ensures-bind, Ensures-first}
use iib.Web.FromJson.Add.{add_from_json, optional_params, check_list, check_string}
use iib.Web.Session.{for_each, get_or_create_image}
use iib.Web.FromJson.Index.{image_if_set}
use iib.Web.FromJson.Merge.{merge_from_json, check_overwrite_target}
use iib.Web.FromJson.Rm.{rm_from_json}
use iib.Web.FromJson.Index.{
  index_from_json, index_params, check_privileged, check_overwrite, check_scope,
}

-- Authentication is disabled, a token is given, or the user is privileged.
abbrev pub MayOverwrite : Env → (has_token : Bool) → Type 0
MayOverwrite env has_token =
    (env.current_user ≡ none)
    ⊎ ((has_token ≡ true)
        ⊎ ((username : String) × (env.current_user ≡ some username)
            × (contains username env.config.privileged_usernames ≡ true)))

check_privileged-MayOverwrite :
    (env : Env) (overwrite token : Json)
    → check_privileged env overwrite token ≡ ok tt
    → truthy overwrite ≡ true
    → MayOverwrite env (truthy token)
unfolding check_privileged
check_privileged-MayOverwrite env overwrite token h t = elim (Option-cases env.current_user) [
  | inl nobody ↦ inl nobody
  | inr (username, user) ↦ elim (Bool-cases (truthy token)) [
    | inl given ↦ inr (inl given)
    | inr no_token ↦ elim (Bool-cases (contains username env.config.privileged_usernames)) [
      | inl privileged ↦ inr (inr (username, user, privileged))
      | inr refused ↦ cc (rw (user, t, no_token, refused, check_privileged) at h)
    ]
  ]
]

truthy-or_null : Option Json → Bool
truthy-or_null none = false
truthy-or_null (some v) = truthy v

-- What `validate_request_params` leaves of a parameter is empty where the parameter is.
validate-truthy :
    (params kwargs : Dict Json) (required optional : List String) (k : String)
    → validate_request_params params required optional ≡ ok kwargs
    → truthy (get_or_null k kwargs) ≡ truthy (get_or_null k params)
unfolding get_or_null truthy is_bool
validate-truthy params kwargs required optional k e =
    let (_, left) = (validate_request_params_iff params kwargs required optional).0 e in
    let same = get-drop_empty k optional params in ground arith

truthy-get_or_else :
    (k : String) (d : Dict Json) → truthy (get_or_else k (bool false) d) ≡ truthy (get_or_null k d)
unfolding get_or_null get_or_else truthy
truthy-get_or_else k d = ground arith

-- What `RequestAdd.from_json` passes on to `_from_json`.
abbrev stored : Dict Json → Dict Json
stored kwargs = remove "force_backport" (remove "cnr_token" kwargs)

get-stored :
    (k : String) (kwargs : Dict Json)
    → ("force_backport" == k) ≡ false
    → ("cnr_token" == k) ≡ false
    → get_or_null k (stored kwargs) ≡ get_or_null k kwargs
unfolding get_or_null
get-stored k kwargs b c = ground (
  arith,
  get-remove k "cnr_token" kwargs,
  get-remove k "force_backport" (remove "cnr_token" kwargs),
)

get-stored_overwrite :
    (kwargs : Dict Json)
    → get_or_null "overwrite_from_index" (stored kwargs) ≡ get_or_null "overwrite_from_index" kwargs
unfolding dec_str
get-stored_overwrite kwargs = get-stored "overwrite_from_index" kwargs refl refl

get-stored_token :
    (kwargs : Dict Json)
    → get_or_null "overwrite_from_index_token" (stored kwargs)
      ≡ get_or_null "overwrite_from_index_token" kwargs
unfolding dec_str
get-stored_token kwargs = get-stored "overwrite_from_index_token" kwargs refl refl

module _ (env : Env) where
  -- A payload that `_from_json` takes and that asks for an overwrite is allowed to.
  Ensures-index_from_json :
      (params : Dict Json) (required optional : List String) (batch : Option ℕ)
      → truthy (get_or_null "overwrite_from_index" params) ≡ true
      → Ensures
          (MayOverwrite env (truthy (get_or_null "overwrite_from_index_token" params)))
          (index_from_json env params required optional batch)
  unfolding index_from_json
  Ensures-index_from_json params required optional batch t =
      Ensures-lift (validate_request_params params required (index_params ++ optional)) _
        (λ kwargs e0. Ensures-bind (raise_if _ _) _ (λ _.
          Ensures-bind (lift (check_overwrite _ _)) _ (λ _.
            Ensures-bind (lift (check_scope _)) _ (λ scope.
              Ensures-lift (check_privileged env _ _) _ (λ _ allowed. Ensures-now _ (
                subst (MayOverwrite env)
                  (validate-truthy params kwargs required _ "overwrite_from_index_token" e0)
                  (check_privileged-MayOverwrite env _ _ allowed (
                    truthy-get_or_else "overwrite_from_index" kwargs
                    ∙ validate-truthy params kwargs required _ "overwrite_from_index" e0
                    ∙ t))))))))

  pub Ensures-rm_from_json :
      (kwargs : Dict Json) (batch : Option ℕ)
      → truthy (get_or_null "overwrite_from_index" kwargs) ≡ true
      → Ensures
          (MayOverwrite env (truthy (get_or_null "overwrite_from_index_token" kwargs)))
          (rm_from_json env kwargs batch)
  unfolding rm_from_json
  Ensures-rm_from_json kwargs batch t = Ensures-bind (raise_if _ _) _ (λ _.
      Ensures-first (index_from_json env kwargs _ _ batch) _
        (Ensures-index_from_json kwargs _ _ batch t))

  Ensures-stored :
      (kwargs : Dict Json) (batch : Option ℕ)
      → truthy (get_or_null "overwrite_from_index" kwargs) ≡ true
      → Ensures
          (MayOverwrite env (truthy (get_or_null "overwrite_from_index_token" kwargs)))
          (index_from_json env (stored kwargs) [] optional_params batch)
  Ensures-stored kwargs batch t =
      subst
        (λ v.
          Ensures (MayOverwrite env (truthy v))
            (index_from_json env (stored kwargs) [] optional_params batch))
        (get-stored_token kwargs)
        (Ensures-index_from_json (stored kwargs) [] optional_params batch
          (ap truthy (get-stored_overwrite kwargs) ∙ t))

  pub Ensures-add_from_json :
      (kwargs : Dict Json) (batch : Option ℕ)
      → truthy (get_or_null "overwrite_from_index" kwargs) ≡ true
      → Ensures
          (MayOverwrite env (truthy (get_or_null "overwrite_from_index_token" kwargs)))
          (add_from_json env kwargs batch)
  unfolding add_from_json
  Ensures-add_from_json kwargs batch t = Ensures-bind (lift (check_list "bundles" kwargs)) _ (λ _.
      Ensures-bind (lift (check_list "deprecation_list" kwargs)) _ (λ _.
        Ensures-bind (raise_if _ _) _ (λ _.
          Ensures-bind (lift (check_string "cnr_token" kwargs)) _ (λ _.
            Ensures-bind (lift (check_string "organization" kwargs)) _ (λ _.
              Ensures-bind (raise_if _ _) _ (λ _.
                Ensures-first (index_from_json env (stored kwargs) _ _ batch) _
                  (Ensures-stored kwargs batch t)))))))

check_overwrite_target-token :
    (overwrite token : Json)
    → check_overwrite_target overwrite token ≡ ok tt
    → truthy overwrite ≡ true
    → truthy token ≡ true
unfolding check_overwrite_target
check_overwrite_target-token overwrite token h t = ground arith

-- A payload that `RequestMergeIndexImage.from_json` takes and that asks for an overwrite has a
-- token.
pub Ensures-merge_from_json :
    (env : Env) (kwargs : Dict Json) (batch : Option ℕ)
    → truthy (get_or_null "overwrite_target_index" kwargs) ≡ true
    → Ensures
        (truthy (get_or_null "overwrite_target_index_token" kwargs) ≡ true)
        (merge_from_json env kwargs batch)
unfolding merge_from_json
Ensures-merge_from_json env kwargs batch t = Ensures-bind (raise_if _ _) _ (λ _.
    Ensures-bind (for_each get_or_create_image _) _ (λ deprecated.
      Ensures-bind (raise_if _ _) _ (λ _. Ensures-bind (get_or_create_image _) _ (λ source.
        Ensures-bind (raise_if _ _) _ (λ _. Ensures-bind (image_if_set _) _ (λ target.
          Ensures-lift (check_overwrite_target _ _) _ (λ _ e. Ensures-now _ (
            check_overwrite_target-token _ _ e
              (truthy-get_or_else "overwrite_target_index" kwargs ∙ t)))))))))
