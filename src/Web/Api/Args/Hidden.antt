-- ===== src/Web/Api/Args/Hidden.antt =====
-- `_get_safe_args` hides the secrets of a payload in what is logged of a task's arguments.
use iib.Common.{
  ℕ, ◌+◌, ◌≤◌, String, ◌≡◌, true, false, List, [], ◌∷◌, arith, if◌then◌else◌, Bool-cases, inl, inr,
  All,
}
use iib.Common.Dict.{Dict}
use iib.Exn.{ok, >>=-eq-ok, Result-cases}
use iib.Json.{Json, truthy, json_eq}
use iib.Web.Params.{get_or_null}
use iib.Web.Api.Args.{hidden, hide, hide_if_set, get_safe_args}

-- How many arguments equal a value.
unfoldable pub count : Json → List Json → ℕ
count token [] = 0
count token (a ∷ args) = (if json_eq a token then 1 else 0) + count token args

module _ (token : Json) (visible : json_eq hidden token ≡ false) where
  -- Hiding a value takes one argument away that equals it.
  pub count-hide :
      (args safe : List Json) → hide token args ≡ ok safe → count token safe + 1 ≡ count token args
  unfolding count hide
  count-hide [] safe e = cc
  count-hide (a ∷ args) safe e = elim (Result-cases (hide token args)) [
    | inl (x, fails) ↦ ground arith
    | inr (rest, works) ↦ ground (arith, count-hide args rest works)
  ]

  -- Hiding another value adds none.
  count-hide-le :
      (other : Json) (args safe : List Json)
      → hide other args ≡ ok safe
      → count token safe ≤ count token args
  unfolding count hide
  count-hide-le other [] safe e = cc
  count-hide-le other (a ∷ args) safe e = elim (Result-cases (hide other args)) [
    | inl (x, fails) ↦ ground arith
    | inr (rest, works) ↦ ground (arith, count-hide-le other args rest works)
  ]

  count-hide_if_set-le :
      (other : Json) (args safe : List Json)
      → hide_if_set other args ≡ ok safe
      → count token safe ≤ count token args
  unfolding hide_if_set
  count-hide_if_set-le other args safe e = elim (Bool-cases (truthy other)) [
    | inl set ↦ count-hide-le other args safe (rw set at e)
    | inr unset ↦ ground arith
  ]

  count-hide_if_set :
      (args safe : List Json)
      → truthy token ≡ true
      → hide_if_set token args ≡ ok safe
      → count token safe + 1 ≡ count token args
  unfolding hide_if_set
  count-hide_if_set args safe set e = count-hide args safe (rw set at e)

-- The keys of a payload that hold a secret.
abbrev pub secret_keys : List String
secret_keys =
    "cnr_token" ∷ "overwrite_from_index_token" ∷ "overwrite_target_index_token" ∷ "registry_auths"
    ∷ []

-- The secret under a key is not among the safe arguments, if the key is set to something else than
-- the mask and the arguments held that value once.
abbrev pub IsHidden : Dict Json → (args safe : List Json) → String → Type 0
IsHidden payload args safe key =
    truthy (get_or_null key payload) ≡ true
    → json_eq hidden (get_or_null key payload) ≡ false
    → count (get_or_null key payload) args ≡ 1
    → count (get_or_null key payload) safe ≡ 0

-- Each secret of the payload that the arguments hold once is hidden.
pub get_safe_args-IsHidden :
    (args safe : List Json) (payload : Dict Json)
    → get_safe_args args payload ≡ ok safe
    → All (IsHidden payload args safe) secret_keys
unfolding get_safe_args
get_safe_args-IsHidden args safe payload e =
    let (a, ea, e1) = >>=-eq-ok (hide_if_set (get_or_null "cnr_token" payload) args) _ e in
    let (b, eb, e2) =
      >>=-eq-ok (hide_if_set (get_or_null "overwrite_from_index_token" payload) a) _ e1 in
    let (c, ec, ed) =
      >>=-eq-ok (hide_if_set (get_or_null "overwrite_target_index_token" payload) b) _ e2 in
    (
      λ set v once.
          let t = get_or_null "cnr_token" payload in
          omega (
            arith,
            count-hide_if_set t v args a set ea,
            count-hide_if_set-le t v _ a b eb,
            count-hide_if_set-le t v _ b c ec,
            count-hide_if_set-le t v _ c safe ed,
          ),
      (
        λ set v once.
            let t = get_or_null "overwrite_from_index_token" payload in
            omega (
              arith,
              count-hide_if_set t v a b set eb,
              count-hide_if_set-le t v _ args a ea,
              count-hide_if_set-le t v _ b c ec,
              count-hide_if_set-le t v _ c safe ed,
            ),
        (
          λ set v once.
              let t = get_or_null "overwrite_target_index_token" payload in
              omega (
                arith,
                count-hide_if_set t v b c set ec,
                count-hide_if_set-le t v _ args a ea,
                count-hide_if_set-le t v _ a b eb,
                count-hide_if_set-le t v _ c safe ed,
              ),
          (
            λ set v once.
                let t = get_or_null "registry_auths" payload in
                omega (
                  arith,
                  count-hide_if_set t v c safe set ed,
                  count-hide_if_set-le t v _ args a ea,
                  count-hide_if_set-le t v _ a b eb,
                  count-hide_if_set-le t v _ b c ec,
                ),
            tt,
          ),
        ),
      ),
    )

-- What one secret can hide.
abbrev as_one : Json → ℕ
as_one secret = if truthy secret then 1 else 0

-- How many secrets the payload sets.
abbrev pub set_secrets : Dict Json → ℕ
set_secrets payload =
    as_one (get_or_null "cnr_token" payload)
    + as_one (get_or_null "overwrite_from_index_token" payload)
    + as_one (get_or_null "overwrite_target_index_token" payload)
    + as_one (get_or_null "registry_auths" payload)

module _ (value : Json) where
  count-hide-ge :
      (secret : Json) (args safe : List Json)
      → hide secret args ≡ ok safe
      → count value args ≤ count value safe + 1
  unfolding count hide
  count-hide-ge secret [] safe e = cc
  count-hide-ge secret (a ∷ args) safe e = elim (Result-cases (hide secret args)) [
    | inl (x, fails) ↦ ground arith
    | inr (rest, works) ↦ ground (arith, count-hide-ge secret args rest works)
  ]

  count-hide_if_set-ge :
      (secret : Json) (args safe : List Json)
      → hide_if_set secret args ≡ ok safe
      → count value args ≤ count value safe + as_one secret
  unfolding hide_if_set
  count-hide_if_set-ge secret args safe e = elim (Bool-cases (truthy secret)) [
    | inl set ↦ rw set (count-hide-ge secret args safe (rw set at e))
    | inr unset ↦ ground arith
  ]

-- Whatever value some arguments equal, all of them stay readable but for at most one for each
-- secret that the payload sets: a secret that more arguments equal is still in the log.
pub get_safe_args_leaves :
    (value : Json) (args safe : List Json) (payload : Dict Json)
    → get_safe_args args payload ≡ ok safe
    → count value args ≤ count value safe + set_secrets payload
unfolding get_safe_args
get_safe_args_leaves value args safe payload e =
    let (a, ea, e1) = >>=-eq-ok (hide_if_set (get_or_null "cnr_token" payload) args) _ e in
    let (b, eb, e2) =
      >>=-eq-ok (hide_if_set (get_or_null "overwrite_from_index_token" payload) a) _ e1 in
    let (c, ec, ed) =
      >>=-eq-ok (hide_if_set (get_or_null "overwrite_target_index_token" payload) b) _ e2 in
    omega (
      arith,
      count-hide_if_set-ge value _ args a ea,
      count-hide_if_set-ge value _ a b eb,
      count-hide_if_set-ge value _ b c ec,
      count-hide_if_set-ge value _ c safe ed,
    )
