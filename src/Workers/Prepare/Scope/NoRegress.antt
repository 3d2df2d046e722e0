-- ===== src/Workers/Prepare/Scope/NoRegress.antt =====
-- Which distribution scopes `_validate_distribution_scope` of iib/workers/tasks/utils.py accepts.
use iib.Common.{
  ℕ, ◌≤◌, String, Bool, true, false, Option, none, some, ◌≡◌, sym, subst, ◌∙◌, arith, if◌then◌else◌,
  ◌==◌,
}
use iib.Exn.{Result, ok, ◌>>=◌, >>=-eq-ok}
use iib.Json.{Json, str}
use iib.Workers.Prepare.Scope.{scope_index, validate_distribution_scope, compare_scopes}

ok-inj : {a b : ℕ} → Path (Result ℕ) (ok a) (ok b) → a ≡ b
ok-inj h = cc

compare_scopes-ok :
    (asked limit : ℕ) (resolved s : String) (v : Json)
    → compare_scopes asked limit resolved s ≡ ok v
    → (v ≡ str s) × (asked ≤ limit)
compare_scopes-ok asked limit resolved s v h = ground arith

-- Either branch of the test for no scope.
accepted-le :
    (is_empty : Bool) (resolved v : Json) (limit : ℕ) (resolved_text s : String)
    → scope_index resolved ≡ ok limit
    → (if is_empty
        then ok resolved
        else (scope_index (str s) >>= λ asked.
            scope_index resolved >>= λ limit. compare_scopes asked limit resolved_text s))
      ≡ ok v
    → (n : ℕ) × (scope_index v ≡ ok n) × (n ≤ limit)
accepted-le true resolved v limit resolved_text s i h =
    let same : resolved ≡ v = cc in (limit, rw (← same) i, omega arith)
accepted-le false resolved v limit resolved_text s i h =
    let (asked, e, rest) = >>=-eq-ok (scope_index (str s)) _ h in
    let (limit', e', last) = >>=-eq-ok (scope_index resolved) _ rest in
    let (is, bound) = compare_scopes-ok asked limit' resolved_text s v last in
    let same : limit ≡ limit' = ok-inj (sym i ∙ e') in
    (
      asked,
      subst (λ u. scope_index u ≡ ok asked) (sym is) e,
      subst (λ n. asked ≤ n) (sym same) bound,
    )

-- With dev < stage < prod: where the scope of the index image is one of the three, and a request's
-- scope is accepted (or none is given, and that of the image is taken), the scope returned is one
-- of the three and not above that of the image.
pub validate_distribution_scope-le :
    (text : Json → String) (resolved : Json) (scope : Option String) (v : Json) (limit : ℕ)
    → scope_index resolved ≡ ok limit
    → validate_distribution_scope text resolved scope ≡ ok v
    → (n : ℕ) × (scope_index v ≡ ok n) × (n ≤ limit)
unfolding validate_distribution_scope
validate_distribution_scope-le text resolved none v limit i h =
    let same : resolved ≡ v = cc in (limit, rw (← same) i, omega arith)
validate_distribution_scope-le text resolved (some s) v limit i h =
    accepted-le (s == "") resolved v limit (text resolved) s i h
