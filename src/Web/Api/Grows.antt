-- ===== src/Web/Api/Grows.antt =====
-- How the history of the requests grows, and one rule for each way to build an action.
pub mod Calls
pub mod Patch
pub mod Submit
pub mod Batches
pub mod Served
use iib.Common.{
  ℕ, String, ◌≡◌, refl, sym, ◌∙◌, ap, subst, Bool, true, false, some, List, [], ◌∷◌, ◌++◌, map,
  arith, inl, inr, ◌⊎◌, if◌then◌else◌,
}
use iib.Exn.{Exn, Result, ok, err}
use iib.Web.Tables.{Request, RequestState}
use iib.Web.Request.{refresh}
use iib.Web.Messaging.{find_request}
use iib.Web.Messaging.Find.{find_request-map-refresh}
use iib.Web.Session.{
  World, Exec, pure, raise, lift, raise_if, continue, ◌>>=◌, commit, for_each, get_or_create_image,
  get_or_create_operator, get_or_create_architecture,
}

-- The states of the second are those of the first and then others.
abbrev pub Extends : Request → Request → Type 0
Extends r r' = (new : List RequestState) × (r'.states ≡ r.states ++ new)

append_nil : (xs : List RequestState) → xs ++ [] ≡ xs
append_nil [] = refl
append_nil (x ∷ xs) = ap (λ ys. x ∷ ys) (append_nil xs)

append_assoc : (xs ys zs : List RequestState) → (xs ++ ys) ++ zs ≡ xs ++ (ys ++ zs)
append_assoc [] ys zs = refl
append_assoc (x ∷ xs) ys zs = ap (λ l. x ∷ l) (append_assoc xs ys zs)

pub Extends-same : (r r' : Request) → r'.states ≡ r.states → Extends r r'
Extends-same r r' e = ([], e ∙ sym (append_nil r.states))

pub Extends-trans : (a b c : Request) → Extends a b → Extends b c → Extends a c
Extends-trans a b c (x, p) (y, q) = (x ++ y, q ∙ ap (λ l. l ++ y) p ∙ append_assoc a.states x y)

-- Every request of the first list is in the second, with a history that extends its own.
pub record Grown (before after : List Request) : Type 0 where
  pub at :
      (id : ℕ) (r : Request)
      → find_request id before ≡ some r
      → (r' : Request) × (find_request id after ≡ some r') × Extends r r'

pub Grown-refl : (rs : List Request) → Grown rs rs
Grown-refl rs = record { at = λ id r e. (r, e, Extends-same r r refl) }

Grown-trans : {a b c : List Request} → Grown a b → Grown b c → Grown a c
Grown-trans p q = record {
  at = λ id r e.
      let (r1, e1, x1) = p.at id r e in
      let (r2, e2, x2) = q.at id r1 e1 in (r2, e2, Extends-trans r r1 r2 x1 x2);
}

-- Where the action returns, the requests of the session have grown; what it commits has grown from
-- the requests of the session.
pub record IsGrowing {A : Type 0} (m : Exec A) : Type 0 where
  pub tables :
      (w : World) (a : A) → (m w).0 ≡ ok a → Grown w.tables.requests (m w).1.tables.requests
  pub committed :
      (w : World)
      → ((m w).1.committed ≡ w.committed) ⊎ Grown w.tables.requests (m w).1.committed.requests

module _ {A B : Type 0} where
  IsGrowing-continue :
      (m : Exec A) (f : A → Exec B) (w : World) (r : Result A)
      → (m w).0 ≡ r
      → IsGrowing m
      → ((a : A) → IsGrowing (f a))
      → ((b : B)
          → (continue r f (m w).1).0 ≡ ok b
          → Grown w.tables.requests (continue r f (m w).1).1.tables.requests)
        × (((continue r f (m w).1).1.committed ≡ w.committed)
            ⊎ Grown w.tables.requests (continue r f (m w).1).1.committed.requests)
  IsGrowing-continue m f w (ok a) e km kf =
      let step = km.tables w a e in
      (
        λ b h. Grown-trans step ((kf a).tables (m w).1 b h),
        elim ((kf a).committed (m w).1) [
          | inr grown ↦ inr (Grown-trans step grown)
          | inl same ↦ elim (km.committed w) [
            | inl same' ↦ inl (same ∙ same')
            | inr grown ↦ inr (subst (λ t. Grown w.tables.requests t.requests) (sym same) grown)
          ]
        ],
      )
  IsGrowing-continue m f w (err x) e km kf = (λ b h. cc, km.committed w)

  pub IsGrowing-bind :
      (m : Exec A) (f : A → Exec B)
      → IsGrowing m
      → ((a : A) → IsGrowing (f a))
      → IsGrowing (m >>= f)
  IsGrowing-bind m f km kf = record {
    tables = λ w b h. (IsGrowing-continue m f w (m w).0 refl km kf).0 b h;
    committed = λ w. (IsGrowing-continue m f w (m w).0 refl km kf).1;
  }

module _ {A : Type 0} where
  -- An action that changes no request and commits nothing.
  pub IsGrowing-same :
      (m : Exec A)
      → ((w : World) → (m w).1.tables.requests ≡ w.tables.requests)
      → ((w : World) → (m w).1.committed ≡ w.committed)
      → IsGrowing m
  IsGrowing-same m t c = record {
    tables = λ w a h.
        subst (λ rs. Grown w.tables.requests rs) (sym (t w)) (Grown-refl w.tables.requests);
    committed = λ w. inl (c w);
  }

  pub IsGrowing-pure : (a : A) → IsGrowing (pure a)
  IsGrowing-pure a = IsGrowing-same (pure a) (λ w. refl) (λ w. refl)

  pub IsGrowing-raise : (e : Exn) → IsGrowing (raise {A = A} e)
  IsGrowing-raise e = IsGrowing-same (raise e) (λ w. refl) (λ w. refl)

  pub IsGrowing-lift : (r : Result A) → IsGrowing (lift r)
  IsGrowing-lift r = IsGrowing-same (lift r) (λ w. refl) (λ w. refl)

  pub IsGrowing-if :
      (b : Bool) (m n : Exec A) → IsGrowing m → IsGrowing n → IsGrowing (if b then m else n)
  IsGrowing-if true m n km kn = km
  IsGrowing-if false m n km kn = kn

pub IsGrowing-raise_if : (b : Bool) (e : Exn) → IsGrowing (raise_if b e)
IsGrowing-raise_if b e = IsGrowing-same (raise_if b e) (λ w. refl) (λ w. refl)

pub IsGrowing-get_or_create_image : (spec : String) → IsGrowing (get_or_create_image spec)
unfolding get_or_create_image
IsGrowing-get_or_create_image spec = IsGrowing-same _ (λ w. ground arith) (λ w. ground arith)

pub IsGrowing-get_or_create_operator : (name : String) → IsGrowing (get_or_create_operator name)
unfolding get_or_create_operator
IsGrowing-get_or_create_operator name = IsGrowing-same _ (λ w. ground arith) (λ w. ground arith)

pub IsGrowing-get_or_create_architecture :
    (name : String) → IsGrowing (get_or_create_architecture name)
unfolding get_or_create_architecture
IsGrowing-get_or_create_architecture name = IsGrowing-same _ (λ w. ground arith) (λ w. ground arith)

module _ {A B : Type 0} where
  pub IsGrowing-for_each :
      (f : A → Exec B) → ((a : A) → IsGrowing (f a)) → (xs : List A) → IsGrowing (for_each f xs)
  unfolding for_each
  IsGrowing-for_each f kf [] = IsGrowing-pure []
  IsGrowing-for_each f kf (x ∷ xs) = IsGrowing-bind (f x) _ (kf x) (λ y.
      IsGrowing-bind (for_each f xs) _ (IsGrowing-for_each f kf xs) (λ ys. IsGrowing-pure (y ∷ ys)))

Grown-refresh : (rs : List Request) → Grown rs (map refresh rs)
unfolding refresh
Grown-refresh rs = record {
  at = λ id r e. (refresh r, find_request-map-refresh id rs r e, Extends-same r (refresh r) refl);
}

pub IsGrowing-commit : IsGrowing commit
unfolding commit
IsGrowing-commit = record {
  tables = λ w a h. Grown-refresh w.tables.requests;
  committed = λ w. inr (Grown-refresh w.tables.requests);
}

pub ruleset growing_rules = (
  IsGrowing-bind, IsGrowing-pure, IsGrowing-raise, IsGrowing-lift, IsGrowing-if, IsGrowing-raise_if,
  IsGrowing-get_or_create_image, IsGrowing-get_or_create_operator,
  IsGrowing-get_or_create_architecture, IsGrowing-for_each, IsGrowing-commit,
)
