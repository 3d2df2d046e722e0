-- ===== src/Web/Session/Sound.antt =====
-- The invariant of the request table, and how an action takes it from one predicate to another.
use iib.Common.{
  String, ◌≡◌, refl, Bool, true, false, List, [], ◌∷◌, arith, All, All-map, map, if◌then◌else◌,
  subst, sym,
}
use iib.Exn.{Exn, Result, ok, err}
use iib.Web.Tables.{Request}
use iib.Web.Request.{refresh}
use iib.Web.Request.History.{IsSettled, IsSound, refresh-IsSound}
use iib.Web.Session.{
  World, Exec, pure, raise, lift, raise_if, continue, ◌>>=◌, commit, rollback, serve, for_each,
  get_or_create_image, get_or_create_operator, get_or_create_architecture,
}

-- From requests that have `K`, the action keeps the committed requests sound, and where it returns
-- it leaves requests that have `L`.
pub record Leads {A : Type 0} (K L : Request → Type 0) (m : Exec A) : Type 0 where
  pub committed :
      (w : World)
      → All K w.tables.requests
      → All IsSound w.committed.requests
      → All IsSound (m w).1.committed.requests
  pub tables :
      (w : World) (a : A) → All K w.tables.requests → (m w).0 ≡ ok a → All L (m w).1.tables.requests

module _ {A B : Type 0} {K L : Request → Type 0} where
  Leads-continue-tables :
      (r : Result A) (f : A → Exec B) (w : World) (b : B)
      → ((a : A) → r ≡ ok a → All K w.tables.requests)
      → ((a : A) → Leads K L (f a))
      → (continue r f w).0 ≡ ok b
      → All L (continue r f w).1.tables.requests
  Leads-continue-tables (ok a) f w b q kf h = (kf a).tables w b (q a refl) h
  Leads-continue-tables (err e) f w b q kf h = cc

  Leads-continue-committed :
      (r : Result A) (f : A → Exec B) (w : World)
      → ((a : A) → r ≡ ok a → All K w.tables.requests)
      → ((a : A) → Leads K L (f a))
      → All IsSound w.committed.requests
      → All IsSound (continue r f w).1.committed.requests
  Leads-continue-committed (ok a) f w q kf h = (kf a).committed w (q a refl) h
  Leads-continue-committed (err e) f w q kf h = h

module _ {A B : Type 0} {K L M : Request → Type 0} where
  pub Leads-bind :
      (m : Exec A) (f : A → Exec B)
      → Leads K L m
      → ((a : A) → Leads L M (f a))
      → Leads K M (m >>= f)
  Leads-bind m f km kf = record {
    committed = λ w p h.
        let (r, w') = m w in
        Leads-continue-committed r f w' (λ a e. km.tables w a p e) kf (km.committed w p h);
    tables = λ w b p h.
        let (r, w') = m w in Leads-continue-tables r f w' b (λ a e. km.tables w a p e) kf h;
  }

module _ {A : Type 0} {K L : Request → Type 0} where
  -- An action that changes no request and commits nothing.
  pub Leads-same :
      (m : Exec A)
      → ((w : World) → (m w).1.tables.requests ≡ w.tables.requests)
      → ((w : World) → (m w).1.committed ≡ w.committed)
      → ((r : Request) → K r → L r)
      → Leads K L m
  Leads-same m t c weaken = record {
    committed = λ w p h. subst (λ x. All IsSound x.requests) (sym (c w)) h;
    tables = λ w a p h. subst (λ x. All L x) (sym (t w)) (All-map weaken w.tables.requests p);
  }

  pub Leads-pure : (a : A) → ((r : Request) → K r → L r) → Leads K L (pure a)
  Leads-pure a weaken = Leads-same (pure a) (λ w. refl) (λ w. refl) weaken

  pub Leads-raise : (e : Exn) → Leads K L (raise {A = A} e)
  Leads-raise e = record { committed = λ w p h. h; tables = λ w a p h. cc }

  pub Leads-if :
      (b : Bool) (m n : Exec A) → Leads K L m → Leads K L n → Leads K L (if b then m else n)
  Leads-if true m n km kn = km
  Leads-if false m n km kn = kn

module _ {A : Type 0} {K : Request → Type 0} where
  pub Leads-lift : (r : Result A) → Leads K K (lift r)
  Leads-lift r = Leads-same (lift r) (λ w. refl) (λ w. refl) (λ r k. k)

pub Leads-raise_if : {K : Request → Type 0} (b : Bool) (e : Exn) → Leads K K (raise_if b e)
Leads-raise_if b e = Leads-same (raise_if b e) (λ w. refl) (λ w. refl) (λ r k. k)

All-map-refresh :
    (requests : List Request) → All IsSettled requests → All IsSound (map refresh requests)
All-map-refresh [] h = tt
All-map-refresh (r ∷ requests) h = (refresh-IsSound h.0, All-map-refresh requests h.1)

-- A commit makes settled requests sound.
pub Leads-commit : Leads IsSettled IsSound commit
unfolding commit
Leads-commit = record {
  committed = λ w p h. All-map-refresh w.tables.requests p;
  tables = λ w a p h. All-map-refresh w.tables.requests p;
}

module _ {K : Request → Type 0} where
  pub Leads-get_or_create_image : (spec : String) → Leads K K (get_or_create_image spec)
  unfolding get_or_create_image
  Leads-get_or_create_image spec =
      Leads-same (get_or_create_image spec) (λ w. ground arith) (λ w. ground arith) (λ r k. k)

  pub Leads-get_or_create_operator : (name : String) → Leads K K (get_or_create_operator name)
  unfolding get_or_create_operator
  Leads-get_or_create_operator name =
      Leads-same (get_or_create_operator name) (λ w. ground arith) (λ w. ground arith) (λ r k. k)

  pub Leads-get_or_create_architecture :
      (name : String) → Leads K K (get_or_create_architecture name)
  unfolding get_or_create_architecture
  Leads-get_or_create_architecture name =
      Leads-same (get_or_create_architecture name) (λ w. ground arith) (λ w. ground arith)
        (λ r k. k)

module _ {A B : Type 0} {K : Request → Type 0} where
  pub Leads-for_each :
      (f : A → Exec B) → ((a : A) → Leads K K (f a)) → (xs : List A) → Leads K K (for_each f xs)
  unfolding for_each
  Leads-for_each f kf [] = Leads-pure [] (λ r k. k)
  Leads-for_each f kf (x ∷ xs) = Leads-bind (f x) _ (kf x) (λ y.
      Leads-bind (for_each f xs) _ (Leads-for_each f kf xs) (λ ys. Leads-pure (y ∷ ys) (λ r k. k)))

-- A view that keeps the committed requests sound does so when it is served.
pub serve-IsSound :
    {A : Type 0} {L : Request → Type 0} (m : Exec A) (w : World)
    → Leads IsSound L m
    → All IsSound w.committed.requests
    → All IsSound (serve m w).1.committed.requests
unfolding serve rollback
serve-IsSound m w k h = k.committed (rollback w).1 h h

pub ruleset leads_rules = (
  Leads-bind, Leads-pure, Leads-raise, Leads-if, Leads-lift, Leads-raise_if, Leads-commit,
  Leads-get_or_create_image, Leads-get_or_create_operator, Leads-get_or_create_architecture,
  Leads-for_each,
)
