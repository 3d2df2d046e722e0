-- ===== src/Web/Session/Returns.antt =====
-- What holds where an action returns.
use iib.Common.{◌≡◌, refl}
use iib.Exn.{Result, ok, err}
use iib.Web.Session.{World, Exec, continue, ◌>>=◌, lift}

-- Where the action returns, `P` holds.
pub record Ensures {A : Type 0} (P : Type 0) (m : Exec A) : Type 0 where
  pub at : (w : World) (a : A) → (m w).0 ≡ ok a → P

module _ {A : Type 0} {P : Type 0} where
  pub Ensures-now : (m : Exec A) → P → Ensures P m
  Ensures-now m p = record { at = λ w a e. p }

module _ {A B : Type 0} {P : Type 0} where
  Ensures-continue :
      (r : Result A) (f : A → Exec B)
      → ((a : A) → r ≡ ok a → Ensures P (f a))
      → Ensures P (continue r f)
  Ensures-continue (ok a) f k = k a refl
  Ensures-continue (err e) f k = record { at = λ w a h. cc }

  -- The part that only computes returns a value, of which the rest can say more.
  pub Ensures-lift :
      (r : Result A) (f : A → Exec B)
      → ((a : A) → r ≡ ok a → Ensures P (f a))
      → Ensures P (lift r >>= f)
  Ensures-lift r f k = record { at = λ w. (Ensures-continue r f k).at w }

  pub Ensures-bind :
      (m : Exec A) (f : A → Exec B) → ((a : A) → Ensures P (f a)) → Ensures P (m >>= f)
  Ensures-bind m f k = record {
    at = λ w. let (r, w') = m w in (Ensures-continue r f (λ a e. k a)).at w';
  }

  pub Ensures-first : (m : Exec A) (f : A → Exec B) → Ensures P m → Ensures P (m >>= f)
  Ensures-first m f k = record { at = λ w b h. first (m w).0 (m w).1 (k.at w) h }
    where
      first :
          {b : B} (r : Result A) (w' : World)
          → ((a : A) → r ≡ ok a → P)
          → (continue r f w').0 ≡ ok b
          → P
      first (ok a) w' p h = p a refl
      first (err e) w' p h = cc
