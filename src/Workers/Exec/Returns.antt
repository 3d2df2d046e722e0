-- ===== src/Workers/Exec/Returns.antt =====
-- What holds of the value that an action returns.
use iib.Common.{◌≡◌, refl, Bool, true, false, List, [], ◌∷◌, All, subst}
use iib.Exn.{Exn, Result, ok, err}
use iib.Workers.Exec.Keeps.{Frame, Keeps}
use iib.Workers.Exec.{World, Exec, continue, ◌>>=◌, raise_if, for_each}

-- Where the action returns, `P` holds of the value.
pub record Returns {A : Type 0} (P : A → Type 0) (m : Exec A) : Type 0 where
  pub at : (w : World) (a : A) → (m w).0 ≡ ok a → P a

module _ {A B : Type 0} {P : B → Type 0} where
  Returns-continue :
      (r : Result A) (f : A → Exec B) (w : World) (b : B)
      → ((a : A) → r ≡ ok a → Returns P (f a))
      → (continue r f w).0 ≡ ok b
      → P b
  Returns-continue (ok a) f w b k h = (k a refl).at w b h
  Returns-continue (err e) f w b k h = cc

  -- The rest returns such a value, given that the first action has returned.
  pub Returns-bind :
      (m : Exec A) (f : A → Exec B)
      → ((w : World) (a : A) → (m w).0 ≡ ok a → Returns P (f a))
      → Returns P (m >>= f)
  Returns-bind m f k = record { at = λ w b h. Returns-continue (m w).0 f (m w).1 b (k w) h }

module _ {A B : Type 0} {P : B → Type 0} where
  -- Each value of a comprehension is such a value.
  pub Returns-for_each :
      (f : A → Exec B)
      → ((a : A) → Returns P (f a))
      → (xs : List A) → Returns (All P) (for_each f xs)
  unfolding for_each
  Returns-for_each f k [] = record { at = λ w ys h. listed ys h }
    where
      listed : (ys : List B) → Path (Result (List B)) (ok []) (ok ys) → All P ys
      listed [] h = tt
      listed (y ∷ ys) h = cc
  Returns-for_each f k (x ∷ xs) = Returns-bind (f x) _ (λ w y h.
      Returns-bind (for_each f xs) _ (λ w' ys h'. record {
        at = λ w'' zs e. joined y ys zs ((k x).at w y h) ((Returns-for_each f k xs).at w' ys h') e;
      }))
    where
      joined :
          (y : B) (ys zs : List B)
          → P y
          → All P ys
          → Path (Result (List B)) (ok (y ∷ ys)) (ok zs)
          → All P zs
      joined y ys zs p q e = let same : y ∷ ys ≡ zs = cc in subst (λ l. All P l) same (p, q)

pub raise_if-ok : (c : Bool) (e : Exn) (w : World) → (raise_if c e w).0 ≡ ok tt → c ≡ false
raise_if-ok true e w h = cc
raise_if-ok false e w h = refl

module _ {F : Frame} {A B : Type 0} where
  Keeps-continue-ok :
      (r : Result A) (f : A → Exec B)
      → ((a : A) → r ≡ ok a → Keeps F (f a))
      → Keeps F (continue r f)
  Keeps-continue-ok (ok a) f k = k a refl
  Keeps-continue-ok (err e) f k = record { at = F.same }

module _ {F : Frame} {A B : Type 0} {P : A → Type 0} where
  -- The rest keeps the relation for the values that the first action returns.
  pub Keeps-then :
      (m : Exec A) (f : A → Exec B)
      → Keeps F m
      → Returns P m
      → ((a : A) → P a → Keeps F (f a))
      → Keeps F (m >>= f)
  Keeps-then m f km rm kf = record {
    at = λ w.
        F.turn (km.at w) ((Keeps-continue-ok (m w).0 f (λ a e. kf a (rm.at w a e))).at (m w).1);
  }
