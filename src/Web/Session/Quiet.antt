-- ===== src/Web/Session/Quiet.antt =====
-- Actions that reach nothing outside the session, one rule for each way to build an action.
use iib.Common.{String, ◌≡◌, refl, ◌∙◌, Bool, true, false, List, [], ◌∷◌, arith, if◌then◌else◌}
use iib.Exn.{Exn, Result, ok, err}
use iib.Web.Session.{
  World, Exec, pure, raise, lift, raise_if, continue, ◌>>=◌, for_each, get_or_create_image,
  get_or_create_operator, get_or_create_architecture,
}

-- The database, the messages and the tasks are the same in both.
pub record SameOutside (w w' : World) : Type 0 where
  pub committed : w'.committed ≡ w.committed
  pub sent : w'.sent ≡ w.sent
  pub scheduled : w'.scheduled ≡ w.scheduled

pub SameOutside-refl : (w : World) → SameOutside w w
SameOutside-refl w = record { committed = refl; sent = refl; scheduled = refl }

pub SameOutside-trans : {a b c : World} → SameOutside a b → SameOutside b c → SameOutside a c
SameOutside-trans p q = record {
  committed = q.committed ∙ p.committed;
  sent = q.sent ∙ p.sent;
  scheduled = q.scheduled ∙ p.scheduled;
}

-- Whether it returns or raises, the action changes nothing outside the session.
pub record IsQuiet {A : Type 0} (m : Exec A) : Type 0 where
  pub at : (w : World) → SameOutside w (m w).1

module _ {A : Type 0} where
  pub IsQuiet-pure : (a : A) → IsQuiet (pure a)
  IsQuiet-pure a = record { at = SameOutside-refl }

  pub IsQuiet-raise : (e : Exn) → IsQuiet (raise {A = A} e)
  IsQuiet-raise e = record { at = SameOutside-refl }

  pub IsQuiet-lift : (r : Result A) → IsQuiet (lift r)
  IsQuiet-lift r = record { at = SameOutside-refl }

  pub IsQuiet-if : (b : Bool) (m n : Exec A) → IsQuiet m → IsQuiet n → IsQuiet (if b then m else n)
  IsQuiet-if true m n km kn = km
  IsQuiet-if false m n km kn = kn

pub IsQuiet-raise_if : (b : Bool) (e : Exn) → IsQuiet (raise_if b e)
IsQuiet-raise_if b e = record { at = SameOutside-refl }

module _ {A B : Type 0} where
  pub IsQuiet-continue :
      (r : Result A) (f : A → Exec B) → ((a : A) → IsQuiet (f a)) → IsQuiet (continue r f)
  IsQuiet-continue (ok a) f kf = kf a
  IsQuiet-continue (err e) f kf = record { at = SameOutside-refl }

  pub IsQuiet-bind :
      (m : Exec A) (f : A → Exec B) → IsQuiet m → ((a : A) → IsQuiet (f a)) → IsQuiet (m >>= f)
  IsQuiet-bind m f km kf = record {
    at = λ w. let (r, w') = m w in SameOutside-trans (km.at w) ((IsQuiet-continue r f kf).at w');
  }

module _ {A B : Type 0} where
  pub IsQuiet-for_each :
      (f : A → Exec B) → ((a : A) → IsQuiet (f a)) → (xs : List A) → IsQuiet (for_each f xs)
  unfolding for_each
  IsQuiet-for_each f kf [] = record { at = SameOutside-refl }
  IsQuiet-for_each f kf (x ∷ xs) = IsQuiet-bind (f x) _ (kf x) (λ y.
      IsQuiet-bind (for_each f xs) _ (IsQuiet-for_each f kf xs)
        (λ ys. record { at = SameOutside-refl }))

pub IsQuiet-get_or_create_image : (spec : String) → IsQuiet (get_or_create_image spec)
unfolding get_or_create_image
IsQuiet-get_or_create_image spec = record { at = λ w. ground arith }

pub IsQuiet-get_or_create_operator : (name : String) → IsQuiet (get_or_create_operator name)
unfolding get_or_create_operator
IsQuiet-get_or_create_operator name = record { at = λ w. ground arith }

pub IsQuiet-get_or_create_architecture : (name : String) → IsQuiet (get_or_create_architecture name)
unfolding get_or_create_architecture
IsQuiet-get_or_create_architecture name = record { at = λ w. ground arith }

pub ruleset quiet_rules = (
  IsQuiet-pure, IsQuiet-raise, IsQuiet-lift, IsQuiet-if, IsQuiet-raise_if, IsQuiet-bind,
  IsQuiet-for_each, IsQuiet-get_or_create_image, IsQuiet-get_or_create_operator,
  IsQuiet-get_or_create_architecture,
)
