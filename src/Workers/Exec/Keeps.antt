-- ===== src/Workers/Exec/Keeps.antt =====
-- Actions that lead from a state only to related ones, one rule for each way to build an action.
use iib.Common.{String, Bool, true, false, List, [], ◌∷◌, if◌then◌else◌}
use iib.Exn.{Exn, Result, ok, err}
use iib.Workers.Exec.{
  World, Exec, Event, Env, pure, raise, lift, ask, raise_if, continue, ◌>>=◌, recover, catch,
  finally, for_each, emit, with_temp_dir, opened_dir, removed_dir,
}

-- A relation of the states before and after that holds of no change and of two changes in turn.
pub record Frame : Type 1 where
  pub Rel : World → World → Type 0
  pub same : (w : World) → Rel w w
  pub turn : {a b c : World} → Rel a b → Rel b c → Rel a c

-- Whether it returns or raises, the action leads to a related state.
pub record Keeps (F : Frame) {A : Type 0} (m : Exec A) : Type 0 where
  pub at : (w : World) → F.Rel w (m w).1

module _ {F : Frame} {A : Type 0} where
  pub Keeps-pure : (a : A) → Keeps F (pure a)
  Keeps-pure a = record { at = F.same }

  pub Keeps-raise : (e : Exn) → Keeps F (raise {A = A} e)
  Keeps-raise e = record { at = F.same }

  pub Keeps-lift : (r : Result A) → Keeps F (lift r)
  Keeps-lift r = record { at = F.same }

  pub Keeps-ask : (f : List Event → A) → Keeps F (ask f)
  Keeps-ask f = record { at = F.same }

  pub Keeps-if : (b : Bool) (m n : Exec A) → Keeps F m → Keeps F n → Keeps F (if b then m else n)
  Keeps-if true m n km kn = km
  Keeps-if false m n km kn = kn

  Keeps-recover :
      (r : Result A) (handler : Exn → Exec A)
      → ((e : Exn) → Keeps F (handler e))
      → Keeps F (recover r handler)
  Keeps-recover (ok a) handler k = record { at = F.same }
  Keeps-recover (err e) handler k = k e

  pub Keeps-catch :
      (body : Exec A) (handler : Exn → Exec A)
      → Keeps F body
      → ((e : Exn) → Keeps F (handler e))
      → Keeps F (catch body handler)
  Keeps-catch body handler kb kh = record {
    at = λ w. let (r, w') = body w in F.turn (kb.at w) ((Keeps-recover r handler kh).at w');
  }

  pub Keeps-finally :
      (body : Exec A) (cleanup : Exec (Unit {0}))
      → Keeps F body
      → Keeps F cleanup
      → Keeps F (finally body cleanup)
  Keeps-finally body cleanup kb kc = record {
    at = λ w. let (r, w') = body w in F.turn (kb.at w) (kc.at w');
  }

module _ {F : Frame} where
  pub Keeps-raise_if : (b : Bool) (e : Exn) → Keeps F (raise_if b e)
  Keeps-raise_if b e = record { at = F.same }

module _ {F : Frame} {A B : Type 0} where
  pub Keeps-continue :
      (r : Result A) (f : A → Exec B) → ((a : A) → Keeps F (f a)) → Keeps F (continue r f)
  Keeps-continue (ok a) f kf = kf a
  Keeps-continue (err e) f kf = record { at = F.same }

  pub Keeps-bind :
      (m : Exec A) (f : A → Exec B) → Keeps F m → ((a : A) → Keeps F (f a)) → Keeps F (m >>= f)
  Keeps-bind m f km kf = record {
    at = λ w. let (r, w') = m w in F.turn (km.at w) ((Keeps-continue r f kf).at w');
  }

module _ {F : Frame} {A B : Type 0} where
  pub Keeps-for_each :
      (f : A → Exec B) → ((a : A) → Keeps F (f a)) → (xs : List A) → Keeps F (for_each f xs)
  unfolding for_each
  Keeps-for_each f kf [] = record { at = F.same }
  Keeps-for_each f kf (x ∷ xs) =
      Keeps-bind (f x) _ (kf x)
        (λ y. Keeps-bind (for_each f xs) _ (Keeps-for_each f kf xs) (λ ys. record { at = F.same }))

module _ {F : Frame} {A : Type 0} where
  pub Keeps-with_temp_dir :
      (env : Env) (body : String → Exec A)
      → ((dir : String) → Keeps F (emit (opened_dir dir)))
      → ((dir : String) → Keeps F (emit (removed_dir dir)))
      → ((dir : String) → Keeps F (body dir))
      → Keeps F (with_temp_dir env body)
  unfolding with_temp_dir
  Keeps-with_temp_dir env body ko kr kb =
      Keeps-bind (ask env.temp_name) _ (record { at = F.same })
        (λ dir.
          Keeps-bind (emit (opened_dir dir)) _ (ko dir)
            (λ nothing. Keeps-finally (body dir) (emit (removed_dir dir)) (kb dir) (kr dir)))

pub ruleset keeping_rules = (
  Keeps-pure, Keeps-raise, Keeps-lift, Keeps-ask, Keeps-if, Keeps-catch, Keeps-finally,
  Keeps-raise_if, Keeps-bind, Keeps-for_each, Keeps-with_temp_dir,
)
