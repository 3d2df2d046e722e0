-- ===== src/Web/Session/Atomic.antt =====
-- Actions that refuse without an effect, and actions that never refuse.
use iib.Common.{◌<◌, refl, arith, ◌≡◌, Bool, true, false, if◌then◌else◌}
use iib.Web.Errors.{status_code}
use iib.Exn.{
  Exn, Result, ok, err, validation_error, forbidden, not_found, gone, iib_error, type_error,
  attribute_error, key_error, value_error, of_worker,
}
use iib.Web.Session.{World, Exec, pure, lift, continue, ◌>>=◌}
use iib.Web.Session.Quiet.{SameOutside, SameOutside-refl, SameOutside-trans, IsQuiet}

-- The errors by which a view refuses what it was given.
abbrev pub is_refusal : Exn → Bool
is_refusal (validation_error r) = true
is_refusal (forbidden d) = true
is_refusal not_found = true
is_refusal gone = true
is_refusal _ = false

-- They are the ones that are answered with a status of the client's.
pub status_code-is_refusal : (e : Exn) → status_code e < 500 → is_refusal e ≡ true
unfolding status_code
status_code-is_refusal (validation_error x) h = refl
status_code-is_refusal (iib_error x) h = absurd (omega arith)
status_code-is_refusal (forbidden x) h = refl
status_code-is_refusal not_found h = refl
status_code-is_refusal gone h = refl
status_code-is_refusal type_error h = absurd (omega arith)
status_code-is_refusal attribute_error h = absurd (omega arith)
status_code-is_refusal key_error h = absurd (omega arith)
status_code-is_refusal value_error h = absurd (omega arith)
status_code-is_refusal (of_worker e) h = absurd (omega arith)

-- Where the action refuses, it changes nothing outside the session.
pub record IsAtomic {A : Type 0} (m : Exec A) : Type 0 where
  pub at : (w : World) (e : Exn) → (m w).0 ≡ err e → is_refusal e ≡ true → SameOutside w (m w).1

module _ {A B : Type 0} where
  IsAtomic-continue :
      (r : Result A) (f : A → Exec B) → ((a : A) → IsAtomic (f a)) → IsAtomic (continue r f)
  IsAtomic-continue (ok a) f kf = kf a
  IsAtomic-continue (err x) f kf = record { at = λ w e h p. SameOutside-refl w }

  pub IsAtomic-bind :
      (m : Exec A) (f : A → Exec B) → IsQuiet m → ((a : A) → IsAtomic (f a)) → IsAtomic (m >>= f)
  IsAtomic-bind m f km kf = record {
    at = λ w e h p.
        let (r, w') = m w in SameOutside-trans (km.at w) ((IsAtomic-continue r f kf).at w' e h p);
  }

-- The action raises none of the errors of a refusal.
pub record NeverRefuses {A : Type 0} (m : Exec A) : Type 0 where
  pub at : (w : World) (e : Exn) → (m w).0 ≡ err e → is_refusal e ≡ false

module _ {A : Type 0} where
  pub NeverRefuses-pure : (a : A) → NeverRefuses (pure a)
  NeverRefuses-pure a = record { at = λ w e h. cc }

  pub NeverRefuses-lift :
      (r : Result A) → ((e : Exn) → r ≡ err e → is_refusal e ≡ false) → NeverRefuses (lift r)
  NeverRefuses-lift r h = record { at = λ w e p. h e p }

  pub NeverRefuses-if :
      (b : Bool) (m n : Exec A)
      → NeverRefuses m
      → NeverRefuses n
      → NeverRefuses (if b then m else n)
  NeverRefuses-if true m n km kn = km
  NeverRefuses-if false m n km kn = kn

  pub IsAtomic-NeverRefuses : (m : Exec A) → NeverRefuses m → IsAtomic m
  IsAtomic-NeverRefuses m k = record { at = λ w e h p. cc (k.at w e h) }

module _ {A B : Type 0} where
  NeverRefuses-continue :
      (r : Result A) (f : A → Exec B)
      → ((e : Exn) → r ≡ err e → is_refusal e ≡ false)
      → ((a : A) → NeverRefuses (f a))
      → NeverRefuses (continue r f)
  NeverRefuses-continue (ok a) f k kf = kf a
  NeverRefuses-continue (err x) f k kf = record { at = λ w e h. k e (cc) }

  pub NeverRefuses-bind :
      (m : Exec A) (f : A → Exec B)
      → NeverRefuses m
      → ((a : A) → NeverRefuses (f a))
      → NeverRefuses (m >>= f)
  NeverRefuses-bind m f km kf = record {
    at =
        λ w e h. let (r, w') = m w in (NeverRefuses-continue r f (λ x p. km.at w x p) kf).at w' e h;
  }

pub ruleset refusal_rules =
    (NeverRefuses-pure, NeverRefuses-lift, NeverRefuses-if, NeverRefuses-bind)
