-- ===== src/Workers/Exec/Ends.antt =====
-- How an action ends that returns: inversion of the statements that follow each other.
use iib.Common.{◌≡◌, refl, ap}
use iib.Exn.{Result, ok, err}
use iib.Workers.Exec.{World, Exec, continue, lift, ◌>>=◌}

module _ {A B : Type 0} where
  continue-ok :
      (r : Result A) (w1 : World) (f : A → Exec B) {b : B} {w' : World}
      → continue r f w1 ≡ (ok b, w')
      → (a : A) × (r ≡ ok a) × (f a w1 ≡ (ok b, w'))
  continue-ok (ok a) w1 f h = (a, refl, h)
  continue-ok (err e) w1 f h = cc

  -- Both return, the rest from where the first action leads.
  pub >>=-ok :
      (m : Exec A) (f : A → Exec B) (w : World) {b : B} {w' : World}
      → (m >>= f) w ≡ (ok b, w')
      → (a : A) × (w1 : World) × (m w ≡ (ok a, w1)) × (f a w1 ≡ (ok b, w'))
  >>=-ok m f w h =
      let (a, e, rest) = continue-ok (m w).0 (m w).1 f h in
      (a, (m w).1, ap (λ r. (r, (m w).1)) e, rest)

-- What only computes leaves the state as it is.
pub lift-ok :
    {A : Type 0} (r : Result A) (w : World) {a : A} {w' : World}
    → lift r w ≡ (ok a, w')
    → (r ≡ ok a) × (w' ≡ w)
lift-ok r w h = (cc, cc)
