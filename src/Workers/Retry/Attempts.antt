-- ===== src/Workers/Retry/Attempts.antt =====
-- How often `retry` runs the function, and how it ends.
use iib.Common.{ℕ, zero, suc, ◌≤◌, ◌≡◌, refl, inl, inr, true, false, Bool-cases, arith}
use iib.Exn.{Result}
use iib.Workers.Exec.{World, Exec}
use iib.Workers.Exec.Keeps.{Frame, Keeps}
use iib.Workers.Retry.{waits, retry_from, retry}

-- The function has run so many times, each time after an IIBError of the run before, and the last
-- run ended like this.
pub data Runs {A : Type 0} (function : Exec A)
    : (count : ℕ) → World → Result A × World → Type 0 where
  once : (w : World) → Runs function 1 w (function w)
  again :
      (w : World) (count : ℕ) (last : Result A × World)
      → waits (function w).0 ≡ true
      → Runs function count (function w).1 last
      → Runs function (suc count) w last

-- An end of the attempts: the last run's, which is no IIBError unless the attempts are used up.
pub record Ended {A : Type 0} (function : Exec A) (most : ℕ) (w : World) (last : Result A × World)
    : Type 0 where
  pub count : ℕ
  pub runs : Runs function count w last
  pub at_least_one : 1 ≤ count
  pub at_most : count ≤ most
  pub gave_up : waits last.0 ≡ true → count ≡ most

-- With no attempts configured there is one all the same.
abbrev pub most_runs : ℕ → ℕ
most_runs zero = 1
most_runs (suc more) = suc more

module _ {A : Type 0} (function : Exec A) where
  retry_from-Ended :
      (more : ℕ) (w : World) → Ended function (suc more) w (retry_from more function w)
  unfolding retry_from
  retry_from-Ended zero w = record {
    count = 1;
    runs = once w;
    at_least_one = omega arith;
    at_most = omega arith;
    gave_up = λ h. refl;
  }
  retry_from-Ended (suc more) w = elim (Bool-cases (waits (function w).0)) [
    | inl h ↦
        let rest = retry_from-Ended more (function w).1 in
        rw (h, retry_from)
          record {
            count = suc rest.count;
            runs = again w rest.count _ h rest.runs;
            at_least_one = omega arith;
            at_most = ground (arith, rest.at_most);
            gave_up = λ g. ground (arith, rest.gave_up g);
          }
    | inr h ↦
        rw (h, retry_from)
          record {
            count = 1;
            runs = once w;
            at_least_one = omega arith;
            at_most = omega arith;
            gave_up = λ g. cc;
          }
  ]

  -- The attempts end: the function runs at least once and at most as often as configured (once where
  -- that is 0), each time but the first after an IIBError, and the outcome is that of the last run;
  -- it is an IIBError only where every attempt was used.
  pub retry-Ended :
      (attempts : ℕ) (w : World) → Ended function (most_runs attempts) w (retry attempts function w)
  unfolding retry retry_from
  retry-Ended zero w = retry_from-Ended zero w
  retry-Ended (suc more) w = retry_from-Ended more w

module _ {A : Type 0} (function : Exec A) where
  retry_from-reaches :
      (more count : ℕ) (w : World) (last : Result A × World)
      → Runs function count w last
      → waits last.0 ≡ false
      → count ≤ suc more
      → retry_from more function w ≡ last
  unfolding retry_from
  retry_from-reaches zero count w last (once _) f h = refl
  retry_from-reaches zero count w last (again _ n _ e runs) f h = absurd (none_left runs h)
    where
      none_left :
          {n : ℕ} {w : World} {last : Result A × World} → Runs function n w last → suc n ≤ 1 → ⊥
      none_left (once _) h = omega arith
      none_left (again _ n _ e runs) h = omega arith
  retry_from-reaches (suc more) count w last (once _) f h = rw (f, retry_from) refl
  retry_from-reaches (suc more) count w last (again _ n _ e runs) f h =
      rw (e, retry_from) (retry_from-reaches more n (function w).1 last runs f (omega arith))

  -- If one of the attempts ends otherwise than by an IIBError, and the attempts before it ended by
  -- one, then `retry` ends as that attempt does, as long as it is among the attempts to be made.
  pub retry-reaches :
      (attempts count : ℕ) (w : World) (last : Result A × World)
      → Runs function count w last
      → waits last.0 ≡ false
      → count ≤ most_runs attempts
      → retry attempts function w ≡ last
  unfolding retry
  retry-reaches zero count w last runs f h = retry_from-reaches zero count w last runs f h
  retry-reaches (suc more) count w last runs f h = retry_from-reaches more count w last runs f h

module _ {F : Frame} {A : Type 0} where
  Keeps-retry_from :
      (more : ℕ) (function : Exec A) → Keeps F function → Keeps F (retry_from more function)
  unfolding retry_from
  Keeps-retry_from zero function k = k
  Keeps-retry_from (suc more) function k = record {
    at = λ w. elim (Bool-cases (waits (function w).0)) [
      | inl h ↦
          rw (h, retry_from)
            (F.turn (k.at w) ((Keeps-retry_from more function k).at (function w).1))
      | inr h ↦ rw (h, retry_from) (k.at w)
    ];
  }

  pub Keeps-retry :
      (attempts : ℕ) (function : Exec A) → Keeps F function → Keeps F (retry attempts function)
  unfolding retry
  Keeps-retry zero function k = k
  Keeps-retry (suc more) function k = Keeps-retry_from more function k
