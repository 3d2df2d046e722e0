-- ===== src/Workers/Retry.antt =====
-- `retry` of iib/workers/tasks/utils.py, always used with `wait_on=IIBError`: the attempts go on
-- until one ends otherwise than by an IIBError, or until there are none left. Its loop counts
-- `remaining_attempts` down, which is the recursion here.
pub mod Attempts
use iib.Common.{ℕ, zero, suc, Bool, true, false}
use iib.Exn.{Exn, Result, ok, err, iib_error}
use iib.Workers.Exec.{Exec}

unfoldable pub is_iib_error : Exn → Bool
is_iib_error (iib_error message) = true
is_iib_error _ = false

unfoldable pub waits : {A : Type 0} → Result A → Bool
unfolding is_iib_error
waits (ok a) = false
waits (err e) = is_iib_error e

-- The loop of `inner`: `more` is how many attempts are left beside the one that is due.
unfoldable pub retry_from : {A : Type 0} → (more : ℕ) → Exec A → Exec A
unfolding waits
retry_from zero function w = function w
retry_from (suc more) function w = elim (waits (function w).0) [
  | false ↦ function w
  | true ↦ retry_from more function (function w).1
]

-- With no attempts, or fewer, the first one is made all the same.
unfoldable pub retry : {A : Type 0} → (attempts : ℕ) → Exec A → Exec A
unfolding retry_from
retry zero function = function
retry (suc more) function = retry_from more function
