-- ===== src/Tests/Keys.antt =====
-- The keys of the sample database are new.
use iib.Common.{ℕ, ◌≤◌, ◌≢◌, All, List, [], ◌∷◌, arith}
use iib.Tests.Samples.{above}

above-IsNew : (m : ℕ) (ids : List ℕ) → above ids ≤ m → All (λ i. i ≢ m) ids
above-IsNew m [] h = tt
above-IsNew m (n ∷ ids) h = (ground arith, above-IsNew m ids (ground arith))

-- `above` gives keys that are not in use.
pub above-GivesNewKeys : (ids : List ℕ) → All (λ i. i ≢ above ids) ids
above-GivesNewKeys ids = above-IsNew (above ids) ids (omega arith)
