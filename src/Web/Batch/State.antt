-- ===== src/Web/Batch/State.antt =====
-- What the state of a batch says of the states of its requests.
use iib.Common.{
  String, ◌≡◌, ◌≢◌, refl, ◌↔◌, Bool, true, false, ◌||◌, List, [], ◌∷◌, ◌==◌, arith, contains,
  dec_str, Bool-cases, inl, inr, All, if◌then◌else◌,
}
use iib.Web.Mappings.{get_final_states}
use iib.Web.Batch.{batch_state_from, batch_state}

-- The state of a batch as its documentation words it.
abbrev pub batch_state_spec : List String → String
batch_state_spec states =
    if contains "in_progress" states
    then "in_progress"
    else if contains "failed" states
    then "failed"
    else "complete"

batch_state_from_lem :
    (failure : Bool) (states : List String)
    → batch_state_from failure states ≡ (
        if contains "in_progress" states
        then "in_progress"
        else if failure || contains "failed" states
        then "failed"
        else "complete")
unfolding batch_state_from
batch_state_from_lem true [] = refl
batch_state_from_lem false [] = refl
batch_state_from_lem failure (s ∷ states) =
    ground (arith, batch_state_from_lem (failure || s == "failed") states)

-- The loop computes the documented state: `in_progress` while one request is, then `failed` if one
-- request failed, and `complete` otherwise.
pub batch_state_lem : (states : List String) → batch_state states ≡ batch_state_spec states
unfolding batch_state
batch_state_lem states = batch_state_from_lem false states

contains-iff-not-All :
    (s : String) (states : List String) → (contains s states ≡ false) ↔ All (λ t. t ≢ s) states
contains-iff-not-All s [] = (λ _. tt, λ _. refl)
contains-iff-not-All s (t ∷ states) = ground (arith, contains-iff-not-All s states)

spec_final_iff :
    (states : List String)
    → (contains (batch_state_spec states) get_final_states ≡ true)
      ↔ (contains "in_progress" states ≡ false)
unfolding dec_str
spec_final_iff states = elim (Bool-cases (contains "in_progress" states)) [
  | inl e ↦ rw e (λ h. cc, λ h. cc)
  | inr e ↦ elim (Bool-cases (contains "failed" states)) [
    | inl f ↦ rw (e, f) (λ h. refl, λ h. refl)
    | inr f ↦ rw (e, f) (λ h. refl, λ h. refl)
  ]
]

-- The state of a batch is one of the final states exactly when none of its requests is in progress.
pub batch_ended_iff :
    (states : List String)
    → (contains (batch_state states) get_final_states ≡ true) ↔ All (λ s. s ≢ "in_progress") states
batch_ended_iff states = rw batch_state_lem (
    let (to, from) = spec_final_iff states in
    let (to', from') = contains-iff-not-All "in_progress" states in
    (λ h. to' (to h), λ h. from (from' h)))
