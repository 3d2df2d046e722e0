-- ===== src/Web/Request/Acceptance.antt =====
-- Which state changes `add_state` accepts, and with which error it refuses the others.
use iib.Common.{
  ℕ, zero, suc, ◌≤◌, String, ◌≡◌, ◌≢◌, refl, true, Option, none, some, arith, dec_str, inl, inr, ap,
  ◌∷◌, [], ◌++◌,
}
use iib.Exn.{ok, err, validation_error, final_state}
use iib.Web.Tables.{RequestState, Request}
use iib.Web.Request.{name_of_value, name_of, check_final, state_int, add_state}
use iib.Web.Request.History.{
  is_final, Follows, state_int-eq-ok, state_int_finals, name_of_value_final,
}

-- The loaded state, if there is one, has a number of the enum.
abbrev pub IsValid : Option RequestState → Type 0
IsValid none = Unit
IsValid (some s) = (1 ≤ s.state) × (s.state ≤ 3)

-- The name of a loaded state, with the two rounds of the loop.
abbrev Passes : Option RequestState → String → Type 0
Passes current state =
    (old : Option String) × (name_of current ≡ ok old)
    × (check_final old "complete" state ≡ ok tt)
    × (check_final old "failed" state ≡ ok tt)

Passes-number :
    (s : RequestState) (m n : ℕ) (state : String)
    → s.state ≡ m
    → 1 ≤ m
    → m ≤ 3
    → state_int state ≡ ok n
    → (is_final m ≡ true → n ≡ m)
    → Passes (some s) state
unfolding name_of name_of_value check_final dec_str
Passes-number s zero n state e lo hi h f = absurd (omega arith)
Passes-number s (suc zero) n state e lo hi h f =
    (some "in_progress", ap name_of_value e, refl, refl)
Passes-number s (suc (suc zero)) n state e lo hi h f =
    let (_, _, _, complete, _) = state_int-eq-ok state n h in
    let named = complete (f refl) in rw named (some "complete", ap name_of_value e, refl, refl)
Passes-number s (suc (suc (suc zero))) n state e lo hi h f =
    let (_, _, _, _, failed) = state_int-eq-ok state n h in
    let named = failed (f refl) in rw named (some "failed", ap name_of_value e, refl, refl)
Passes-number s (suc (suc (suc (suc m)))) n state e lo hi h f = absurd (omega arith)

passes :
    (current : Option RequestState) (n : ℕ) (state : String)
    → IsValid current
    → state_int state ≡ ok n
    → Follows current n
    → Passes current state
unfolding name_of check_final
passes none n state v h f = (none, refl, refl, refl)
passes (some s) n state v h f = Passes-number s s.state n state refl v.0 v.1 h f

check_final_differs :
    (s state : String)
    → state ≢ s
    → check_final (some s) s state ≡ err (validation_error (final_state s))
unfolding check_final
check_final_differs s state h = ground arith

check_final_failed : (state : String) → check_final (some "failed") "complete" state ≡ ok tt
unfolding check_final dec_str
check_final_failed state = refl

module _ (new_id now : ℕ) (state state_reason : String) (r : Request) where
  -- A state of the enum that may follow the loaded one is accepted: it becomes the last state, and
  -- its key the request's.
  pub add_state-accepts :
      (n : ℕ)
      → IsValid r.state
      → state_int state ≡ ok n
      → Follows r.state n
      → add_state new_id now state state_reason r
        ≡ ok (record r {
          states =
              r.states
              ++ record { id = new_id; state = n; state_reason = state_reason; updated = now } ∷ [];
          request_state_id = some new_id;
        })
  unfolding add_state
  add_state-accepts n v h f =
      let (old, named, c, d) = passes r.state n state v h f in rw (h, named, c, d)

  -- Any other state of the enum is refused, with the name of the final state in the message.
  pub add_state-refuses :
      (n : ℕ) (s : RequestState)
      → r.state ≡ some s
      → is_final s.state ≡ true
      → state_int state ≡ ok n
      → n ≢ s.state
      → (name : String) × (name_of_value s.state ≡ ok (some name))
        × (add_state new_id now state state_reason r ≡ err (validation_error (final_state name)))
  unfolding add_state name_of
  add_state-refuses n s e final h differ = elim (name_of_value_final s.state final) [
    | inl (two, named) ↦
        let other : state ≢ "complete" = λ same. differ (cc (state_int_finals.0, same, h, two)) in
        ("complete", named, rw (h, e, named, check_final_differs "complete" state other))
    | inr (three, named) ↦
        let other : state ≢ "failed" = λ same. differ (cc (state_int_finals.1, same, h, three)) in
        (
          "failed",
          named,
          rw (h, e, named, check_final_failed state, check_final_differs "failed" state other),
        )
  ]
