-- ===== src/Web/Request/History.antt =====
-- The history of a request's states under `add_state`: what a new state must be, and that no state
-- follows a final one but itself.
use iib.Common.{
  ℕ, zero, suc, ◌≤◌, String, ◌≡◌, ◌≢◌, refl, Bool, true, ◌||◌, Option, none, some, List, [], ◌∷◌,
  ◌++◌, arith, nat_eq, All, last?, last?-concat, All-concat, inl, inr, ◌⊎◌, dec_str, subst, ◌∙◌,
  sym,
}
use iib.Exn.{ok, >>=-eq-ok}
use iib.Web.Tables.{RequestState, Request}
use iib.Web.Request.{name_of_value, name_of, check_final, state_int, add_state, find_state, refresh}

-- The numbers of the states `complete` and `failed`.
abbrev pub is_final : ℕ → Bool
is_final n = nat_eq n 2 || nat_eq n 3

-- A state with the number `n` may come after `old`.
abbrev pub Follows : Option RequestState → ℕ → Type 0
Follows none n = Unit
Follows (some old) n = is_final old.state ≡ true → n ≡ old.state

-- Behind a final state stands no other.
abbrev pub IsOrdered : List RequestState → Type 0
IsOrdered [] = Unit
IsOrdered (s ∷ states) =
    (is_final s.state ≡ true → All (λ t. t.state ≡ s.state) states) × IsOrdered states

-- The states are numbers of the enum in an order that `Follows` allows, and the request's key names
-- the last of them.
pub record IsSettled (r : Request) : Type 0 where
  pub valid : All (λ s. (1 ≤ s.state) × (s.state ≤ 3)) r.states
  pub ordered : IsOrdered r.states
  pub keyed : (refresh r).state ≡ last? r.states

-- Besides, the session has loaded the last state.
pub record IsSound (r : Request) : Type 0 where
  pub settled : IsSettled r
  pub current : r.state ≡ last? r.states

-- No row has this key.
abbrev pub IsFresh : ℕ → List RequestState → Type 0
IsFresh id = All (λ s. s.id ≢ id)

-- Where all states equal a final one, so does the state that may come after the last of them.
Follows-All :
    (states : List RequestState) (s s' t : RequestState)
    → All (λ u. u.state ≡ s.state) (s' ∷ states)
    → is_final s.state ≡ true
    → Follows (last? (s' ∷ states)) t.state
    → t.state ≡ s.state
Follows-All [] s s' t h p f = ground arith
Follows-All (s'' ∷ states) s s' t h p f = Follows-All states s s'' t h.1 p f

IsOrdered-concat :
    (states : List RequestState) (t : RequestState)
    → IsOrdered states
    → Follows (last? states) t.state
    → IsOrdered (states ++ t ∷ [])
IsOrdered-concat [] t h f = ((λ _. tt), tt)
IsOrdered-concat (s ∷ []) t h f = ((λ p. (f p, tt)), ((λ _. tt), tt))
IsOrdered-concat (s ∷ s' ∷ states) t h f = (
  λ p.
      All-concat (λ u. u.state ≡ s.state) (s' ∷ states) t (h.0 p)
        (Follows-All states s s' t (h.0 p) p f),
  IsOrdered-concat (s' ∷ states) t h.1 f,
)

pub find_state-concat :
    (states : List RequestState) (t : RequestState)
    → IsFresh t.id states
    → find_state t.id (states ++ t ∷ []) ≡ some t
unfolding find_state
find_state-concat [] t h = ground arith
find_state-concat (s ∷ states) t h = ground (arith, find_state-concat states t h.1)

pub state_int-eq-ok :
    (state : String) (n : ℕ)
    → state_int state ≡ ok n
    → (1 ≤ n)
      × (n ≤ 3)
      × (n ≡ 1 → state ≡ "in_progress")
      × (n ≡ 2 → state ≡ "complete")
      × (n ≡ 3 → state ≡ "failed")
unfolding state_int
state_int-eq-ok state n h = ground arith

pub name_of_value_final :
    (n : ℕ)
    → is_final n ≡ true
    → ((n ≡ 2) × (name_of_value n ≡ ok (some "complete")))
      ⊎ ((n ≡ 3) × (name_of_value n ≡ ok (some "failed")))
unfolding name_of_value
name_of_value_final zero h = cc
name_of_value_final (suc zero) h = cc
name_of_value_final (suc (suc zero)) h = inl (refl, refl)
name_of_value_final (suc (suc (suc zero))) h = inr (refl, refl)
name_of_value_final (suc (suc (suc (suc n)))) h = ground arith

check_final_same : (s state : String) → check_final (some s) s state ≡ ok tt → state ≡ s
unfolding check_final
check_final_same s state h = ground arith

pub state_int_finals : (state_int "complete" ≡ ok 2) × (state_int "failed" ≡ ok 3)
unfolding state_int dec_str
state_int_finals = (refl, refl)

-- Past the two rounds of the loop the new state follows the loaded one.
check_final-Follows :
    (state : String) (n : ℕ) (current : Option RequestState) (old : Option String)
    → state_int state ≡ ok n
    → name_of current ≡ ok old
    → check_final old "complete" state ≡ ok tt
    → check_final old "failed" state ≡ ok tt
    → Follows current n
unfolding name_of
check_final-Follows state n none old hn ho hc hf = tt
check_final-Follows state n (some s) old hn ho hc hf = λ final.
    elim (name_of_value_final s.state final) [
      | inl (two, named) ↦
          let same = check_final_same "complete" state (cc) in cc (state_int_finals.0)
      | inr (three, named) ↦
          let same = check_final_same "failed" state (cc) in cc (state_int_finals.1)
    ]

module _ (new_id now : ℕ) (state state_reason : String) (r r' : Request) where
  pub add_state-Follows :
      add_state new_id now state state_reason r ≡ ok r'
      → (n : ℕ) × (1 ≤ n)
        × (n ≤ 3)
        × Follows r.state n
        × (r' ≡ record r {
          states =
              r.states
              ++ record { id = new_id; state = n; state_reason = state_reason; updated = now } ∷ [];
          request_state_id = some new_id;
        })
  unfolding add_state
  add_state-Follows e =
      let (n, hn, e1) = >>=-eq-ok (state_int state) _ e in
      let (old, ho, e2) = >>=-eq-ok (name_of r.state) _ e1 in
      let (_, hc, e3) = >>=-eq-ok (check_final old "complete" state) _ e2 in
      let (_, hf, e4) = >>=-eq-ok (check_final old "failed" state) _ e3 in
      let (lo, hi, _, _, _) = state_int-eq-ok state n hn in
      (
        n,
        lo,
        hi,
        check_final-Follows state n r.state old hn ho (ground arith) (ground arith),
        ground arith,
      )

  pub add_state-IsSettled :
      add_state new_id now state state_reason r ≡ ok r'
      → IsFresh new_id r.states
      → IsSound r
      → IsSettled r'
  unfolding refresh
  add_state-IsSettled e fresh sound =
      let (n, lo, hi, f, e') = add_state-Follows e in
      let before = sound.settled in
      subst IsSettled (sym e') (record {
        valid = All-concat (λ s. (1 ≤ s.state) × (s.state ≤ 3)) r.states _ before.valid (lo, hi);
        ordered = IsOrdered-concat r.states _ before.ordered (rw (← sound.current) f);
        keyed = find_state-concat r.states _ fresh ∙ sym (last?-concat r.states _);
      })

-- The read after a commit loads the last state.
pub refresh-IsSound : {r : Request} → IsSettled r → IsSound (refresh r)
unfolding refresh
refresh-IsSound h = record {
  settled = record { valid = h.valid; ordered = h.ordered; keyed = h.keyed };
  current = h.keyed;
}

-- The request `r'` is `r` after some accepted calls of `add_state`, each with a new key and each
-- committed. The calls that raise change nothing.
pub data Transitions (r : Request) : Request → Type 0 where
  start : Transitions r r
  next :
      {t u : Request} (new_id now : ℕ) (state state_reason : String)
      → Transitions r t
      → IsFresh new_id t.states
      → add_state new_id now state state_reason t ≡ ok u
      → Transitions r (refresh u)

-- Every history that comes about so is sound.
pub Transitions-IsSound : {r t : Request} → IsSound r → Transitions r t → IsSound t
Transitions-IsSound sound start = sound
Transitions-IsSound sound (next {t} {u} new_id now state state_reason before fresh e) =
    refresh-IsSound (
      add_state-IsSettled new_id now state state_reason t u e fresh
        (Transitions-IsSound sound before))

-- A request that is complete or failed stays so, whatever state changes are asked for later.
pub final_forever :
    {r t : Request} (s : RequestState)
    → r.state ≡ some s
    → is_final s.state ≡ true
    → Transitions r t
    → (s' : RequestState) × (t.state ≡ some s') × (s'.state ≡ s.state)
unfolding refresh
final_forever s e f start = (s, e, refl)
final_forever s e f (next {t} {u} new_id now state state_reason before fresh e') =
    let (s1, now_s, same) = final_forever s e f before in
    let (n, lo, hi, follows, shape) = add_state-Follows new_id now state state_reason t u e' in
    subst (λ x. (s' : RequestState) × ((refresh x).state ≡ some s') × (s'.state ≡ s.state))
      (sym shape)
      (
        _,
        find_state-concat t.states _ fresh,
        subst (λ o. Follows o n) now_s follows (rw same f) ∙ same,
      )
