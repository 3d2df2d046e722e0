-- ===== src/Web/Api/Broker/Sound.antt =====
-- `add_state` on a request of the session keeps the table's invariant.
use iib.Common.{
  ℕ, ◌≡◌, ◌≢◌, String, some, Option-cases, List, [], ◌∷◌, ◌++◌, arith, All, All-map, inl, inr,
}
use iib.Exn.{ok, Result-cases}
use iib.Web.Tables.{RequestState, Request}
use iib.Web.Request.{add_state}
use iib.Web.Request.History.{IsSettled, IsSound, IsFresh, add_state-IsSettled}
use iib.Web.Messaging.{find_request}
use iib.Web.Session.{Env, World, all_state_ids, state_ids}
use iib.Web.Session.Sound.{Leads}
use iib.Web.Api.Broker.{replace_request, add_state_to}

-- The database gives a new key: none that is in use.
abbrev pub GivesNewKeys : Env → Type 0
GivesNewKeys env = (ids : List ℕ) → All (λ i. i ≢ env.next_id ids) ids

module _ (K : Request → Type 0) where
  pub find_request-All :
      (id : ℕ) (requests : List Request) (r : Request)
      → All K requests
      → find_request id requests ≡ some r
      → K r
  unfolding find_request
  find_request-All id [] r h e = cc
  find_request-All id (x ∷ requests) r h e = ground (arith, find_request-All id requests r h.1)

  pub replace_request-All :
      (r : Request) (requests : List Request)
      → All K requests
      → K r
      → All K (replace_request r requests)
  unfolding replace_request
  replace_request-All r [] h k = tt
  replace_request-All r (x ∷ requests) h k = ground (arith, replace_request-All r requests h.1 k)

All-append_left {ℓ κ} : {A : Type ℓ} (P : A → Type κ) (xs ys : List A) → All P (xs ++ ys) → All P xs
All-append_left P [] ys h = tt
All-append_left P (x ∷ xs) ys h = (h.0, All-append_left P xs ys h.1)

All-append_right {ℓ κ} :
    {A : Type ℓ} (P : A → Type κ) (xs ys : List A) → All P (xs ++ ys) → All P ys
All-append_right P [] ys h = h
All-append_right P (x ∷ xs) ys h = All-append_right P xs ys h.1

IsFresh-state_ids :
    (n : ℕ) (states : List RequestState) → All (λ i. i ≢ n) (state_ids states) → IsFresh n states
unfolding state_ids
IsFresh-state_ids n [] h = tt
IsFresh-state_ids n (s ∷ states) h = (h.0, IsFresh-state_ids n states h.1)

pub all_state_ids-IsFresh :
    (n : ℕ) (requests : List Request)
    → All (λ i. i ≢ n) (all_state_ids requests)
    → All (λ r. IsFresh n r.states) requests
unfolding all_state_ids
all_state_ids-IsFresh n [] h = tt
all_state_ids-IsFresh n (r ∷ requests) h = (
  IsFresh-state_ids n r.states (All-append_left _ (state_ids r.states) (all_state_ids requests) h),
  all_state_ids-IsFresh n requests
      (All-append_right _ (state_ids r.states) (all_state_ids requests) h),
)

module _ (env : Env) (new_keys : GivesNewKeys env) where
  committed-add_state_to :
      (id : ℕ) (state reason : String) (w : World)
      → (add_state_to env id state reason w).1.committed ≡ w.committed
  unfolding add_state_to
  committed-add_state_to id state reason w = ground arith

  tables-add_state_to :
      (id : ℕ) (state reason : String) (w : World) (a : Unit {0})
      → All IsSound w.tables.requests
      → (add_state_to env id state reason w).0 ≡ ok a
      → All IsSettled (add_state_to env id state reason w).1.tables.requests
  unfolding add_state_to
  tables-add_state_to id state reason w a p h =
      elim (Option-cases (find_request id w.tables.requests)) [
        | inl gone ↦ cc (rw (gone, add_state_to) at h)
        | inr (r, found) ↦
            let n = env.next_id (all_state_ids w.tables.requests) in
            elim (Result-cases (add_state n w.now state reason r)) [
              | inl (x, fails) ↦ cc (rw (found, fails, add_state_to) at h)
              | inr (r', works) ↦
                  let unused =
                    all_state_ids-IsFresh n w.tables.requests
                      (new_keys (all_state_ids w.tables.requests)) in
                  let fresh =
                    find_request-All (λ x. IsFresh n x.states) id w.tables.requests r unused
                      found in
                  let before = find_request-All IsSound id w.tables.requests r p found in
                  let after = add_state-IsSettled n w.now state reason r r' works fresh before in
                  rw (found, works, add_state_to)
                    (replace_request-All IsSettled r' w.tables.requests
                      (All-map (λ x k. k.settled) w.tables.requests p) after)
            ]
      ]

  -- `add_state` on a request of the session takes a sound table to a settled one.
  pub Leads-add_state_to :
      (id : ℕ) (state reason : String) → Leads IsSound IsSettled (add_state_to env id state reason)
  Leads-add_state_to id state reason = record {
    committed = λ w p h. rw (committed-add_state_to id state reason w) h;
    tables = tables-add_state_to id state reason;
  }
