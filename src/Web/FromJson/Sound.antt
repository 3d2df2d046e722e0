-- ===== src/Web/FromJson/Sound.antt =====
-- The `from_json` methods of iib/web/models.py keep the histories in the session in order.
use iib.Common.{
  ℕ, String, ◌≡◌, refl, sym, subst, Option, none, some, List, [], arith, All, All-concat, inl, inr,
  last?,
}
use iib.Common.Dict.{Dict}
use iib.Json.{Json}
use iib.Exn.{Result, ok, err, Result-cases}
use iib.Web.Tables.{Request, RequestState}
use iib.Web.Request.{add_state, find_state, refresh}
use iib.Web.Request.History.{IsSettled, IsSound, IsFresh, add_state-IsSettled}
use iib.Web.Session.{Env, World, Exec, pure, lift, ◌>>=◌, request_ids, all_state_ids}
use iib.Web.Session.Sound.{
  Leads, Leads-bind, Leads-same, Leads-pure, Leads-raise, Leads-if, Leads-raise_if, Leads-for_each,
  Leads-get_or_create_image, Leads-get_or_create_operator,
}
use iib.Web.FromJson.Index.{
  image_if_set, add_batch, batch_or_new, insert_request, from_index_image, index_from_json,
}
use iib.Web.FromJson.Add.{add_from_json}
use iib.Web.FromJson.Rm.{rm_from_json}
use iib.Web.FromJson.Regenerate.{regenerate_from_json}
use iib.Web.FromJson.Merge.{merge_from_json}

-- A row without a state.
pub record IsBlank (r : Request) : Type 0 where
  pub states : r.states ≡ []
  pub state : r.state ≡ none

find_nothing :
    (key : Option ℕ)
    → elim key as (λ x. Option RequestState) [ none ↦ none | some id ↦ find_state id [] ] ≡ none
unfolding find_state
find_nothing none = refl
find_nothing (some id) = refl

IsBlank-IsSound : (r : Request) → IsBlank r → IsSound r
unfolding refresh
IsBlank-IsSound r h = record {
  settled = record {
    valid = rw h.states tt;
    ordered = rw h.states tt;
    keyed =
        subst
          (λ ss.
            elim r.request_state_id as (λ x. Option RequestState) [
              | none ↦ none
              | some id ↦ find_state id ss
            ]
            ≡ last? ss)
          (sym h.states) (find_nothing r.request_state_id);
  };
  current = rw (h.states, h.state) refl;
}

module _ (env : Env) where
  tables-insert_request :
      (r : Request) (w : World) (a : ℕ)
      → IsBlank r
      → All IsSettled w.tables.requests
      → (insert_request env r w).0 ≡ ok a
      → All IsSettled (insert_request env r w).1.tables.requests
  unfolding insert_request
  tables-insert_request r w a blank p h =
      let id = env.next_id (request_ids w.tables.requests) in
      let state_id = env.next_id (all_state_ids w.tables.requests) in
      let new : Request = record r { id = id } in
      let fresh : IsFresh state_id r.states = rw blank.states tt in
      let sound = IsBlank-IsSound new (record { states = blank.states; state = blank.state }) in
      elim (Result-cases (add_state state_id w.now "in_progress" "The request was initiated" new)) [
        | inl (x, fails) ↦ cc (rw (fails, insert_request) at h)
        | inr (r', works) ↦
            rw (works, insert_request)
              (All-concat IsSettled w.tables.requests r' p (
                add_state-IsSettled state_id w.now "in_progress" "The request was initiated" new r'
                  works fresh sound))
      ]

  Leads-insert_request :
      (r : Request) → IsBlank r → Leads IsSettled IsSettled (insert_request env r)
  unfolding insert_request
  Leads-insert_request r blank = record {
    committed = λ w p h. ground arith;
    tables = λ w a p h. tables-insert_request r w a blank p h;
  }

-- The rules at one predicate, so that `search` need not guess it.
module _ {A B : Type 0} where
  Settled-bind :
      (m : Exec A) (f : A → Exec B)
      → Leads IsSettled IsSettled m
      → ((a : A) → Leads IsSettled IsSettled (f a))
      → Leads IsSettled IsSettled (m >>= f)
  Settled-bind m f km kf = Leads-bind m f km kf

  Settled-continue :
      (r : Result A) (f : A → Exec B)
      → ((a : A) → r ≡ ok a → Leads IsSettled IsSettled (f a))
      → Leads IsSettled IsSettled (lift r >>= f)
  Settled-continue (ok a) f k = record {
    committed = λ w. (k a refl).committed w;
    tables = λ w. (k a refl).tables w;
  }
  Settled-continue (err e) f k = record { committed = λ w p h. h; tables = λ w a p h. cc }

Settled-pure : {A : Type 0} (a : A) → Leads IsSettled IsSettled (pure a)
Settled-pure a = Leads-pure a (λ r k. k)

ruleset settled_rules = (
  Settled-bind, Settled-continue, Settled-pure, Leads-raise, Leads-if, Leads-raise_if,
  Leads-for_each, Leads-get_or_create_image, Leads-get_or_create_operator,
)

Leads-image_if_set : (v : Json) → Leads IsSettled IsSettled (image_if_set v)
unfolding image_if_set
Leads-image_if_set v = search settled_rules

Leads-from_index_image : (given : Option Json) → Leads IsSettled IsSettled (from_index_image given)
unfolding from_index_image
Leads-from_index_image none = search settled_rules
Leads-from_index_image (some v) = search settled_rules

Leads-batch_or_new :
    (env : Env) (batch : Option ℕ) → Leads IsSettled IsSettled (batch_or_new env batch)
unfolding batch_or_new add_batch
Leads-batch_or_new env none = Leads-same _ (λ w. refl) (λ w. refl) (λ r k. k)
Leads-batch_or_new env (some id) = Settled-pure id

Leads-insert_new :
    (env : Env) (r : Request)
    → r.states ≡ []
    → r.state ≡ none
    → Leads IsSettled IsSettled (insert_request env r)
Leads-insert_new env r e f = Leads-insert_request env r (record { states = e; state = f })

-- The constructor gives a row no state: it takes mapped objects alone for it, and JSON holds none.
abbrev pub GivesNoState : Env → Type 0
GivesNoState env =
    (kwargs : Dict Json) (r r' : Request) → env.construct kwargs r ≡ ok r' → IsBlank r → IsBlank r'

module _ (env : Env) where
  Leads-index_from_json :
      (params : Dict Json) (required optional : List String) (batch : Option ℕ)
      → Leads IsSettled IsSettled (index_from_json env params required optional batch)
  unfolding index_from_json
  Leads-index_from_json params required optional batch =
      search (settled_rules, Leads-image_if_set, Leads-from_index_image, Leads-batch_or_new) depth
        20

  pub Leads-add_from_json :
      (kwargs : Dict Json) (batch : Option ℕ)
      → Leads IsSettled IsSettled (add_from_json env kwargs batch)
  unfolding add_from_json
  Leads-add_from_json kwargs batch =
      search (settled_rules, Leads-index_from_json, Leads-insert_new) depth 20

  pub Leads-rm_from_json :
      (kwargs : Dict Json) (batch : Option ℕ)
      → Leads IsSettled IsSettled (rm_from_json env kwargs batch)
  unfolding rm_from_json
  Leads-rm_from_json kwargs batch =
      search (settled_rules, Leads-index_from_json, Leads-insert_new) depth 20

  pub Leads-regenerate_from_json :
      (kwargs : Dict Json) (batch : Option ℕ)
      → Leads IsSettled IsSettled (regenerate_from_json env kwargs batch)
  unfolding regenerate_from_json
  Leads-regenerate_from_json kwargs batch =
      search (settled_rules, Leads-batch_or_new, Leads-insert_new) depth 20

  Leads-construct :
      GivesNoState env
      → (kwargs : Dict Json) (r : Request) → r.states ≡ []
      → r.state ≡ none
      → Leads IsSettled IsSettled
          (lift (env.construct kwargs r) >>= λ request. insert_request env request)
  Leads-construct no_state kwargs r e f = Settled-continue (env.construct kwargs r) _ (λ r' made.
      Leads-insert_request env r' (no_state kwargs r r' made (record { states = e; state = f })))

  pub Leads-merge_from_json :
      (kwargs : Dict Json) (batch : Option ℕ)
      → GivesNoState env
      → Leads IsSettled IsSettled (merge_from_json env kwargs batch)
  unfolding merge_from_json
  Leads-merge_from_json kwargs batch no_state =
      search (settled_rules, Leads-image_if_set, Leads-batch_or_new, Leads-construct no_state) depth
        24
