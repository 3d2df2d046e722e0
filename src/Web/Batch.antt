-- ===== src/Web/Batch.antt =====
-- `Batch` of iib/web/models.py: the state of a batch, its user, and the validation of a batch's
-- payload and of a batch ID.
pub mod State
use iib.Common.{
  ℕ, zero, suc, String, Bool, true, false, not, ◌||◌, Option, none, some, List, [], ◌∷◌, ◌==◌, leb,
  nat_eq, keep, if◌then◌else◌,
}
use iib.Exn.{
  Result, ok, err, validation_error, attribute_error, batch_payload, annotations_format,
  batch_not_positive,
}
use iib.Json.{Json, ℤ, pos, negsuc, bool, int, str, obj, end, fields, truthy, is_list, is_dict}
use iib.Web.Mappings.{state_name, state_of_value}
use iib.Web.Tables.{RequestState, Request, Tables}
use iib.Web.Params.{get_or_null, get_or_else}

-- `RequestStateMapping(request.state.state).name`, for what the session has loaded
unfoldable pub loaded_state_name : Option RequestState → Result String
unfolding state_of_value
loaded_state_name none = err attribute_error
loaded_state_name (some s) = elim (state_of_value s.state) [
  | ok m ↦ ok (state_name m)
  | err e ↦ err e
]

-- Ordered by ID.
unfoldable pub insert_by_id : Request → List Request → List Request
insert_by_id r [] = r ∷ []
insert_by_id r (x ∷ xs) =
    let rest = insert_by_id r xs in if leb r.id x.id then r ∷ x ∷ xs else x ∷ rest

unfoldable pub order_by_id : List Request → List Request
unfolding insert_by_id
order_by_id [] = []
order_by_id (r ∷ rs) = insert_by_id r (order_by_id rs)

-- The requests of a batch.
unfoldable pub requests_of : ℕ → Tables → List Request
unfolding order_by_id
requests_of batch t = order_by_id (keep (λ r. nat_eq r.batch_id batch) t.requests)

unfoldable pub request_states : List Request → Result (List String)
unfolding loaded_state_name
request_states [] = ok []
request_states (r ∷ rs) = elim (loaded_state_name r.state) [
  | err e ↦ err e
  | ok s ↦ elim (request_states rs) [ err e ↦ err e | ok ss ↦ ok (s ∷ ss) ]
]

-- The loop of `Batch.state`, with its variable `contains_failure`.
unfoldable pub batch_state_from : (contains_failure : Bool) → List String → String
batch_state_from contains_failure [] = if contains_failure then "failed" else "complete"
batch_state_from contains_failure (state ∷ states) =
    let rest = batch_state_from (contains_failure || state == "failed") states in
    if state == "in_progress" then "in_progress" else rest

unfoldable pub batch_state : List String → String
unfolding batch_state_from
batch_state states = batch_state_from false states

-- `Batch.user`: a user of one of the requests
unfoldable pub batch_user : List Request → Option String
batch_user [] = none
batch_user (r ∷ rs) = let rest = batch_user rs in elim r.user [ some u ↦ some u | none ↦ rest ]

unfoldable pub validate_batch_request_params : Json → Result (Unit {0})
validate_batch_request_params (obj fs) =
    let build_requests = get_or_null "build_requests" (fields fs) in
    if not (is_list build_requests) || not (truthy build_requests)
    then err (validation_error batch_payload)
    else if not (is_dict (get_or_else "annotations" (obj end) (fields fs)))
    then err (validation_error annotations_format)
    else ok tt
validate_batch_request_params _ = err (validation_error batch_payload)

-- `Batch.validate_batch`. `parse_int` is Python's `int(s)` on a text, `none` where it raises
-- `ValueError`.
unfoldable pub positive : ℤ → Result ℤ
positive (pos zero) = err (validation_error batch_not_positive)
positive (pos (suc n)) = ok (pos (suc n))
positive (negsuc n) = err (validation_error batch_not_positive)

unfoldable pub validate_batch : (parse_int : String → Option ℤ) → Json → Result ℤ
unfolding positive
validate_batch parse_int (str s) = elim (parse_int s) [
  | none ↦ err (validation_error batch_not_positive)
  | some n ↦ positive n
]
validate_batch parse_int (int n) = positive n
validate_batch parse_int (bool true) = ok (pos 1)
validate_batch parse_int _ = err (validation_error batch_not_positive)
