-- ===== src/Workers/Prepare/Scope.antt =====
-- `_validate_distribution_scope` of iib/workers/tasks/utils.py.
pub mod NoRegress
use iib.Common.{ℕ, String, Option, none, some, ◌==◌, ltb, if◌then◌else◌}
use iib.Common.Text.{◌⧺◌}
use iib.Exn.{Result, ok, err, ◌>>=◌, iib_error, value_error}
use iib.Json.{Json, str}

abbrev scope_index_of_text : String → Result ℕ
scope_index_of_text s =
    if s == "dev"
    then ok 0
    else if s == "stage"
    then ok 1
    else if s == "prod"
    then ok 2
    else err value_error

-- `["dev", "stage", "prod"].index(v)`
unfoldable pub scope_index : Json → Result ℕ
scope_index (str s) = scope_index_of_text s
scope_index _ = err value_error

abbrev compare_scopes :
    (asked limit : ℕ) → (resolved_distribution_scope distribution_scope : String) → Result Json
compare_scopes asked limit resolved distribution_scope =
    if ltb limit asked
    then err (
        iib_error (
          "Cannot set \"distribution_scope\" to " ⧺ distribution_scope
          ⧺ " because from index is already set to " ⧺ resolved))
    else ok (str distribution_scope)

-- `text` is Python's `str`, for the message.
unfoldable pub validate_distribution_scope :
    (text : Json → String)
    → (resolved_distribution_scope : Json) → (distribution_scope : Option String) → Result Json
unfolding scope_index
validate_distribution_scope text resolved none = ok resolved
validate_distribution_scope text resolved (some distribution_scope) =
    if distribution_scope == ""
    then ok resolved
    else (scope_index (str distribution_scope) >>= λ asked. scope_index resolved >>= λ limit.
        compare_scopes asked limit (text resolved) distribution_scope)
