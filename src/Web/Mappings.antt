-- ===== src/Web/Mappings.antt =====
-- The enums of iib/web/models.py: the states and the types of a request.
use iib.Common.{ℕ, zero, suc, String, List, [], ◌∷◌, contains, if◌then◌else◌}
use iib.Common.Dict.{Dict}
use iib.Exn.{Result, ok, err, validation_error, value_error, invalid_state}

pub data RequestStateMapping : Type 0 where
  in_progress complete failed : RequestStateMapping

pub data RequestTypeMapping : Type 0 where
  generic add rm regenerate_bundle merge_index_image : RequestTypeMapping

abbrev pub state_value : RequestStateMapping → ℕ
state_value in_progress = 1
state_value complete = 2
state_value failed = 3

abbrev pub state_name : RequestStateMapping → String
state_name in_progress = "in_progress"
state_name complete = "complete"
state_name failed = "failed"

-- `RequestStateMapping(n)`
unfoldable pub state_of_value : ℕ → Result RequestStateMapping
state_of_value (suc zero) = ok in_progress
state_of_value (suc (suc zero)) = ok complete
state_of_value (suc (suc (suc zero))) = ok failed
state_of_value _ = err value_error

-- `RequestStateMapping.__members__`
abbrev pub state_members : Dict RequestStateMapping
state_members = ("in_progress", in_progress) ∷ ("complete", complete) ∷ ("failed", failed) ∷ []

-- The names are sorted.
abbrev pub get_names : List String
get_names = "complete" ∷ "failed" ∷ "in_progress" ∷ []

abbrev pub get_final_states : List String
get_final_states = "complete" ∷ "failed" ∷ []

unfoldable pub validate_state : String → Result (Unit {0})
validate_state state =
    if contains state get_names then ok tt else err (validation_error (invalid_state state))

abbrev pub type_value : RequestTypeMapping → ℕ
type_value generic = 0
type_value add = 1
type_value rm = 2
type_value regenerate_bundle = 3
type_value merge_index_image = 4

unfoldable pub type_of_value : ℕ → Result RequestTypeMapping
type_of_value zero = ok generic
type_of_value (suc zero) = ok add
type_of_value (suc (suc zero)) = ok rm
type_of_value (suc (suc (suc zero))) = ok regenerate_bundle
type_of_value (suc (suc (suc (suc zero)))) = ok merge_index_image
type_of_value _ = err value_error

-- `RequestTypeMapping(num).name.replace('_', '-')`, for the enum's own values
abbrev pub pretty : RequestTypeMapping → String
pretty generic = "generic"
pretty add = "add"
pretty rm = "rm"
pretty regenerate_bundle = "regenerate-bundle"
pretty merge_index_image = "merge-index-image"
