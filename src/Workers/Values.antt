-- ===== src/Workers/Values.antt =====
-- What the workers ask of JSON values, dicts and sets: Python's `d[k]`, `d.get(k)`, `xs[0]`,
-- iteration, and sets of texts as lists without repetition.
use iib.Common.{
  ℕ, String, Bool, true, false, Option, none, some, List, [], ◌∷◌, ◌++◌, map, contains,
  if◌then◌else◌,
}
use iib.Common.Dict.{Dict, get}
use iib.Exn.{Result, ok, err, of_worker, index_error, type_error, attribute_error, key_error}
use iib.Json.{Json, Fields, end, field, null, str, arr, obj, items, fields, truthy}

-- `v[k]`, for a text `k`
unfoldable pub subscript : String → Json → Result Json
subscript k (obj fs) = elim (get k (fields fs)) [ some v ↦ ok v | none ↦ err key_error ]
subscript k _ = err type_error

-- `v.get(k, default)`
unfoldable pub dot_get : String → (default : Json) → Json → Result Json
dot_get k default (obj fs) = elim (get k (fields fs)) [ some v ↦ ok v | none ↦ ok default ]
dot_get k default _ = err attribute_error

-- `v[0]`, where `v` is a list or a dict with text keys
unfoldable pub first_item : Json → Result Json
first_item (arr vs) = elim (items vs) [ [] ↦ err (of_worker index_error) | v ∷ _ ↦ ok v ]
first_item (obj fs) = err key_error
first_item _ = err type_error

abbrev pub texts_to_json : List String → List Json
texts_to_json ss = map str ss

-- `for item in v`
unfoldable pub iterate : Json → Result (List Json)
iterate (arr vs) = ok (items vs)
iterate (obj fs) = ok (texts_to_json (iib.Common.Dict.keys (fields fs)))
iterate _ = err type_error

-- `d.get(k)` with a key that need not be a text: a list or a dict cannot be hashed.
unfoldable pub get_by_json : {A : Type 0} → Json → Dict A → Result (Option A)
get_by_json (str k) d = ok (get k d)
get_by_json (arr vs) d = err type_error
get_by_json (obj fs) d = err type_error
get_by_json _ d = ok none

-- A dict's fields, back as JSON.
abbrev pub to_fields : Dict Json → Fields
to_fields [] = end
to_fields ((k, v) ∷ d) = field k v (to_fields d)

abbrev pub str_or_null : Option String → Json
str_or_null none = null
str_or_null (some s) = str s

-- `not s`, for a text or None
abbrev pub is_set : Option String → Bool
is_set none = false
is_set (some s) = truthy (str s)

-- `s.add(x)`
unfoldable pub add_to_set : String → List String → List String
add_to_set x s = if contains x s then s else s ++ x ∷ []

-- `s | set(xs)`
unfoldable pub union : List String → List String → List String
unfolding add_to_set
union s [] = s
union s (x ∷ xs) = union (add_to_set x s) xs
