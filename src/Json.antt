-- ===== src/Json.antt =====
-- The JSON values that `flask.request.get_json()` hands over, as Python sees them: the type tests
-- and the truth value of each. A float is known by whether it is zero, which is all that the code
-- reads of one.
use iib.Common.{ℕ, zero, String, Bool, true, false, not, List, [], ◌∷◌, ◌==◌, nat_eq}
use mathlib.Core.Bool.{xor, ◌&&◌}
use iib.Common.Dict.{Dict}

-- `negsuc n` is -(n + 1).
pub data ℤ : Type 0 where
  pos negsuc : ℕ → ℤ

mutual
  pub data Json : Type 0 where
    null : Json
    bool : Bool → Json
    int : ℤ → Json
    float : (is_zero : Bool) → Json
    str : String → Json
    arr : Items → Json
    obj : Fields → Json

  pub data Items : Type 0 where
    nil : Items
    cons : Json → Items → Items

  pub data Fields : Type 0 where
    end : Fields
    field : String → Json → Fields → Fields

abbrev pub items : Items → List Json
items nil = []
items (cons v vs) = v ∷ items vs

abbrev pub fields : Fields → Dict Json
fields end = []
fields (field k v fs) = (k, v) ∷ fields fs

-- `bool(v)`
unfoldable pub truthy : Json → Bool
truthy null = false
truthy (bool b) = b
truthy (int (pos zero)) = false
truthy (int _) = true
truthy (float is_zero) = not is_zero
truthy (str s) = not (s == "")
truthy (arr nil) = false
truthy (arr _) = true
truthy (obj end) = false
truthy (obj _) = true

-- `isinstance(v, bool)`, `isinstance(v, str)`, `isinstance(v, list)`, `isinstance(v, dict)`
unfoldable pub is_bool : Json → Bool
is_bool (bool b) = true
is_bool _ = false

unfoldable pub is_str : Json → Bool
is_str (str s) = true
is_str _ = false

unfoldable pub is_list : Json → Bool
is_list (arr vs) = true
is_list _ = false

unfoldable pub is_dict : Json → Bool
is_dict (obj fs) = true
is_dict _ = false

-- The list of a list's items, back as JSON.
abbrev pub of_list : List Json → Items
of_list [] = nil
of_list (v ∷ vs) = cons v (of_list vs)

abbrev pub int_eq : ℤ → ℤ → Bool
int_eq (pos m) (pos n) = nat_eq m n
int_eq (negsuc m) (negsuc n) = nat_eq m n
int_eq _ _ = false

-- Python's `==` between values of the same type. Of two dicts with the same fields only those in
-- the same order are equal here, and an integer is not equal to a Boolean or a float.
unfoldable mutual
  pub json_eq : Json → Json → Bool
  json_eq null null = true
  json_eq (bool a) (bool b) = not (xor a b)
  json_eq (int a) (int b) = int_eq a b
  json_eq (float a) (float b) = not (xor a b)
  json_eq (str s) (str t) = s == t
  json_eq (arr vs) (arr ws) = items_eq vs ws
  json_eq (obj fs) (obj gs) = fields_eq fs gs
  json_eq _ _ = false

  pub items_eq : Items → Items → Bool
  items_eq nil nil = true
  items_eq (cons v vs) (cons w ws) = json_eq v w && items_eq vs ws
  items_eq _ _ = false

  pub fields_eq : Fields → Fields → Bool
  fields_eq end end = true
  fields_eq (field k v fs) (field j w gs) = k == j && json_eq v w && fields_eq fs gs
  fields_eq _ _ = false
