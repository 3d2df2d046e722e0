-- ===== src/Workers/Prepare/Config/Equal.antt =====
-- `RequestConfig.__eq__` of iib/workers/tasks/utils.py.
use iib.Common.{String, Bool, true, false, not, ◌≡◌, refl, arith, ◌==◌}
use mathlib.Core.Bool.{xor}
use iib.Json.{
  Json, Items, Fields, pos, negsuc, null, bool, int, float, str, arr, obj, nil, cons, end, field,
  json_eq, items_eq, fields_eq, of_list,
}
use iib.Workers.Prepare.Config.{RequestConfig, request_config_eq, slots, same_class}

xor_self : (b : Bool) → not (xor b b) ≡ true
unfolding xor
xor_self true = refl
xor_self false = refl

==-self : (s : String) → (s == s) ≡ true
==-self s = ground arith

mutual
  unfolding json_eq

  json_eq_self : (v : Json) → json_eq v v ≡ true
  json_eq_self null = refl
  json_eq_self (bool b) = xor_self b
  json_eq_self (int (pos n)) = ground arith
  json_eq_self (int (negsuc n)) = ground arith
  json_eq_self (float b) = xor_self b
  json_eq_self (str s) = ==-self s
  json_eq_self (arr vs) = items_eq_self vs
  json_eq_self (obj fs) = fields_eq_self fs

  items_eq_self : (vs : Items) → items_eq vs vs ≡ true
  items_eq_self nil = refl
  items_eq_self (cons v vs) = rw (json_eq_self v) (items_eq_self vs)

  fields_eq_self : (fs : Fields) → fields_eq fs fs ≡ true
  fields_eq_self end = refl
  fields_eq_self (field k v fs) = rw (==-self k, json_eq_self v) (fields_eq_self fs)

-- `RequestConfig.__eq__` says of any two configurations whether they are of the same class, and
-- nothing else: it does not look at the attributes of the other one.
pub request_config_eq-same_class :
    (self other : RequestConfig) → request_config_eq self other ≡ same_class self other
unfolding request_config_eq
request_config_eq-same_class self other = rw (items_eq_self (of_list (slots self))) ground arith
