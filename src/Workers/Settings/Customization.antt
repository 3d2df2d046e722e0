-- ===== src/Workers/Settings/Customization.antt =====
-- Which customizations of an organization the validation accepts.
use iib.Common.{
  String, Bool, true, false, not, ◌&&◌, ◌||◌, Option, none, some, List, [], ◌∷◌, ◌≡◌, refl, arith,
  ◌==◌, all, keep, dec_str, if◌then◌else◌, Bool-cases, inl, inr,
}
use iib.Common.Dict.{Dict, get, keys}
use iib.Exn.{Exn, Result, ok, err, ◌>>=◌, ◌>>◌, key_error, attribute_error}
use iib.Common.Text.{◌⧺◌}
use iib.Json.{Json, null, bool, int, float, str, arr, obj, Fields, fields, truthy, is_str}
use iib.Workers.Values.{subscript, dot_get}
use iib.Workers.Settings.{
  Outside, invalid, valid_customizations, key_for, check_keys, check_texts, check_mapping,
  check_value, validate_customization, validate_customizations, place_of,
}

-- A mapping as the code accepts it: a dict of texts, or in its place any value that is false in
-- Python, which the code skips.
abbrev pub is_text_mapping : Json → Bool
is_text_mapping (obj fs) = all (λ (k, v). is_str v) (fields fs)
is_text_mapping v = not (truthy v)

-- A dict that has its type, one of the three, and the key of that type, and no other key, as the code
-- accepts it.
abbrev pub has_only : (key : String) → Fields → (Json → Bool) → Bool
has_only key fs good =
    all (λ k. k == key || k == "type") (keys (fields fs))
    && elim (get key (fields fs)) [ none ↦ false | some v ↦ good v ]

-- By the form of the annotations and of the replacements.
abbrev pub customization_form : (mapping : Json → Bool) → Json → Bool
customization_form mapping (obj fs) = elim (get "type" (fields fs)) [
  | some (str type) ↦
      if "csv_annotations" == type
      then has_only "annotations" fs mapping
      else if "package_name_suffix" == type
      then has_only "suffix" fs is_str
      else if "registry_replacements" == type
      then has_only "replacements" fs mapping
      else false
  | _ ↦ false
]
customization_form mapping _ = false

abbrev pub is_customization : Json → Bool
is_customization c = customization_form is_text_mapping c

-- What says ok where the test holds, and only there.
pub record Decides (r : Result (Unit {0})) (b : Bool) : Type 0 where
  pub accepts : b ≡ true → r ≡ ok tt
  pub only : r ≡ ok tt → b ≡ true

pub Decides-then :
    (r s : Result (Unit {0})) (b c : Bool) → Decides r b → Decides s c → Decides (r >> s) (b && c)
Decides-then (ok done) s true c p q = q
Decides-then (ok done) s false c p q = record {
  accepts = λ h. cc;
  only = λ h. ground (arith, p.only refl);
}
Decides-then (err e) s true c p q = record {
  accepts = λ h. ground (arith, p.accepts refl);
  only = λ h. cc;
}
Decides-then (err e) s false c p q = record { accepts = λ h. cc; only = λ h. cc }

pub Decides-true : Decides (ok tt) true
Decides-true = record { accepts = λ h. refl; only = λ h. refl }

pub Decides-false : (e : Exn) → Decides (err e) false
Decides-false e = record { accepts = λ h. cc; only = λ h. cc }

Decides-if : (b : Bool) (e : Exn) → Decides (if b then ok tt else err e) b
Decides-if true e = Decides-true
Decides-if false e = Decides-false e

check_texts-Decides :
    (spot key : String) (d : Dict Json)
    → Decides (check_texts spot key d) (all (λ (k, v). is_str v) d)
unfolding check_texts
check_texts-Decides spot key [] = record { accepts = λ h. refl; only = λ h. refl }
check_texts-Decides spot key ((k, v) ∷ d) =
    let rest = check_texts-Decides spot key d in
    record { accepts = λ h. ground (arith, rest.accepts); only = λ h. ground (arith, rest.only) }

unless_truthy : (b : Bool) → Decides (if b then err attribute_error else ok tt) (not b)
unless_truthy true = Decides-false _
unless_truthy false = Decides-true

check_mapping-Decides :
    (spot key : String) (v : Json) → Decides (check_mapping spot key v) (is_text_mapping v)
check_mapping-Decides spot key (obj fs) = check_texts-Decides spot key (fields fs)
check_mapping-Decides spot key null = unless_truthy (truthy null)
check_mapping-Decides spot key (bool b) = unless_truthy (truthy (bool b))
check_mapping-Decides spot key (int n) = unless_truthy (truthy (int n))
check_mapping-Decides spot key (float z) = unless_truthy (truthy (float z))
check_mapping-Decides spot key (str t) = unless_truthy (truthy (str t))
check_mapping-Decides spot key (arr vs) = unless_truthy (truthy (arr vs))

check_keys-Decides :
    (o : Outside) (spot key : String) (ks : List String)
    → Decides
        (elim (keep (λ k. not (k == key || k == "type")) ks) [
          | [] ↦ ok tt
          | k ∷ ks ↦
              err (invalid ("The keys " ⧺ o.keys_text (k ∷ ks) ⧺ " in " ⧺ spot ⧺ " are invalid."))
        ])
        (all (λ k. k == key || k == "type") ks)
check_keys-Decides o spot key [] = Decides-true
check_keys-Decides o spot key (k ∷ ks) = elim (Bool-cases (k == key || k == "type")) [
  | inl h ↦ rw h (check_keys-Decides o spot key ks)
  | inr h ↦ rw h (Decides-false _)
]

found-Decides :
    (found : Option Json) (check : Json → Result (Unit {0})) (good : Json → Bool)
    → ((v : Json) → Decides (check v) (good v))
    → Decides
        (elim found [ some v ↦ ok v | none ↦ err key_error ] >>= check)
        (elim found [ none ↦ false | some v ↦ good v ])
found-Decides none check good k = Decides-false _
found-Decides (some v) check good k = k v

-- The rest of the checks, for one of the three keys.
keyed-Decides :
    (o : Outside) (spot key : String) (fs : Fields) (good : Json → Bool)
    → ((v : Json) → Decides (check_value spot key v) (good v))
    → Decides
        (check_keys o spot key fs
          >> (subscript key (obj fs) >>= λ value. check_value spot key value))
        (has_only key fs good)
unfolding subscript
keyed-Decides o spot key fs good k =
    Decides-then _ _ _ _ (check_keys-Decides o spot key (keys (fields fs)))
      (found-Decides (get key (fields fs)) (check_value spot key) good k)

abbrev key_by : (b1 b2 b3 : Bool) → Option String
key_by b1 b2 b3 =
    if b1
    then some "annotations"
    else if b2
    then some "suffix"
    else if b3
    then some "replacements"
    else none

-- By the type: each test is one of the code's look-up in `valid_customizations`.
typed-Decides :
    (o : Outside) (spot : String) (fs : Fields) (e : Exn) (b1 b2 b3 : Bool)
    → Decides
        (elim (key_by b1 b2 b3) [ some key ↦ ok key | none ↦ err e ] >>= λ key.
          check_keys o spot key fs
          >> (subscript key (obj fs) >>= λ value. check_value spot key value))
        (if b1
          then has_only "annotations" fs is_text_mapping
          else if b2
          then has_only "suffix" fs is_str
          else if b3
          then has_only "replacements" fs is_text_mapping
          else false)
unfolding dec_str
typed-Decides o spot fs e true b2 b3 =
    keyed-Decides o spot "annotations" fs is_text_mapping (check_mapping-Decides spot "annotations")
typed-Decides o spot fs e false true b3 =
    keyed-Decides o spot "suffix" fs is_str (λ v. Decides-if (is_str v) _)
typed-Decides o spot fs e false false true =
    keyed-Decides o spot "replacements" fs is_text_mapping
      (check_mapping-Decides spot "replacements")
typed-Decides o spot fs e false false false = Decides-false e

-- By what the type is.
by_type :
    (o : Outside) (spot : String) (fs : Fields) (type : Option Json)
    → Decides
        (elim type [ some v ↦ ok v | none ↦ ok null ] >>= λ type. key_for o (obj fs) type >>= λ key.
          check_keys o spot key fs
          >> (subscript key (obj fs) >>= λ value. check_value spot key value))
        (elim type [
          | some (str type) ↦
              if "csv_annotations" == type
              then has_only "annotations" fs is_text_mapping
              else if "package_name_suffix" == type
              then has_only "suffix" fs is_str
              else if "registry_replacements" == type
              then has_only "replacements" fs is_text_mapping
              else false
          | _ ↦ false
        ])
unfolding key_for valid_customizations get
by_type o spot fs none = Decides-false _
by_type o spot fs (some null) = Decides-false _
by_type o spot fs (some (bool b)) = Decides-false _
by_type o spot fs (some (int n)) = Decides-false _
by_type o spot fs (some (float z)) = Decides-false _
by_type o spot fs (some (str type)) =
    typed-Decides o spot fs _ ("csv_annotations" == type) ("package_name_suffix" == type)
      ("registry_replacements" == type)
by_type o spot fs (some (arr vs)) = Decides-false _
by_type o spot fs (some (obj gs)) = Decides-false _

validate_customization-Decides :
    (o : Outside) (org : String) (org_config : List Json) (c : Json)
    → Decides (validate_customization o org org_config c) (is_customization c)
unfolding validate_customization dot_get
validate_customization-Decides o org org_config (obj fs) =
    by_type o (place_of org org_config (obj fs)) fs (get "type" (fields fs))
validate_customization-Decides o org org_config null = Decides-false _
validate_customization-Decides o org org_config (bool b) = Decides-false _
validate_customization-Decides o org org_config (int n) = Decides-false _
validate_customization-Decides o org org_config (float z) = Decides-false _
validate_customization-Decides o org org_config (str t) = Decides-false _
validate_customization-Decides o org org_config (arr vs) = Decides-false _

pub all_customizations-Decides :
    (o : Outside) (org : String) (org_config left : List Json)
    → Decides (validate_customizations o org org_config left) (all is_customization left)
unfolding validate_customizations
all_customizations-Decides o org org_config [] = Decides-true
all_customizations-Decides o org org_config (c ∷ left) =
    Decides-then _ _ _ _ (validate_customization-Decides o org org_config c)
      (all_customizations-Decides o org org_config left)
