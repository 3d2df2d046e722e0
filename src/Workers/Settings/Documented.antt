-- ===== src/Workers/Settings/Documented.antt =====
-- The customizations that the README documents, beside those that
-- `_validate_iib_org_customizations` of iib/workers/config.py accepts.
use iib.Common.{
  String, Bool, true, false, ◌&&◌, ◌||◌, Option, none, some, List, [], ◌∷◌, ◌≡◌, refl, arith, all,
  ◌==◌, if◌then◌else◌,
}
use iib.Common.Dict.{get, keys}
use iib.Exn.{ok}
use iib.Json.{Json, null, bool, int, float, str, arr, obj, Fields, fields, items, is_str}
use iib.Workers.Settings.{Outside, validate_iib_org_customizations}
use iib.Workers.Settings.Customization.{
  is_text_mapping, has_only, customization_form, is_customization,
}
use iib.Workers.Settings.Valid.{
  org_form, orgs_form, is_org_customizations, validate_iib_org_customizations-Decides,
}

-- A dictionary of texts, and nothing in its place.
abbrev pub is_text_dict : Json → Bool
is_text_dict (obj fs) = all (λ (k, v). is_str v) (fields fs)
is_text_dict _ = false

abbrev pub is_documented : Json → Bool
is_documented v = orgs_form (customization_form is_text_dict) v

all-widen :
    {A : Type 0} (p q : A → Bool)
    → ((a : A) → p a ≡ true → q a ≡ true)
    → (xs : List A) → all p xs ≡ true
    → all q xs ≡ true
all-widen p q k [] h = refl
all-widen p q k (x ∷ xs) h = ground (arith, k x, all-widen p q k xs)

text_dict-mapping : (v : Json) → is_text_dict v ≡ true → is_text_mapping v ≡ true
text_dict-mapping (obj fs) h = h
text_dict-mapping null h = cc
text_dict-mapping (bool b) h = cc
text_dict-mapping (int n) h = cc
text_dict-mapping (float z) h = cc
text_dict-mapping (str t) h = cc
text_dict-mapping (arr vs) h = cc

found-widen :
    (b : Bool) (found : Option Json)
    → (b && elim found [ none ↦ false | some v ↦ is_text_dict v ]) ≡ true
    → (b && elim found [ none ↦ false | some v ↦ is_text_mapping v ]) ≡ true
found-widen true none h = h
found-widen true (some v) h = text_dict-mapping v h
found-widen false found h = cc

has_only-widen :
    (key : String) (fs : Fields)
    → has_only key fs is_text_dict ≡ true
    → has_only key fs is_text_mapping ≡ true
has_only-widen key fs h =
    found-widen (all (λ k. k == key || k == "type") (keys (fields fs))) (get key (fields fs)) h

typed-widen :
    (b1 b2 b3 : Bool) (fs : Fields)
    → (if b1
        then has_only "annotations" fs is_text_dict
        else if b2
        then has_only "suffix" fs is_str
        else if b3
        then has_only "replacements" fs is_text_dict
        else false)
      ≡ true
    → (if b1
        then has_only "annotations" fs is_text_mapping
        else if b2
        then has_only "suffix" fs is_str
        else if b3
        then has_only "replacements" fs is_text_mapping
        else false)
      ≡ true
typed-widen true b2 b3 fs h = has_only-widen "annotations" fs h
typed-widen false true b3 fs h = h
typed-widen false false true fs h = has_only-widen "replacements" fs h
typed-widen false false false fs h = h

by_type-widen :
    (fs : Fields) (type : Option Json)
    → elim type [
      | some (str type) ↦
          if "csv_annotations" == type
          then has_only "annotations" fs is_text_dict
          else if "package_name_suffix" == type
          then has_only "suffix" fs is_str
          else if "registry_replacements" == type
          then has_only "replacements" fs is_text_dict
          else false
      | _ ↦ false
    ]
      ≡ true
    → elim type [
      | some (str type) ↦
          if "csv_annotations" == type
          then has_only "annotations" fs is_text_mapping
          else if "package_name_suffix" == type
          then has_only "suffix" fs is_str
          else if "registry_replacements" == type
          then has_only "replacements" fs is_text_mapping
          else false
      | _ ↦ false
    ]
      ≡ true
by_type-widen fs none h = h
by_type-widen fs (some null) h = h
by_type-widen fs (some (bool b)) h = h
by_type-widen fs (some (int n)) h = h
by_type-widen fs (some (float z)) h = h
by_type-widen fs (some (str type)) h =
    typed-widen ("csv_annotations" == type) ("package_name_suffix" == type)
      ("registry_replacements" == type) fs h
by_type-widen fs (some (arr vs)) h = h
by_type-widen fs (some (obj gs)) h = h

customization-widen :
    (c : Json) → customization_form is_text_dict c ≡ true → is_customization c ≡ true
customization-widen (obj fs) h = by_type-widen fs (get "type" (fields fs)) h
customization-widen null h = h
customization-widen (bool b) h = h
customization-widen (int n) h = h
customization-widen (float z) h = h
customization-widen (str t) h = h
customization-widen (arr vs) h = h

org-widen :
    (v : Json)
    → org_form (customization_form is_text_dict) v ≡ true
    → org_form is_customization v ≡ true
org-widen (arr vs) h = all-widen _ _ customization-widen (items vs) h
org-widen null h = h
org-widen (bool b) h = h
org-widen (int n) h = h
org-widen (float z) h = h
org-widen (str t) h = h
org-widen (obj fs) h = h

documented-widen : (v : Json) → is_documented v ≡ true → is_org_customizations v ≡ true
documented-widen (obj fs) h = all-widen _ _ (λ (org, v) k. org-widen v k) (fields fs) h
documented-widen null h = h
documented-widen (bool b) h = h
documented-widen (int n) h = h
documented-widen (float z) h = h
documented-widen (str t) h = h
documented-widen (arr vs) h = h

-- All that the README documents is accepted.
documented-accepted :
    (o : Outside) (v : Json) → is_documented v ≡ true → validate_iib_org_customizations o v ≡ ok tt
documented-accepted o v h =
    (validate_iib_org_customizations-Decides o v).accepts (documented-widen v h)
