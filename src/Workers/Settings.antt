-- ===== src/Workers/Settings.antt =====
-- `validate_celery_config` of iib/workers/config.py. A configuration is a dict of values as JSON has
-- them, so that the keys of dicts are texts and the two tests for that are left out.
pub mod Customization
pub mod Valid
pub mod Documented
use iib.Common.{
  ℕ, suc, String, Bool, true, false, not, ◌||◌, Option, none, some, List, [], ◌∷◌, ◌==◌, keep,
  if◌then◌else◌,
}
use iib.Common.Dict.{Dict, get, keys}
use iib.Common.Text.{◌⧺◌}
use iib.Common.Find.{decimal}
use iib.Exn.{
  Exn, Result, ok, err, ◌>>=◌, ◌>>◌, of_worker, config_error, key_error, type_error,
  attribute_error,
}
use iib.Json.{Json, null, str, arr, obj, Fields, fields, items, truthy, is_str, json_eq}
use iib.Workers.Values.{subscript, dot_get}

-- What is not read here: `str` of a value and of a set of keys, and the two questions about a
-- directory.
pub record Outside : Type 0 where
  pub text : Json → String
  pub keys_text : List String → String
  pub is_dir : Json → Bool
  pub is_writable : Json → Bool

abbrev pub invalid : String → Exn
invalid message = of_worker (config_error message)

-- `valid_customizations`: the key that each type of customization has beside its type.
unfoldable pub valid_customizations : Dict String
valid_customizations =
    ("csv_annotations", "annotations")
    ∷ ("package_name_suffix", "suffix")
    ∷ ("registry_replacements", "replacements")
    ∷ []

-- The key for the type, where it is one of the three. A list or a dict cannot be looked up.
unfoldable pub key_for : Outside → Json → Json → Result String
unfolding valid_customizations
key_for o customization (str type) = elim (get type valid_customizations) [
  | some key ↦ ok key
  | none ↦
      err (
        invalid
          ("Invalid customization in iib_organization_customizations " ⧺ o.text customization))
]
key_for o customization (arr vs) = err type_error
key_for o customization (obj fs) = err type_error
key_for o customization _ =
    err
      (invalid ("Invalid customization in iib_organization_customizations " ⧺ o.text customization))

-- `org_config.index(customization)`
abbrev pub index_of : Json → List Json → ℕ
index_of v [] = 0
index_of v (w ∷ ws) = let rest = index_of v ws in if json_eq w v then 0 else suc rest

abbrev pub place_of : (org : String) → (org_config : List Json) → (customization : Json) → String
place_of org org_config customization =
    "iib_organization_customizations."
    ⧺ org
    ⧺ "["
    ⧺ decimal (index_of customization org_config)
    ⧺ "]"

abbrev pub check_keys : Outside → (place : String) → (key : String) → Fields → Result (Unit {0})
check_keys o place key fs = elim (keep (λ k. not (k == key || k == "type")) (keys (fields fs))) [
  | [] ↦ ok tt
  | k ∷ ks ↦ err (invalid ("The keys " ⧺ o.keys_text (k ∷ ks) ⧺ " in " ⧺ place ⧺ " are invalid."))
]

unfoldable pub check_texts : (place key : String) → Dict Json → Result (Unit {0})
check_texts place key [] = ok tt
check_texts place key ((k, v) ∷ d) =
    let rest = check_texts place key d in
    if is_str v
    then rest
    else err (invalid ("The values in " ⧺ place ⧺ "." ⧺ key ⧺ " must be strings"))

abbrev pub check_mapping : (place key : String) → Json → Result (Unit {0})
check_mapping place key (obj fs) = check_texts place key (fields fs)
check_mapping place key v = if truthy v then err attribute_error else ok tt

abbrev pub check_value : (place key : String) → Json → Result (Unit {0})
check_value place key v =
    if key == "suffix"
    then (if is_str v
        then ok tt
        else err (invalid ("The value of " ⧺ place ⧺ ".suffix must be a string")))
    else check_mapping place key v

-- What the loop over the customizations of an organization does with one.
unfoldable pub validate_customization :
    Outside → (org : String) → (org_config : List Json) → Json → Result (Unit {0})
unfolding key_for check_texts
validate_customization o org org_config (obj fs) = dot_get "type" null (obj fs) >>= λ type.
    key_for o (obj fs) type >>= λ key.
    check_keys o (place_of org org_config (obj fs)) key fs
    >> (subscript key (obj fs) >>= λ value.
        check_value (place_of org org_config (obj fs)) key value)
validate_customization o org org_config _ = err (
    invalid
      ("Every customization for an org in " ⧺ "iib_organization_customizations must be dictionary"))

unfoldable pub validate_customizations :
    Outside → (org : String) → (org_config left : List Json) → Result (Unit {0})
validate_customizations o org org_config [] = ok tt
validate_customizations o org org_config (c ∷ left) =
    validate_customization o org org_config c >> validate_customizations o org org_config left

abbrev pub validate_org : Outside → (org : String) → Json → Result (Unit {0})
validate_org o org (arr vs) = validate_customizations o org (items vs) (items vs)
validate_org o org _ =
    err (invalid "The org values in iib_organization_customizations must be a list")

unfoldable pub validate_orgs : Outside → Dict Json → Result (Unit {0})
unfolding validate_customizations
validate_orgs o [] = ok tt
validate_orgs o ((org, org_config) ∷ d) = validate_org o org org_config >> validate_orgs o d

-- `_validate_iib_org_customizations`
unfoldable pub validate_iib_org_customizations : Outside → Json → Result (Unit {0})
validate_iib_org_customizations o (obj fs) = validate_orgs o (fields fs)
validate_iib_org_customizations o _ =
    err (invalid "iib_organization_customizations must be a dictionary")

abbrev or_null : Option Json → Json
or_null none = null
or_null (some v) = v

abbrev is_dict : Json → Bool
is_dict (obj fs) = true
is_dict _ = false

abbrev check_logs_dir : Outside → Json → Result (Unit {0})
check_logs_dir o dir =
    if not (truthy dir)
    then ok tt
    else if not (o.is_dir dir)
    then err (invalid ("iib_request_logs_dir, " ⧺ o.text dir ⧺ ", must exist and be a directory"))
    else if not (o.is_writable dir)
    then err (invalid ("iib_request_logs_dir, " ⧺ o.text dir ⧺ ", is not writable!"))
    else ok tt

abbrev check_required_labels : Json → Result (Unit {0})
check_required_labels v =
    if is_dict v then ok tt else err (invalid "iib_required_labels must be a dictionary")

unfoldable pub validate_celery_config : Outside → (conf : Dict Json) → Result (Unit {0})
unfolding validate_iib_org_customizations
validate_celery_config o conf =
    if not (truthy (or_null (get "iib_registry" conf)))
    then err (invalid "iib_registry must be set to the destination container registry")
    else if not (truthy (or_null (get "iib_api_url" conf)))
    then err (invalid "iib_api_url must be set")
    else (elim (get "iib_required_labels" conf) [
      | none ↦ err key_error
      | some labels ↦ check_required_labels labels
    ]
        >> (elim (get "iib_organization_customizations" conf) [
          | none ↦ err key_error
          | some customizations ↦ validate_iib_org_customizations o customizations
        ]
            >> check_logs_dir o (or_null (get "iib_request_logs_dir" conf))))
