-- ===== src/Exn.antt =====
-- iib/exceptions.py and the other exceptions that the code raises or lets through.
-- The text of a message is given by a constructor for the place that raises it, with the values
-- that the f-string interpolates; `Exn.message` prints the ones that the code itself prints again.
use iib.Common.{◌⊎◌, inl, inr, ℕ, String, List, ◌≡◌, refl}

-- The messages of `ValidationError`.
pub data Reason : Type 0 where
  -- models.py, validate_request_params
  missing_params invalid_params : List String → Reason
  must_be_set : String → Reason
  -- models.py, validate_registry_auths
  auths_not_dict auths_single_key auths_empty : Reason
  auth_format : String → Reason
  -- models.py, RequestStateMapping, Request, Architecture, Image, Batch
  invalid_state : String → Reason
  final_state : String → Reason
  invalid_type : ℕ → Reason
  arches_format : Reason
  image_without_tag : String → Reason
  batch_payload annotations_format batch_not_positive : Reason
  -- models.py, the `from_json` methods
  no_index_nor_arches overwrite_not_bool token_not_string overwrite_required token_required : Reason
  bad_scope binary_image_not_string binary_image_required : Reason
  not_string : String → Reason
  not_string_list : String → Reason
  no_bundles_nor_index force_backport_not_bool : Reason
  -- api_v1.py
  not_json_object no_keys : Reason
  keys_not_allowed : List String → Reason
  mapping_format : String → Reason
  not_nonempty_string : String → Reason
  reason_required state_required : Reason
  no_omps_version : ℕ → Reason
  neither_add_nor_rm : Reason
  -- The message of another reason, and the index of the build request that it occurred on.
  at_index : Reason → ℕ → Reason

-- The messages of werkzeug's `Forbidden`.
pub data Denial : Type 0 where
  not_privileged not_a_worker : Denial

-- The exceptions that only the workers raise: AddressAlreadyInUse and ConfigError of
-- iib/exceptions.py, Python's IndexError and OSError, and what a parser of the standard library or
-- of another package raises.
pub data WorkerExn : Type 0 where
  address_already_in_use config_error : String → WorkerExn
  index_error os_error decode_error : WorkerExn

pub data Exn : Type 0 where
  validation_error : Reason → Exn
  iib_error : String → Exn
  -- werkzeug's
  forbidden : Denial → Exn
  not_found gone : Exn
  -- Python's own, which Flask answers with status 500
  type_error attribute_error key_error value_error : Exn
  of_worker : WorkerExn → Exn

-- What a function of the code returns, or the exception that leaves it.
pub data Result {ℓ} (A : Type ℓ) : Type ℓ where
  ok : A → Result A
  err : Exn → Result A

pub Result-cases {ℓ} :
    {A : Type ℓ} (r : Result A) → ((e : Exn) × (r ≡ err e)) ⊎ ((a : A) × (r ≡ ok a))
Result-cases (err e) = inl (e, refl)
Result-cases (ok a) = inr (a, refl)

module _ {ℓ κ} {A : Type ℓ} {B : Type κ} where
  infixl 10 ◌>>=◌
  -- The statements after `first`, unless it raises.
  abbrev pub ◌>>=◌ : Result A → (A → Result B) → Result B
  err x >>= later = err x
  ok v >>= later = later v

  -- Where both end well, so does the first, and the others go on from its value.
  pub >>=-eq-ok :
      (first : Result A) (later : A → Result B) {last : B}
      → (first >>= later) ≡ ok last
      → (v : A) × (first ≡ ok v) × (later v ≡ ok last)
  >>=-eq-ok (err x) later e = cc
  >>=-eq-ok (ok v) later e = (v, refl, e)

module _ {κ} {B : Type κ} where
  infixl 10 ◌>>◌
  abbrev pub ◌>>◌ : Result (Unit {0}) → Result B → Result B
  first >> later = first >>= λ nothing. later
