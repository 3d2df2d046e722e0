-- ===== src/Workers/Gating.antt =====
-- iib/workers/greenwave.py: a request to add bundles goes on only if Greenwave is satisfied.
pub mod Round
pub mod Satisfied
use iib.Common.{◌+◌, ◌-◌, String, not, Option, none, some, List, [], ◌∷◌, ◌++◌, if◌then◌else◌}
use iib.Common.Dict.{Dict, put}
use iib.Common.Text.{◌⧺◌}
use iib.Common.Find.{join, rstrip}
use iib.Exn.{Result, ok, err, iib_error, key_error}
use iib.Json.{Json, null, str, truthy, arr, obj, nil, end}
use iib.Workers.Values.{is_set, subscript, dot_get, to_fields, iterate}
use iib.Workers.Exec.{
  Env, Exec, Config, HttpResponse, pure, raise, lift, ask, emit, ◌>>=◌, ◌>>◌, posted,
}
use iib.Workers.Api.{text_of}
use iib.Workers.Images.{get_image_labels}

-- `_get_koji_build_nvr`
unfoldable pub get_koji_build_nvr : Env → (bundle : String) → Exec String
get_koji_build_nvr env bundle = do
  labels ← get_image_labels env bundle
  component ← lift (subscript "com.redhat.component" labels)
  version ← lift (subscript "version" labels)
  release ← lift (subscript "release" labels)
  pure (text_of env component ⧺ "-" ⧺ text_of env version ⧺ "-" ⧺ text_of env release)

-- `_validate_greenwave_params_and_config`
unfoldable pub validate_greenwave_params_and_config : Config → Result (Unit {0})
validate_greenwave_params_and_config conf =
    if is_set conf.iib_greenwave_url
    then ok tt
    else err (iib_error "IIB is not configured to handle gating of bundles")

abbrev pub or_object : Option Json → Json
or_object none = obj end
or_object (some answer) = answer

-- What the loop has found so far: the bundles that failed, and the test cases of the last of them.
pub record Gate : Type 0 where
  pub unsatisfied : List String
  pub testcases : List String

abbrev testcase_of : Env → Json → Result String
testcase_of env item = elim (subscript "testcase" item) [
  | err e ↦ err e
  | ok testcase ↦ ok (text_of env testcase)
]

unfoldable pub testcases_of : Env → List Json → Result (List String)
testcases_of env [] = ok []
testcases_of env (item ∷ items) = elim (testcase_of env item) [
  | err e ↦ err e
  | ok t ↦ elim (testcases_of env items) [ err e ↦ err e | ok ts ↦ ok (t ∷ ts) ]
]

abbrev pub requirements : Env → Json → Result (List String)
requirements env answer = elim (dot_get "unsatisfied_requirements" (arr nil) answer) [
  | err e ↦ err e
  | ok v ↦ elim (iterate v) [ err e ↦ err e | ok items ↦ testcases_of env items ]
]

-- The body of the `try` statement: what Greenwave's decision adds.
unfoldable pub decide : Env → (bundle : String) → Gate → (answer : Json) → Result Gate
unfolding testcases_of
decide env bundle gate answer = elim (subscript "policies_satisfied" answer) [
  | err e ↦ err e
  | ok satisfied ↦ if truthy satisfied then ok gate else elim (requirements env answer) [
    | err e ↦ err e
    | ok testcases ↦
        ok (record { unsatisfied = gate.unsatisfied ++ bundle ∷ []; testcases = testcases })
  ]
]

-- `except KeyError`
abbrev pub missing_key : (bundle : String) → Result Gate → Result Gate
missing_key bundle (err key_error) =
    err (iib_error ("Key \"policies_satisfied\" missing in Greenwave response for " ⧺ bundle))
missing_key bundle r = r

abbrev pub response_error : Env → (bundle : String) → HttpResponse → Result (Unit {0})
response_error env bundle resp = elim (dot_get "message" null (or_object resp.json)) [
  | err e ↦ err e
  | ok message ↦ err (
      iib_error (
        "Gating check failed for "
        ⧺ bundle
        ⧺ ": "
        ⧺ (if truthy message then text_of env message else resp.text)))
]

abbrev pub check_response : Env → (bundle : String) → HttpResponse → Result (Unit {0})
check_response env bundle resp = if resp.is_ok then ok tt else response_error env bundle resp

-- The debug message reads these keys of the payload.
abbrev pub logged : Json → Exec (Unit {0})
logged payload = do
  lift (subscript "decision_context" payload)
  lift (subscript "product_version" payload)
  lift (subscript "subject_type" payload)
  pure tt

abbrev pub url_text : Option String → String
url_text none = ""
url_text (some url) = url

-- What the loop does with a bundle.
unfoldable pub gate_bundle :
    Env → (greenwave_config : Dict Json) → Gate → (bundle : String) → Exec Gate
unfolding get_koji_build_nvr decide
gate_bundle env greenwave_config gate bundle = do
  koji_build_nvr ← get_koji_build_nvr env bundle
  logged (obj (to_fields (put "subject_identifier" (str koji_build_nvr) greenwave_config)))
  emit (
      posted (rstrip b'/' (url_text env.config.iib_greenwave_url) ⧺ "/decision")
        (obj (to_fields (put "subject_identifier" (str koji_build_nvr) greenwave_config))))
  resp ← ask env.http
  lift (check_response env bundle resp)
  lift (missing_key bundle (decide env bundle gate (or_object resp.json)))

unfoldable pub gate_from :
    Env → (greenwave_config : Dict Json) → Gate → (bundles : List String) → Exec Gate
unfolding gate_bundle
gate_from env greenwave_config gate [] = pure gate
gate_from env greenwave_config gate (bundle ∷ bundles) = do
  next ← gate_bundle env greenwave_config gate bundle
  gate_from env greenwave_config next bundles

abbrev pub report : Env → (greenwave_config : Dict Json) → Gate → Exec (Unit {0})
report env greenwave_config gate = do
  context ← lift (subscript "decision_context" (obj (to_fields greenwave_config)))
  product ← lift (subscript "product_version" (obj (to_fields greenwave_config)))
  subject ← lift (subscript "subject_type" (obj (to_fields greenwave_config)))
  raise (
      iib_error (
        "Unsatisfied Greenwave policy for "
        ⧺ join ", " gate.unsatisfied
        ⧺ " with decision_context: "
        ⧺ text_of env context
        ⧺ ", product_version: "
        ⧺ text_of env product
        ⧺ ", subject_type: "
        ⧺ text_of env subject
        ⧺ " and test cases: "
        ⧺ join ", " gate.testcases))

abbrev pub conclude :
    Env → (greenwave_config : Dict Json) → Gate → (unsatisfied : List String) → Exec (Unit {0})
conclude env greenwave_config gate [] = pure tt
conclude env greenwave_config gate (bundle ∷ bundles) = report env greenwave_config gate

unfoldable pub gate_bundles :
    Env → (bundles : List String) → (greenwave_config : Dict Json) → Exec (Unit {0})
unfolding validate_greenwave_params_and_config gate_from
gate_bundles env bundles greenwave_config = do
  lift (validate_greenwave_params_and_config env.config)
  gate ← gate_from env greenwave_config (record { unsatisfied = []; testcases = [] }) bundles
  conclude env greenwave_config gate gate.unsatisfied
