-- ===== src/Workers/Gating/Round.antt =====
-- What one round of the loop over the bundles finds out.
use iib.Common.{
  String, Bool, true, false, List, [], ◌∷◌, ◌++◌, ◌≡◌, ◌≢◌, refl, ◌∙◌, ap, sym, subst,
  if◌then◌else◌,
}
use iib.Common.Dict.{Dict, put}
use iib.Common.Find.{rstrip}
use iib.Common.Text.{◌⧺◌}
use iib.Exn.{
  Result, ok, err, key_error, validation_error, iib_error, forbidden, not_found, gone, type_error,
  attribute_error, value_error, of_worker,
}
use iib.Workers.Api.{text_of}
use iib.Json.{Json, null, str, obj, truthy}
use iib.Workers.Values.{subscript, dot_get, to_fields}
use iib.Workers.Exec.{Env, World, Event, HttpResponse, posted, lift, continue}
use iib.Workers.Exec.Ends.{>>=-ok, lift-ok}
use iib.Workers.Gating.{
  Gate, gate_bundle, get_koji_build_nvr, decide, missing_key, or_object, check_response, logged,
  requirements, url_text,
}

-- The request that asks Greenwave about a Koji build, by the configuration of the request.
abbrev pub question : Env → (config : Dict Json) → (koji_build_nvr : String) → Event
question env config koji_build_nvr =
    posted (rstrip b'/' (url_text env.config.iib_greenwave_url) ⧺ "/decision")
      (obj (to_fields (put "subject_identifier" (str koji_build_nvr) config)))

-- The response says that the policies are satisfied.
pub record IsSatisfied (resp : HttpResponse) : Type 0 where
  pub is_ok : resp.is_ok ≡ true
  pub satisfied : Json
  pub answer : subscript "policies_satisfied" (or_object resp.json) ≡ ok satisfied
  pub is_true : truthy satisfied ≡ true

-- From the state `w` the labels of this bundle are read, Greenwave is asked about the Koji build
-- that they name, which leads to the state `w'`, and it answers that the policies are satisfied.
pub record IsPassed (env : Env) (config : Dict Json) (bundle : String) (w w' : World) : Type 0 where
  pub koji_build_nvr : String
  pub labelled : World
  pub names : get_koji_build_nvr env bundle w ≡ (ok koji_build_nvr, labelled)
  pub asks : w' ≡ record labelled { events = question env config koji_build_nvr ∷ labelled.events }
  pub passes : IsSatisfied (env.http w'.events)

-- What a response adds to what was found before: the bundles that were found unsatisfied all stay,
-- and one that is not satisfied is added to them.
record IsAdded (gate next : Gate) (resp : HttpResponse) : Type 0 where
  pub passes : next.unsatisfied ≡ [] → IsSatisfied resp
  pub before : next.unsatisfied ≡ [] → gate.unsatisfied ≡ []

-- The same of a round of the loop.
pub record IsRound (env : Env) (config : Dict Json) (gate : Gate) (bundle : String) (w : World)
    (next : Gate) (w' : World) : Type 0 where
  pub passes : next.unsatisfied ≡ [] → IsPassed env config bundle w w'
  pub before : next.unsatisfied ≡ [] → gate.unsatisfied ≡ []

++-[] : (xs : List String) (x : String) → xs ++ x ∷ [] ≢ []
++-[] [] x h = cc
++-[] (y ∷ xs) x h = cc

missing_key-ok :
    (bundle : String) (r : Result Gate) (next : Gate) → missing_key bundle r ≡ ok next → r ≡ ok next
missing_key-ok bundle (ok gate) next h = h
missing_key-ok bundle (err key_error) next h = cc
missing_key-ok bundle (err (validation_error x)) next h = cc
missing_key-ok bundle (err (iib_error x)) next h = cc
missing_key-ok bundle (err (forbidden x)) next h = cc
missing_key-ok bundle (err not_found) next h = cc
missing_key-ok bundle (err gone) next h = cc
missing_key-ok bundle (err type_error) next h = cc
missing_key-ok bundle (err attribute_error) next h = cc
missing_key-ok bundle (err value_error) next h = cc
missing_key-ok bundle (err (of_worker x)) next h = cc

logged-ok :
    (payload : Json) (w : World) {done : Unit {0}} {w' : World}
    → logged payload w ≡ (ok done, w')
    → w' ≡ w
logged-ok payload w h =
    let (context, w1, c, h1) = >>=-ok (lift (subscript "decision_context" payload)) _ w h in
    let (product, w2, p, h2) = >>=-ok (lift (subscript "product_version" payload)) _ w1 h1 in
    let (subject, w3, s, h3) = >>=-ok (lift (subscript "subject_type" payload)) _ w2 h2 in
    sym (ap (λ q. q.1) h3) ∙ (lift-ok _ w2 s).1 ∙ (lift-ok _ w1 p).1 ∙ (lift-ok _ w c).1

module _ (env : Env) (gate : Gate) (bundle : String) where
  refused-err :
      (resp : HttpResponse) (r : Result Json)
      → Path
          (Result (Unit {0}))
          (elim r [
            | err e ↦ err e
            | ok message ↦ err (
                iib_error (
                  "Gating check failed for "
                  ⧺ bundle
                  ⧺ ": "
                  ⧺ (if truthy message then text_of env message else resp.text)))
          ])
          (ok tt)
      → ⊥
  refused-err resp (err e) h = cc
  refused-err resp (ok message) h = cc

  chosen-ok :
      (b : Bool) (r : Result (Unit {0}))
      → (if b then ok tt else r) ≡ ok tt
      → (r ≡ ok tt → ⊥)
      → b ≡ true
  chosen-ok true r h k = refl
  chosen-ok false r h k = absurd (k h)

  check-ok : (resp : HttpResponse) → check_response env bundle resp ≡ ok tt → resp.is_ok ≡ true
  check-ok resp h =
      chosen-ok resp.is_ok _ h (refused-err resp (dot_get "message" null (or_object resp.json)))

  -- What a decision adds, by what the key says and by what is read of the requirements.
  added :
      (resp : HttpResponse) (next : Gate) (v : Json) (is_true : Bool) (ts : Result (List String))
      → resp.is_ok ≡ true
      → subscript "policies_satisfied" (or_object resp.json) ≡ ok v
      → truthy v ≡ is_true
      → Path
          (Result Gate)
          (if is_true then ok gate else elim ts [
            | err e ↦ err e
            | ok testcases ↦
                ok (record { unsatisfied = gate.unsatisfied ++ bundle ∷ []; testcases = testcases })
          ])
          (ok next)
      → IsAdded gate next resp
  added resp next v true ts o q t h =
      let same : gate ≡ next = cc in
      record {
        passes = λ e. record { is_ok = o; satisfied = v; answer = q; is_true = t };
        before = λ e. rw same e;
      }
  added resp next v false (err e) o q t h = cc
  added resp next v false (ok testcases) o q t h =
      let same : gate.unsatisfied ++ bundle ∷ [] ≡ next.unsatisfied = cc in
      record {
        passes = λ e. absurd (++-[] gate.unsatisfied bundle (same ∙ e));
        before = λ e. absurd (++-[] gate.unsatisfied bundle (same ∙ e));
      }

  decided :
      (resp : HttpResponse) (next : Gate) (r : Result Json)
      → resp.is_ok ≡ true
      → subscript "policies_satisfied" (or_object resp.json) ≡ r
      → Path
          (Result Gate)
          (elim r [
            | err e ↦ err e
            | ok satisfied ↦
                if truthy satisfied
                then ok gate
                else elim (requirements env (or_object resp.json)) [
                  | err e ↦ err e
                  | ok testcases ↦ ok (record {
                    unsatisfied = gate.unsatisfied ++ bundle ∷ [];
                    testcases = testcases;
                  })
                ]
          ])
          (ok next)
      → IsAdded gate next resp
  decided resp next (err e) o q h = cc
  decided resp next (ok v) o q h = added resp next v (truthy v) _ o q refl h

  decide-IsAdded :
      (resp : HttpResponse) (next : Gate)
      → check_response env bundle resp ≡ ok tt
      → missing_key bundle (decide env bundle gate (or_object resp.json)) ≡ ok next
      → IsAdded gate next resp
  unfolding decide
  decide-IsAdded resp next c h =
      decided resp next (subscript "policies_satisfied" (or_object resp.json)) (check-ok resp c)
        refl (missing_key-ok bundle _ next h)

  -- From a reading of the labels on, a round that returns has asked and been answered.
  answered :
      (config : Dict Json) (w labelled w' : World) (nvr : String) (next : Gate)
      → get_koji_build_nvr env bundle w ≡ (ok nvr, labelled)
      → w' ≡ record labelled { events = question env config nvr ∷ labelled.events }
      → IsAdded gate next (env.http w'.events)
      → IsRound env config gate bundle w next w'
  answered config w labelled w' nvr next n a k = record {
    passes = λ e. record {
      koji_build_nvr = nvr;
      labelled = labelled;
      names = n;
      asks = a;
      passes = k.passes e;
    };
    before = k.before;
  }

  -- The rest of a round, once the question has led to the state `v`.
  asked :
      (v : World) (next : Gate) (w' : World) (r : Result (Unit {0}))
      → check_response env bundle (env.http v.events) ≡ r
      → continue r
          (λ nothing.
            lift (missing_key bundle (decide env bundle gate (or_object (env.http v.events).json))))
          v
        ≡ (ok next, w')
      → (v ≡ w') × IsAdded gate next (env.http v.events)
  asked v next w' (err e) c h = cc
  asked v next w' (ok nothing) c h =
      (ap (λ p. p.1) h, decide-IsAdded (env.http v.events) next c (ap (λ p. p.0) h))

  assembled :
      (config : Dict Json) (w labelled w1 w' : World) (nvr : String) (next : Gate)
      → get_koji_build_nvr env bundle w ≡ (ok nvr, labelled)
      → w1 ≡ labelled
      → (let v : World = record w1 { events = question env config nvr ∷ w1.events } in
          (v ≡ w') × IsAdded gate next (env.http v.events))
      → IsRound env config gate bundle w next w'
  assembled config w labelled w1 w' nvr next n l (there, k) =
      let turn : World → World = λ u. record u { events = question env config nvr ∷ u.events } in
      answered config w labelled w' nvr next n (sym there ∙ ap turn l)
        (subst (λ u. IsAdded gate next (env.http u.events)) there k)

  pub gate_bundle-IsRound :
      (config : Dict Json) (w : World) (next : Gate) (w' : World)
      → gate_bundle env config gate bundle w ≡ (ok next, w')
      → IsRound env config gate bundle w next w'
  unfolding gate_bundle
  gate_bundle-IsRound config w next w' h =
      let (nvr, labelled, n, h1) = >>=-ok (get_koji_build_nvr env bundle) _ w h in
      let (done, w1, l, h2) =
        >>=-ok (logged (obj (to_fields (put "subject_identifier" (str nvr) config)))) _ labelled
          h1 in
      assembled config w labelled w1 w' nvr next n (logged-ok _ labelled l)
        (asked (record w1 { events = question env config nvr ∷ w1.events }) next w' _ refl h2)
