-- ===== src/Workers/Gating/Satisfied.antt =====
-- When the gate of iib/workers/greenwave.py lets the bundles of a request through.
use iib.Common.{String, List, [], ◌∷◌, ◌≡◌, refl, ap, subst}
use iib.Common.Dict.{Dict}
use iib.Exn.{ok}
use iib.Json.{Json, obj}
use iib.Workers.Values.{subscript, to_fields}
use iib.Workers.Exec.{Env, World, lift}
use iib.Workers.Exec.Ends.{>>=-ok, lift-ok}
use iib.Workers.Exec.Returns.{Returns, Returns-bind}
use iib.Workers.Gating.{
  Gate, gate_bundle, gate_from, gate_bundles, conclude, report,
  validate_greenwave_params_and_config,
}
use iib.Workers.Gating.Round.{IsPassed, gate_bundle-IsRound}

module _ (env : Env) (config : Dict Json) where
  -- One bundle after the other is passed, each in the state that the one before has led to.
  pub data ArePassed : (bundles : List String) (w w' : World) → Type 0 where
    no_more : (w : World) → ArePassed [] w w
    next_passed :
        (bundle : String) (bundles : List String) (w w1 w' : World)
        → IsPassed env config bundle w w1
        → ArePassed bundles w1 w'
        → ArePassed (bundle ∷ bundles) w w'

  record IsPassing (gate : Gate) (bundles : List String) (w : World) (last : Gate) (w' : World)
      : Type 0 where
    pub passes : last.unsatisfied ≡ [] → ArePassed bundles w w'
    pub before : last.unsatisfied ≡ [] → gate.unsatisfied ≡ []

  gate_from-IsPassing :
      (bundles : List String) (gate : Gate) (w : World) (last : Gate) (w' : World)
      → gate_from env config gate bundles w ≡ (ok last, w')
      → IsPassing gate bundles w last w'
  unfolding gate_from
  gate_from-IsPassing [] gate w last w' h =
      let same : gate ≡ last = cc in
      let there : w ≡ w' = ap (λ p. p.1) h in
      record { passes = λ e. subst (ArePassed [] w) there (no_more w); before = λ e. rw same e }
  gate_from-IsPassing (bundle ∷ bundles) gate w last w' h =
      let (next, w1, one, others) = >>=-ok (gate_bundle env config gate bundle) _ w h in
      let round = gate_bundle-IsRound env gate bundle config w next w1 one in
      let rest = gate_from-IsPassing bundles next w1 last w' others in
      record {
        passes =
            λ e. next_passed bundle bundles w w1 w' (round.passes (rest.before e)) (rest.passes e);
        before = λ e. round.before (rest.before e);
      }

  report-raises : (gate : Gate) → Returns (λ nothing. ⊥) (report env config gate)
  report-raises gate =
      Returns-bind (lift (subscript "decision_context" (obj (to_fields config)))) _
        (λ w0 context h0.
          Returns-bind (lift (subscript "product_version" (obj (to_fields config)))) _
            (λ w1 product h1.
              Returns-bind (lift (subscript "subject_type" (obj (to_fields config)))) _
                (λ w2 subject h2. record { at = λ w a h. cc })))

  concluded :
      (gate : Gate) (unsatisfied : List String) (w w' : World)
      → conclude env config gate unsatisfied w ≡ (ok tt, w')
      → (unsatisfied ≡ []) × (w ≡ w')
  concluded gate [] w w' h = (refl, ap (λ p. p.1) h)
  concluded gate (bundle ∷ bundles) w w' h = absurd ((report-raises gate).at w tt (ap (λ p. p.0) h))

  -- Where the gate lets the bundles of a request through, it has asked Greenwave about each of them
  -- in turn, by the Koji build that the labels of that bundle name, and Greenwave's answer to that
  -- question was that the policies are satisfied. The run consists of nothing else.
  pub gate_bundles-ArePassed :
      (bundles : List String) (w w' : World)
      → gate_bundles env bundles config w ≡ (ok tt, w')
      → ArePassed bundles w w'
  unfolding gate_bundles
  gate_bundles-ArePassed bundles w w' h =
      let (valid, w1, v, h1) =
        >>=-ok (lift (validate_greenwave_params_and_config env.config)) _ w h in
      let (gate, w2, g, h2) =
        >>=-ok (gate_from env config (record { unsatisfied = []; testcases = [] }) bundles) _ w1
          h1 in
      let (none_left, there) = concluded gate gate.unsatisfied w2 w' h2 in
      let passed =
        (gate_from-IsPassing bundles (record { unsatisfied = []; testcases = [] }) w1 gate w2
            g).passes
          none_left in
      subst (ArePassed bundles w) there
        (subst (λ v. ArePassed bundles v w2) (lift-ok _ w v).1 passed)
