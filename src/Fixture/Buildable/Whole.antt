-- ===== src/Fixture/Buildable/Whole.antt =====
-- When a fixture is built.
use litharness_contracts.Prelude.{String, ◌≡◌, refl, sym, ◌∙◌, ◌↔◌, true, some, List, [], find}
use litharness_contracts.Json.{Json}
use litharness_contracts.Value.{Value}
use litharness_contracts.Types.{Ty}
use litharness_contracts.Runtime.{Runtime}
use litharness_contracts.Serde.Defaults.{fits-HasType}
use litharness_contracts.Contracts.Registry.{all_schema_types}
use litharness_contracts.Contracts.Artifacts.{round_trip}
use litharness_contracts.Contracts.Plans.{plan_snapshot}
use litharness_contracts.Contracts.State.{state_snapshot}
use litharness_contracts.Contracts.Evaluation.{evaluation_artifact}
use litharness_contracts.Contracts.Goldens.{gold_context_suite, gold_impact_suite}
use litharness_contracts.Fixture.Spec.{Spec}
use litharness_contracts.Fixture.Errors.{Built, built, failed, Yields, yields, raises}
use litharness_contracts.Fixture.Builder.{Digests, FixtureBuilder, make_builder}
use litharness_contracts.Fixture.Parts.{Fits}
use litharness_contracts.Fixture.Total.{made-SameKeys}
use litharness_contracts.Fixture.Manuscript.{manuscript}
use litharness_contracts.Fixture.Whole.{manuscript_built}
use litharness_contracts.Fixture.Plans.{plans, plans-Fits}
use litharness_contracts.Fixture.States.{state, state-Fits}
use litharness_contracts.Fixture.Findings.{findings, findings-Fits}
use litharness_contracts.Fixture.Contexts.{context_gold, context_gold-Fits}
use litharness_contracts.Fixture.Impacts.{impact_gold}
use litharness_contracts.Fixture.Impacts.Typed.{impact_gold-Fits}
use litharness_contracts.Fixture.Build.{build, payload_of}
use litharness_contracts.Fixture.Buildable.{buildable}
use litharness_contracts.Fixture.Buildable.Parts.{is_built, is_built-then, is_built-last}
use litharness_contracts.Fixture.Buildable.Methods.{
  plans-is_built, state-is_built, findings-is_built, context_gold-is_built,
}
use litharness_contracts.Fixture.Buildable.Impacts.{impact_gold-is_built}

-- An artifact of a registered type is written.
payload_of-is_built :
    (rt : Runtime) (n : String) (t : Ty) (r : Built Value)
    → find n all_schema_types ≡ some t
    → Yields (Fits t) r
    → is_built (payload_of r) ≡ is_built r
unfolding payload_of
payload_of-is_built rt n t r registered (yields {a} h) =
    let (x, e, _) = round_trip rt n t a [] registered (fits-HasType t a h) in rw e refl
payload_of-is_built rt n t r registered raises = refl

manuscript-payload :
    (rt : Runtime) (dg : Digests) (spec : Spec) (b : FixtureBuilder)
    → make_builder dg spec ≡ built b
    → is_built (payload_of (manuscript dg b)) ≡ true
unfolding payload_of
manuscript-payload rt dg spec b made =
    let (v, e, _, (x, w, _)) = manuscript_built rt dg spec b made in rw (e, w) refl

build-is_built :
    (rt : Runtime) (dg : Digests) (spec : Spec) (b : FixtureBuilder)
    → make_builder dg spec ≡ built b
    → is_built (build dg b) ≡ buildable b
unfolding build buildable find
build-is_built rt dg spec b made =
    let same = made-SameKeys dg spec b made in
    is_built-then (payload_of (manuscript dg b)) _ true _ (manuscript-payload rt dg spec b made)
      λ _ m.
        is_built-then (payload_of (plans dg b)) _ _ _
          (payload_of-is_built rt "plan_snapshot" plan_snapshot (plans dg b) refl (plans-Fits dg b)
            ∙ plans-is_built dg b same)
          λ _ p.
            is_built-then (payload_of (state dg b)) _ _ _
              (payload_of-is_built rt "state_snapshot" state_snapshot (state dg b) refl
                  (state-Fits dg b)
                ∙ state-is_built dg b same)
              λ _ s.
                is_built-then (payload_of (findings dg b)) _ _ _
                  (payload_of-is_built rt "evaluation_artifact" evaluation_artifact (findings dg b)
                      refl (findings-Fits dg b)
                    ∙ findings-is_built dg b same)
                  λ _ f.
                    is_built-then (payload_of (context_gold dg b)) _ _ _
                      (payload_of-is_built rt "gold_context_suite" gold_context_suite
                          (context_gold dg b) refl (context_gold-Fits dg b)
                        ∙ context_gold-is_built dg b same)
                      λ _ c.
                        is_built-last (payload_of (impact_gold dg b)) _
                        ∙ (payload_of-is_built rt "gold_impact_suite" gold_impact_suite
                              (impact_gold dg b) refl (impact_gold-Fits dg b)
                            ∙ impact_gold-is_built dg b same)

is_built_iff : {A : Type 0} (r : Built A) → (is_built r ≡ true) ↔ ((a : A) × (r ≡ built a))
is_built_iff (built a) = (λ h. (a, refl), λ h. refl)
is_built_iff (failed e) = (λ h. absurd (cc), λ h. absurd (cc))

-- The files of a made builder are built exactly where, in the plans, the state records, the findings
-- and the gold cases, every enum value is one of its class, every quote is counted once in the text
-- of a known scene, and every target id is that of a resource of the fixture.
pub build_iff :
    (rt : Runtime) (dg : Digests) (spec : Spec) (b : FixtureBuilder)
    → make_builder dg spec ≡ built b
    → ((files : List (String × Json)) × (build dg b ≡ built files)) ↔ (buildable b ≡ true)
build_iff rt dg spec b made =
    let same = build-is_built rt dg spec b made in
    let returns = is_built_iff (build dg b) in
    (λ h. sym same ∙ returns.1 h, λ h. returns.0 (same ∙ h))
