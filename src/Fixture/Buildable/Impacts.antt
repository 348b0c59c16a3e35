-- ===== src/Fixture/Buildable/Impacts.antt =====
-- When `impact_gold` returns.
use litharness_contracts.Prelude.{
  String, ◌≡◌, refl, sym, ◌∙◌, ap, true, false, Option, none, some, all, Option-cases, inl, inr,
}
use litharness_contracts.Value.{Value}
use litharness_contracts.Contracts.Propagation.{change_op_kind, extracted_change_kind}
use litharness_contracts.Contracts.Goldens.{impact_label}
use litharness_contracts.Fixture.Spec.{OperationSpec, ChangeSpec, ExpectationSpec, ScenarioSpec}
use litharness_contracts.Fixture.Errors.{each}
use litharness_contracts.Fixture.Builder.{Digests, FixtureBuilder, get, is_some, resolve_target}
use litharness_contracts.Fixture.Parts.{enum_value}
use litharness_contracts.Fixture.Total.{SameKeys}
use litharness_contracts.Fixture.Contexts.{required}
use litharness_contracts.Fixture.Impacts.{
  version_of, replace_operation, anchor_operation, operation_by, operation_of, extracted_of,
  expectation_of, impact_case, impact_gold,
}
use litharness_contracts.Fixture.Buildable.{
  quotable, operation_by_ok, operation_ok, change_ok, expectation_ok, scenario_ok,
}
use litharness_contracts.Fixture.Buildable.Methods.{quoted-is_built}
use litharness_contracts.Fixture.Buildable.Parts.{
  is_built, is_built-then, is_built-last, enum_value-is_built, each-is_built,
  resolve_target-is_built,
}

module _ (dg : Digests) (b : FixtureBuilder) (same : SameKeys b.scene_text b.scene_version) where
  -- A scene of which a quote is counted has a version.
  version_of-is_built :
      (scene quote : String)
      → quotable b scene quote ≡ true
      → is_built (version_of dg b scene) ≡ true
  unfolding version_of required quotable
  version_of-is_built scene quote once = elim (Option-cases (get scene b.scene_version)) [
    | inr (v, e) ↦ rw e refl
    | inl lacks ↦ elim (Option-cases (get scene b.scene_text)) [
      | inl unknown ↦ let bad : false ≡ true = rw unknown at once in absurd (cc)
      | inr (text, e) ↦
          let bad : true ≡ false = sym (ap is_some e) ∙ (same scene ∙ ap is_some lacks) in
          absurd (cc)
    ]
  ]

  operation_by-is_built :
      (scenario : String) (op : OperationSpec) (kind : Value) (quote anchor : Option String)
      → is_built (operation_by dg b scenario op kind quote anchor)
        ≡ operation_by_ok b op.scene quote anchor
  unfolding operation_by replace_operation anchor_operation
  operation_by-is_built scenario op kind (some quote) anchor =
      quoted-is_built dg b same op.scene quote _
        λ s v once. is_built-last (version_of dg b s) _ ∙ version_of-is_built s quote once
  operation_by-is_built scenario op kind none (some anchor) =
      quoted-is_built dg b same op.scene anchor _
        λ s v once. is_built-last (version_of dg b s) _ ∙ version_of-is_built s anchor once
  operation_by-is_built scenario op kind none none = refl

  operation_of-is_built :
      (scenario : String) (op : OperationSpec)
      → is_built (operation_of dg b scenario op) ≡ operation_ok b op
  unfolding operation_of operation_ok
  operation_of-is_built scenario op =
      is_built-then (enum_value change_op_kind op.kind) _ _ _
        (enum_value-is_built change_op_kind op.kind)
        λ _ kind. operation_by-is_built scenario op kind op.quote op.anchor_quote

  extracted_of-is_built : (c : ChangeSpec) → is_built (extracted_of dg b c) ≡ change_ok b c
  unfolding extracted_of
  extracted_of-is_built c =
      is_built-last (enum_value extracted_change_kind c.kind) _
      ∙ enum_value-is_built extracted_change_kind c.kind

  expectation_of-is_built :
      (e : ExpectationSpec) → is_built (expectation_of dg b e) ≡ expectation_ok b e
  unfolding expectation_of expectation_ok
  expectation_of-is_built e =
      is_built-then (resolve_target b e.target) _ _ _ (resolve_target-is_built dg b same e.target)
        λ _ target.
          is_built-last (enum_value impact_label e.label) _
          ∙ enum_value-is_built impact_label e.label

  impact_case-is_built : (s : ScenarioSpec) → is_built (impact_case dg b s) ≡ scenario_ok b s
  unfolding impact_case scenario_ok
  impact_case-is_built s =
      is_built-then (each (operation_of dg b s.id) s.operations) _ _ _
        (each-is_built _ (operation_ok b) s.operations (operation_of-is_built s.id))
        λ _ operations.
          is_built-then (each (extracted_of dg b) s.extracted_changes) _ _ _
            (each-is_built _ (change_ok b) s.extracted_changes extracted_of-is_built)
            λ _ extracted.
              is_built-last (each (expectation_of dg b) s.expected) _
              ∙ each-is_built _ (expectation_ok b) s.expected expectation_of-is_built

  pub impact_gold-is_built : is_built (impact_gold dg b) ≡ all (scenario_ok b) b.spec.impact_gold
  unfolding impact_gold
  impact_gold-is_built =
      is_built-last (each (impact_case dg b) b.spec.impact_gold) _
      ∙ each-is_built _ (scenario_ok b) b.spec.impact_gold impact_case-is_built
