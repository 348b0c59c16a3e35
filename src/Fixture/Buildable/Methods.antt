-- ===== src/Fixture/Buildable/Methods.antt =====
-- When the methods of the builder return.
use litharness_contracts.Prelude.{
  String, ◌≡◌, refl, ◌∙◌, Bool, true, false, ◌&&◌, Option, none, some, all,
}
use litharness_contracts.Value.{Value}
use litharness_contracts.Types.{has_value}
use litharness_contracts.Contracts.Plans.{plan_kind, plan_authority}
use litharness_contracts.Contracts.State.{state_record_kind, state_authority}
use litharness_contracts.Contracts.Evaluation.{finding_category, finding_status, severity}
use litharness_contracts.Contracts.Context.{context_operation}
use litharness_contracts.Fixture.Spec.{PlanSpec, StateSpec, FindingSpec, TargetSpec, QuerySpec}
use litharness_contracts.Fixture.Errors.{Built, each, ◌>>=◌}
use litharness_contracts.Fixture.Builder.{Digests, FixtureBuilder, resolve_target}
use litharness_contracts.Fixture.Spans.{span}
use litharness_contracts.Fixture.Parts.{enum_value, spans}
use litharness_contracts.Fixture.Total.{SameKeys}
use litharness_contracts.Fixture.Plans.{plans, plan_item_of}
use litharness_contracts.Fixture.States.{state, state_record_of}
use litharness_contracts.Fixture.Findings.{findings, finding_of}
use litharness_contracts.Fixture.Contexts.{
  required, quoted_target, resolved_target, target_by, context_target, query_of, context_case,
  context_gold,
}
use litharness_contracts.Fixture.Buildable.{
  quotable, resolvable, plan_ok, state_ok, finding_ok, quotable_in, target_by_ok, target_ok,
  case_ok,
}
use litharness_contracts.Fixture.Buildable.Parts.{
  is_built, is_built-then, is_built-last, enum_value-is_built, each-is_built, span-is_built,
  spans-is_built, resolve_target-is_built,
}

and_true : (p : Bool) → (p && true) ≡ p
and_true true = refl
and_true false = refl

plan_item_of-is_built :
    (b : FixtureBuilder) (p : PlanSpec) → is_built (plan_item_of p) ≡ plan_ok b p
unfolding plan_item_of
plan_item_of-is_built b p =
    is_built-then (enum_value plan_kind p.kind) _ (has_value plan_kind p.kind)
      (has_value plan_authority p.authority) (enum_value-is_built plan_kind p.kind)
      λ _ kind.
        is_built-last (enum_value plan_authority p.authority) _
        ∙ enum_value-is_built plan_authority p.authority

module _ (dg : Digests) (b : FixtureBuilder) (same : SameKeys b.scene_text b.scene_version) where
  pub plans-is_built : is_built (plans dg b) ≡ all (plan_ok b) b.spec.plans
  unfolding plans
  plans-is_built =
      is_built-last (each plan_item_of b.spec.plans) _
      ∙ each-is_built plan_item_of (plan_ok b) b.spec.plans (plan_item_of-is_built b)

  state_record_of-is_built : (r : StateSpec) → is_built (state_record_of dg b r) ≡ state_ok b r
  unfolding state_record_of state_ok
  state_record_of-is_built r =
      is_built-then (enum_value state_record_kind r.kind) _ _ _
        (enum_value-is_built state_record_kind r.kind)
        λ _ kind.
          is_built-then (enum_value state_authority r.authority) _ _ _
            (enum_value-is_built state_authority r.authority)
            λ _ authority.
              is_built-last (spans dg b r.evidence) _ ∙ spans-is_built dg b same r.evidence

  pub state-is_built : is_built (state dg b) ≡ all (state_ok b) b.spec.state_records
  unfolding state
  state-is_built =
      is_built-last (each (state_record_of dg b) b.spec.state_records) _
      ∙ each-is_built _ (state_ok b) b.spec.state_records state_record_of-is_built

  finding_of-is_built : (f : FindingSpec) → is_built (finding_of dg b f) ≡ finding_ok b f
  unfolding finding_of finding_ok
  finding_of-is_built f =
      is_built-then (enum_value finding_category f.category) _ _ _
        (enum_value-is_built finding_category f.category)
        λ _ category.
          is_built-then (enum_value finding_status f.status) _ _ _
            (enum_value-is_built finding_status f.status)
            λ _ status.
              is_built-then (enum_value severity f.severity) _ _ _
                (enum_value-is_built severity f.severity)
                λ _ level.
                  is_built-then (span dg b f.primary.scene f.primary.quote) _ _ _
                    (span-is_built dg b same f.primary.scene f.primary.quote)
                    λ _ primary.
                      is_built-then (spans dg b f.supporting) _ _ _
                        (spans-is_built dg b same f.supporting)
                        λ _ supporting.
                          is_built-last (each (resolve_target b) f.dependencies) _
                          ∙ each-is_built (resolve_target b) (resolvable b) f.dependencies
                              (resolve_target-is_built dg b same)

  pub findings-is_built : is_built (findings dg b) ≡ all (finding_ok b) b.spec.gold_findings
  unfolding findings
  findings-is_built =
      is_built-last (each (finding_of dg b) b.spec.gold_findings) _
      ∙ each-is_built _ (finding_ok b) b.spec.gold_findings finding_of-is_built

  pub quoted-is_built :
      {T : Type 0} (scene : Option String) (quote : String) (next : String → Value → Built T)
      → ((s : String) (v : Value) → quotable b s quote ≡ true → is_built (next s v) ≡ true)
      → is_built (required "scene" scene >>= λ s. span dg b s quote >>= λ v. next s v)
        ≡ quotable_in b scene quote
  unfolding required
  quoted-is_built none quote next h = refl
  quoted-is_built (some s) quote next h =
      is_built-then (span dg b s quote) _ (quotable b s quote) true
        (span-is_built dg b same s quote) (λ once v. h s v once)
      ∙ and_true (quotable b s quote)

  resolved_target-is_built :
      (t : TargetSpec) (id : String) → is_built (resolved_target dg b t id) ≡ resolvable b id
  unfolding resolved_target
  resolved_target-is_built t id =
      is_built-last (resolve_target b id) _ ∙ resolve_target-is_built dg b same id

  target_by-is_built :
      (t : TargetSpec) (quote id plan : Option String)
      → is_built (target_by dg b t quote id plan) ≡ target_by_ok b t.scene quote id plan
  unfolding target_by quoted_target
  target_by-is_built t (some quote) id plan = quoted-is_built t.scene quote _ (λ s v once. refl)
  target_by-is_built t none (some id) plan = resolved_target-is_built t id
  target_by-is_built t none none (some plan) = resolved_target-is_built t plan
  target_by-is_built t none none none = refl

  context_target-is_built : (t : TargetSpec) → is_built (context_target dg b t) ≡ target_ok b t
  unfolding context_target target_ok
  context_target-is_built t = target_by-is_built t t.quote t.state_record t.plan

  query_of-is_built :
      (q : QuerySpec)
      → is_built (query_of dg b q)
        ≡ (has_value context_operation q.operation && resolvable b q.target)
  unfolding query_of
  query_of-is_built q =
      is_built-then (enum_value context_operation q.operation) _ _ _
        (enum_value-is_built context_operation q.operation)
        λ _ operation.
          is_built-last (resolve_target b q.target) _ ∙ resolve_target-is_built dg b same q.target

  context_case-is_built : (q : QuerySpec) → is_built (context_case dg b q) ≡ case_ok b q
  unfolding context_case case_ok
  context_case-is_built q = is_built-then (query_of dg b q) _ _ _ (query_of-is_built q) λ _ query.
      is_built-then (each (context_target dg b) q.mandatory) _ _ _
        (each-is_built _ (target_ok b) q.mandatory context_target-is_built)
        λ _ mandatory.
          is_built-last (each (context_target dg b) q.forbidden) _
          ∙ each-is_built _ (target_ok b) q.forbidden context_target-is_built

  pub context_gold-is_built : is_built (context_gold dg b) ≡ all (case_ok b) b.spec.context_gold
  unfolding context_gold
  context_gold-is_built =
      is_built-last (each (context_case dg b) b.spec.context_gold) _
      ∙ each-is_built _ (case_ok b) b.spec.context_gold context_case-is_built
