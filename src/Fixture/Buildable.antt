-- ===== src/Fixture/Buildable.antt =====
-- Which specifications can be built: what every method of the builder needs of its part of def.json.
pub mod Parts
pub mod Methods
pub mod Impacts
pub mod Whole
use litharness_contracts.Prelude.{
  String, Bool, true, false, ◌&&◌, ◌||◌, ◌==◌, Option, none, some, List, all, str_eq, contains,
  if◌then◌else◌,
}
use litharness_contracts.Types.{has_value}
use litharness_contracts.Contracts.Plans.{plan_kind, plan_authority}
use litharness_contracts.Contracts.State.{state_record_kind, state_authority}
use litharness_contracts.Contracts.Evaluation.{finding_category, finding_status, severity}
use litharness_contracts.Contracts.Context.{context_operation}
use litharness_contracts.Contracts.Propagation.{change_op_kind, extracted_change_kind}
use litharness_contracts.Contracts.Goldens.{impact_label}
use litharness_contracts.Fixture.Text.{count, is_prefix}
use litharness_contracts.Fixture.Spec.{
  Citation, PlanSpec, StateSpec, FindingSpec, TargetSpec, QuerySpec, OperationSpec, ChangeSpec,
  ExpectationSpec, ScenarioSpec,
}
use litharness_contracts.Fixture.Builder.{FixtureBuilder, get, is_some, record_kind_to_resource}

-- the kind of a record has a resource kind
unfoldable pub has_resource : Option String → Bool
has_resource none = false
has_resource (some kind) = is_some (record_kind_to_resource kind)

abbrev pub counted_once : String → Option String → Bool
counted_once quote none = false
counted_once quote (some text) = count text quote == 1

module _ (b : FixtureBuilder) where
  -- The quote is counted once in the text of the scene.
  unfoldable pub quotable : String → String → Bool
  unfolding get
  quotable scene_id quote = counted_once quote (get scene_id b.scene_text)

  abbrev pub citable : Citation → Bool
  citable c = quotable c.scene c.quote

  -- The id is the book's, or that of a scene, of a record whose kind is a resource, or of another
  -- resource of the fixture.
  unfoldable pub resolvable : String → Bool
  unfolding get has_resource is_prefix
  resolvable id =
      if str_eq id "book" || is_some (get id b.scene_text)
      then true
      else if is_some (get id b.record_kinds)
      then has_resource (get id b.record_kinds)
      else contains id b.plan_ids
        || (contains id b.finding_ids
            || (contains id b.derived || (contains id b.query_ids || is_prefix "entity:" id)))

  abbrev pub plan_ok : PlanSpec → Bool
  plan_ok p = has_value plan_kind p.kind && has_value plan_authority p.authority

  unfoldable pub state_ok : StateSpec → Bool
  unfolding quotable
  state_ok r =
      has_value state_record_kind r.kind
      && (has_value state_authority r.authority && all citable r.evidence)

  unfoldable pub finding_ok : FindingSpec → Bool
  unfolding quotable resolvable
  finding_ok f =
      has_value finding_category f.category
      && (has_value finding_status f.status
          && (has_value severity f.severity
              && (citable f.primary
                  && (all citable f.supporting && all resolvable f.dependencies))))

  -- a quote in a scene that may be missing
  abbrev pub quotable_in : Option String → String → Bool
  quotable_in none quote = false
  quotable_in (some scene_id) quote = quotable scene_id quote

  abbrev pub target_by_ok : Option String → Option String → Option String → Option String → Bool
  target_by_ok scene (some quote) id plan = quotable_in scene quote
  target_by_ok scene none (some id) plan = resolvable id
  target_by_ok scene none none (some plan) = resolvable plan
  target_by_ok scene none none none = false

  unfoldable pub target_ok : TargetSpec → Bool
  unfolding quotable resolvable
  target_ok t = target_by_ok t.scene t.quote t.state_record t.plan

  unfoldable pub case_ok : QuerySpec → Bool
  unfolding target_ok resolvable
  case_ok q =
      (has_value context_operation q.operation && resolvable q.target)
      && (all target_ok q.mandatory && all target_ok q.forbidden)

  abbrev pub operation_by_ok : Option String → Option String → Option String → Bool
  operation_by_ok scene (some quote) anchor = quotable_in scene quote
  operation_by_ok scene none (some anchor) = quotable_in scene anchor
  operation_by_ok scene none none = true

  unfoldable pub operation_ok : OperationSpec → Bool
  unfolding quotable
  operation_ok op =
      has_value change_op_kind op.kind && operation_by_ok op.scene op.quote op.anchor_quote

  abbrev pub change_ok : ChangeSpec → Bool
  change_ok c = has_value extracted_change_kind c.kind

  unfoldable pub expectation_ok : ExpectationSpec → Bool
  unfolding resolvable
  expectation_ok e = resolvable e.target && has_value impact_label e.label

  unfoldable pub scenario_ok : ScenarioSpec → Bool
  unfolding operation_ok expectation_ok
  scenario_ok s =
      all operation_ok s.operations
      && (all change_ok s.extracted_changes && all expectation_ok s.expected)

  -- Everything in def.json can be built.
  unfoldable pub buildable : Bool
  unfolding state_ok finding_ok case_ok scenario_ok
  buildable =
      all plan_ok b.spec.plans
      && (all state_ok b.spec.state_records
          && (all finding_ok b.spec.gold_findings
              && (all case_ok b.spec.context_gold && all scenario_ok b.spec.impact_gold)))
