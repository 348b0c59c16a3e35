-- ===== src/Fixture/Plans.antt =====
-- `FixtureBuilder.plans`.
use litharness_contracts.Prelude.{[], ◌∷◌}
use litharness_contracts.Value.{Value, Values, nothing, instance_of}
use litharness_contracts.Serde.Defaults.{fits}
use litharness_contracts.Contracts.Plans.{plan_kind, plan_authority, plan_item, plan_snapshot}
use litharness_contracts.Fixture.Spec.{PlanSpec}
use litharness_contracts.Fixture.Errors.{Built, built, each, ◌>>=◌, Yields, yields, Yields-bind}
use litharness_contracts.Fixture.Builder.{Digests, FixtureBuilder, make_ref}
use litharness_contracts.Fixture.Manuscript.{attributes, make_meta}
use litharness_contracts.Fixture.Parts.{enum_value, flag, Fits, enum_value-Fits, each-AllFit}

unfoldable pub plan_item_of : PlanSpec → Built Value
unfolding enum_value
plan_item_of p = do
  kind ← enum_value plan_kind p.kind
  authority ← enum_value plan_authority p.authority
  built (
      instance_of "PlanItem" (
        attributes (
          ("logical_id", Value.str p.id)
          ∷ ("kind", kind)
          ∷ ("text", Value.str p.text)
          ∷ ("authority", authority)
          ∷ ("locked", Value.bool (flag p.locked))
          ∷ ("scope", nothing)
          ∷ ("links", Value.list Values.nil)
          ∷ [])))

module _ (dg : Digests) (b : FixtureBuilder) where
  unfoldable pub plans : Built Value
  unfolding plan_item_of each make_meta
  plans = do
    items ← each plan_item_of b.spec.plans
    built (
        instance_of "PlanSnapshot" (
          attributes (
            ("meta", make_meta dg b "plan_snapshot" "r1")
            ∷ ("book_id", Value.str b.book_id)
            ∷ ("branch_id", Value.str b.branch_id)
            ∷ ("revision_id", Value.str b.revision_id)
            ∷ ("items", Value.list items)
            ∷ [])))

plan_item_of-Fits : (p : PlanSpec) → Yields (Fits plan_item) (plan_item_of p)
unfolding plan_item_of fits
plan_item_of-Fits p = Yields-bind (enum_value-Fits plan_kind p.kind) λ kind hk.
    Yields-bind (enum_value-Fits plan_authority p.authority) λ authority ha. yields (rw (hk, ha))

pub plans-Fits : (dg : Digests) (b : FixtureBuilder) → Yields (Fits plan_snapshot) (plans dg b)
unfolding plans fits make_meta make_ref
plans-Fits dg b =
    Yields-bind (each-AllFit plan_item_of plan_item b.spec.plans plan_item_of-Fits)
      λ items h. yields (rw h)
