-- ===== src/Fixture/Impacts.antt =====
-- `FixtureBuilder.impact_gold`.
pub mod Typed
use Prim.Native.String.{◌++◌ as append}
use litharness_contracts.Prelude.{◌≡◌, refl, String, Option, none, some, List, [], ◌∷◌, or_true}
use litharness_contracts.Value.{
  Value, Values, Attrs, nothing, member, instance_of, of_entries, get_attr,
}
use litharness_contracts.Types.{optional}
use litharness_contracts.Serde.Plain.{is_plain}
use litharness_contracts.Serde.Defaults.{fits, all_values, all_attrs}
use litharness_contracts.Contracts.Propagation.{
  change_op_kind, change_operation, extracted_change_kind, extracted_change, change_set,
}
use litharness_contracts.Contracts.Goldens.{
  impact_label, gold_impact_expectation, gold_impact_case, gold_impact_suite,
}
use litharness_contracts.Fixture.Spec.{OperationSpec, ChangeSpec, ExpectationSpec, ScenarioSpec}
use litharness_contracts.Fixture.Errors.{
  Built, built, each, ◌>>=◌, Yields, yields, raises, Yields-bind, Yields-of,
}
use litharness_contracts.Fixture.Builder.{
  Digests, FixtureBuilder, det_id, get, make_ref, resolve_target, version_value,
}
use litharness_contracts.Fixture.Spans.{span, make_span, span_resolves}
use litharness_contracts.Fixture.Manuscript.{attributes, make_meta}
use litharness_contracts.Fixture.Parts.{
  enum_value, text_or_none, data_or_none, one, Fits, enum_value-Fits, each-AllFit,
  resolve_target-Fits, text_or_none-Fits, data_or_none-Fits, text_or_none-plain, entries-Fit,
}
use litharness_contracts.Fixture.Contexts.{required}

-- `span.content_sha256`
unfoldable pub content_sha256 : Value → Value
content_sha256 (instance_of c ats) = elim (get_attr "content_sha256" ats) [
  | some v ↦ v
  | none ↦ nothing
]
content_sha256 _ = nothing

unfoldable pub make_operation : Value → String → Value → Value → Value → Value → Attrs → Value
make_operation kind source before_version after_version before_hash after_hash detail =
    instance_of "ChangeOperation" (
      attributes (
        ("kind", kind)
        ∷ ("logical_source_id", Value.str source)
        ∷ ("before_version", before_version)
        ∷ ("after_version", after_version)
        ∷ ("before_hash", before_hash)
        ∷ ("after_hash", after_hash)
        ∷ ("detail", Value.dict detail)
        ∷ []))

-- `{key: quote, "new_text": op.get("new_text")}`
unfoldable pub quote_detail : String → String → Option String → Attrs
unfolding text_or_none
quote_detail key quote new_text =
    attributes ((key, Value.str quote) ∷ ("new_text", text_or_none new_text) ∷ [])

-- the entity if there is one, else the scene, else the book
unfoldable pub source_id : Option String → Option String → String
source_id (some entity) scene = append "entity:" entity
source_id none (some scene) = scene
source_id none none = "book"

module _ (dg : Digests) (b : FixtureBuilder) where
  -- `sha256_text(op["new_text"]) if "new_text" in op else None`
  unfoldable pub hash_or_none : Option String → Value
  hash_or_none none = nothing
  hash_or_none (some text) = Value.str (dg.sha256_text text)

  -- `self.scene_version[scene]`
  unfoldable pub version_of : String → Built String
  unfolding required get
  version_of scene = required scene (get scene b.scene_version)

  unfoldable pub after_version : String → String → Value
  unfolding det_id
  after_version scenario scene =
      Value.str (det_id dg (b.fixture_id ∷ scenario ∷ scene ∷ "after" ∷ []))

  unfoldable pub replace_operation : String → OperationSpec → String → Value → Built Value
  unfolding required version_of after_version hash_or_none make_operation quote_detail
      content_sha256
  replace_operation scenario op quote kind = do
    scene ← required "scene" op.scene
    cited ← span dg b scene quote
    version ← version_of scene
    built (
        make_operation kind scene (Value.str version) (after_version scenario scene)
          (content_sha256 cited) (hash_or_none op.new_text)
          (quote_detail "quote" quote op.new_text))

  unfoldable pub anchor_operation : String → OperationSpec → String → Value → Built Value
  unfolding required version_of after_version make_operation quote_detail
  anchor_operation scenario op anchor kind = do
    scene ← required "scene" op.scene
    cited ← span dg b scene anchor
    version ← version_of scene
    built (
        make_operation kind scene (Value.str version) (after_version scenario scene) nothing nothing
          (quote_detail "anchor_quote" anchor op.new_text))

  -- by the first of the keys `quote` and `anchor_quote` that there is
  unfoldable pub operation_by :
      String → OperationSpec → Value → Option String → Option String → Built Value
  unfolding replace_operation anchor_operation make_operation source_id
  operation_by scenario op kind (some quote) anchor = replace_operation scenario op quote kind
  operation_by scenario op kind none (some anchor) = anchor_operation scenario op anchor kind
  operation_by scenario op kind none none = built (
      make_operation kind (source_id op.entity op.scene) nothing nothing nothing nothing
        (of_entries op.detail))

  unfoldable pub operation_of : String → OperationSpec → Built Value
  unfolding enum_value operation_by
  operation_of scenario op = do
    kind ← enum_value change_op_kind op.kind
    operation_by scenario op kind op.quote op.anchor_quote

  unfoldable pub extracted_of : ChangeSpec → Built Value
  unfolding enum_value text_or_none data_or_none
  extracted_of c = do
    kind ← enum_value extracted_change_kind c.kind
    built (
        instance_of "ExtractedChange" (
          attributes (
            ("kind", kind)
            ∷ ("subject", text_or_none c.subject)
            ∷ ("predicate", text_or_none c.predicate)
            ∷ ("before", data_or_none c.before)
            ∷ ("after", data_or_none c.after)
            ∷ ("evidence", Value.list Values.nil)
            ∷ ("confidence", one)
            ∷ [])))

  unfoldable pub expectation_of : ExpectationSpec → Built Value
  unfolding enum_value text_or_none
  expectation_of e = do
    target ← resolve_target b e.target
    label ← enum_value impact_label e.label
    built (
        instance_of "GoldImpactExpectation"
          (attributes (("target", target) ∷ ("label", label) ∷ ("note", text_or_none e.note) ∷ [])))

  unfoldable pub change_set_of : ScenarioSpec → Values → Values → Value
  unfolding make_meta det_id text_or_none
  change_set_of s operations extracted = instance_of "ChangeSet" (
      attributes (
        ("meta", make_meta dg b "change_set" s.id)
        ∷ ("change_set_id", Value.str (det_id dg (b.fixture_id ∷ "change_set" ∷ s.id ∷ [])))
        ∷ ("base_revision", Value.str b.revision_id)
        ∷ ("target_branch", Value.str b.branch_id)
        ∷ ("actor", member "ChangeActor" "author")
        ∷ ("operations", Value.list operations)
        ∷ ("idempotency_key", Value.str (det_id dg (b.fixture_id ∷ "idempotency" ∷ s.id ∷ [])))
        ∷ ("extracted_changes", Value.list extracted)
        ∷ ("declared_intent", text_or_none s.declared_intent)
        ∷ ("preservation_constraints", Value.list Values.nil)
        ∷ []))

  unfoldable pub impact_case : ScenarioSpec → Built Value
  unfolding operation_of extracted_of expectation_of change_set_of each
  impact_case s = do
    operations ← each (operation_of s.id) s.operations
    extracted ← each extracted_of s.extracted_changes
    expected ← each expectation_of s.expected
    built (
        instance_of "GoldImpactCase" (
          attributes (
            ("scenario_id", Value.str s.id)
            ∷ ("description", Value.str s.description)
            ∷ ("change_set", change_set_of s operations extracted)
            ∷ ("expected", Value.list expected)
            ∷ [])))

  unfoldable pub impact_gold : Built Value
  unfolding impact_case each make_meta
  impact_gold = do
    cases ← each impact_case b.spec.impact_gold
    built (
        instance_of "GoldImpactSuite" (
          attributes (
            ("meta", make_meta dg b "gold_impact_suite" "r1")
            ∷ ("fixture_id", Value.str b.fixture_id)
            ∷ ("cases", Value.list cases)
            ∷ [])))
