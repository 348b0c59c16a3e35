-- ===== src/Fixture/Contexts.antt =====
-- `FixtureBuilder.context_gold` and `_context_target`.
use litharness_contracts.Prelude.{String, Option, none, some, [], ◌∷◌, or_true}
use litharness_contracts.Value.{Value, Values, nothing, instance_of}
use litharness_contracts.Serde.Typing.{is_nothing}
use litharness_contracts.Serde.Defaults.{fits}
use litharness_contracts.Contracts.Context.{context_operation, context_query}
use litharness_contracts.Contracts.Goldens.{
  gold_context_target, gold_context_case, gold_context_suite,
}
use litharness_contracts.Fixture.Spec.{TargetSpec, QuerySpec}
use litharness_contracts.Fixture.Errors.{
  Built, built, failed, key_error, no_target, each, ◌>>=◌, Yields, yields, raises, Yields-bind,
}
use litharness_contracts.Fixture.Builder.{Digests, FixtureBuilder, make_ref, resolve_target}
use litharness_contracts.Fixture.Spans.{span}
use litharness_contracts.Fixture.Manuscript.{attributes, make_meta}
use litharness_contracts.Fixture.Parts.{
  enum_value, text_or_none, Fits, enum_value-Fits, each-AllFit, span-Fits, resolve_target-Fits,
  text_or_none-Fits,
}

-- `d[key]`
unfoldable pub required : String → Option String → Built String
required key none = failed (key_error key)
required key (some s) = built s

unfoldable pub gold_target : String → Value → Value → Value
gold_target reason cited target =
    instance_of "GoldContextTarget"
      (attributes (("reason", Value.str reason) ∷ ("span", cited) ∷ ("ref", target) ∷ []))

module _ (dg : Digests) (b : FixtureBuilder) where
  unfoldable pub quoted_target : TargetSpec → String → Built Value
  unfolding required gold_target
  quoted_target t quote = do
    scene ← required "scene" t.scene
    cited ← span dg b scene quote
    built (gold_target t.reason cited nothing)

  unfoldable pub resolved_target : TargetSpec → String → Built Value
  unfolding gold_target
  resolved_target t id = do
    target ← resolve_target b id
    built (gold_target t.reason nothing target)

  -- The first of the keys `quote`, `record` and `plan` that there is.
  unfoldable pub target_by :
      TargetSpec → Option String → Option String → Option String → Built Value
  unfolding quoted_target resolved_target
  target_by t (some quote) id plan = quoted_target t quote
  target_by t none (some id) plan = resolved_target t id
  target_by t none none (some plan) = resolved_target t plan
  target_by t none none none = failed (no_target t.reason)

  unfoldable pub context_target : TargetSpec → Built Value
  unfolding target_by
  context_target t = target_by t t.quote t.state_record t.plan

  unfoldable pub query_of : QuerySpec → Built Value
  unfolding enum_value make_meta text_or_none
  query_of q = do
    operation ← enum_value context_operation q.operation
    target ← resolve_target b q.target
    built (
        instance_of "ContextQuery" (
          attributes (
            ("meta", make_meta dg b "context_query" q.id)
            ∷ ("query_id", Value.str q.id)
            ∷ ("operation", operation)
            ∷ ("target", target)
            ∷ ("token_budget", Value.int q.token_budget)
            ∷ ("pov_character_id", text_or_none q.pov)
            ∷ ("intent", text_or_none q.intent)
            ∷ ("referenced_entities", Value.list Values.nil)
            ∷ ("referenced_threads", Value.list Values.nil)
            ∷ ("story_time_cutoff", nothing)
            ∷ ("hard_requirements", Value.list Values.nil)
            ∷ ("exclusions", Value.list Values.nil)
            ∷ ("model_context_limit", nothing)
            ∷ ("policy_version", Value.str "gold.v1")
            ∷ [])))

  unfoldable pub context_case : QuerySpec → Built Value
  unfolding query_of each context_target text_or_none
  context_case q = do
    query ← query_of q
    mandatory ← each context_target q.mandatory
    forbidden ← each context_target q.forbidden
    built (
        instance_of "GoldContextCase" (
          attributes (
            ("query", query)
            ∷ ("mandatory", Value.list mandatory)
            ∷ ("forbidden", Value.list forbidden)
            ∷ ("notes", text_or_none q.notes)
            ∷ [])))

  unfoldable pub context_gold : Built Value
  unfolding context_case each make_meta
  context_gold = do
    cases ← each context_case b.spec.context_gold
    built (
        instance_of "GoldContextSuite" (
          attributes (
            ("meta", make_meta dg b "gold_context_suite" "r1")
            ∷ ("fixture_id", Value.str b.fixture_id)
            ∷ ("cases", Value.list cases)
            ∷ [])))

  resolved_target-Fits :
      (t : TargetSpec) (id : String) → Yields (Fits gold_context_target) (resolved_target t id)
  unfolding resolved_target fits
  resolved_target-Fits t id =
      Yields-bind (resolve_target-Fits b id)
        λ target h. yields (rw (h, or_true (is_nothing target)))

  quoted_target-Fits :
      (t : TargetSpec) (scene : Option String) (quote : String)
      → Yields (Fits gold_context_target) (
          required "scene" scene >>= λ s.
          span dg b s quote >>= λ cited. built (gold_target t.reason cited nothing))
  unfolding required gold_target fits
  quoted_target-Fits t none quote = raises
  quoted_target-Fits t (some scene) quote =
      Yields-bind (span-Fits dg b scene quote)
        λ cited h. yields (rw (h, or_true (is_nothing cited)))

  target_by-Fits :
      (t : TargetSpec) (quote id plan : Option String)
      → Yields (Fits gold_context_target) (target_by t quote id plan)
  unfolding target_by
  target_by-Fits t (some quote) id plan = quoted_target-Fits t t.scene quote
  target_by-Fits t none (some id) plan = resolved_target-Fits t id
  target_by-Fits t none none (some plan) = resolved_target-Fits t plan
  target_by-Fits t none none none = raises

  context_target-Fits : (t : TargetSpec) → Yields (Fits gold_context_target) (context_target t)
  unfolding context_target
  context_target-Fits t = target_by-Fits t t.quote t.state_record t.plan

  query_of-Fits : (q : QuerySpec) → Yields (Fits context_query) (query_of q)
  unfolding query_of fits make_meta make_ref
  query_of-Fits q = Yields-bind (enum_value-Fits context_operation q.operation) λ operation ho.
      Yields-bind (resolve_target-Fits b q.target)
        λ target ht. yields (rw (ho, ht, text_or_none-Fits q.pov, text_or_none-Fits q.intent))

  context_case-Fits : (q : QuerySpec) → Yields (Fits gold_context_case) (context_case q)
  unfolding context_case fits
  context_case-Fits q = Yields-bind (query_of-Fits q) λ query hq.
      Yields-bind (each-AllFit context_target gold_context_target q.mandatory context_target-Fits)
        λ mandatory hm.
          Yields-bind
            (each-AllFit context_target gold_context_target q.forbidden context_target-Fits)
            λ forbidden hf. yields (rw (hq, hm, hf, text_or_none-Fits q.notes))

  pub context_gold-Fits : Yields (Fits gold_context_suite) context_gold
  unfolding context_gold fits make_meta make_ref
  context_gold-Fits =
      Yields-bind (each-AllFit context_case gold_context_case b.spec.context_gold context_case-Fits)
        λ cases h. yields (rw h)
