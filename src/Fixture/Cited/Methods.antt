-- ===== src/Fixture/Cited/Methods.antt =====
-- The methods of the builder that put evidence spans into their artifacts.
use litharness_contracts.Prelude.{◌≡◌, String, Option, none, some, true, ◌⊎◌, inl, inr, subst}
use litharness_contracts.Value.{Value, nothing}
use litharness_contracts.Fixture.Spec.{FindingSpec, StateSpec, TargetSpec, QuerySpec}
use litharness_contracts.Contracts.Context.{context_operation}
use litharness_contracts.Contracts.State.{state_record_kind, state_authority}
use litharness_contracts.Contracts.Evaluation.{finding_category, finding_status, severity}
use litharness_contracts.Fixture.Errors.{
  Built, built, ◌>>=◌, Yields, yields, raises, Yields-bind, Yields-built,
}
use litharness_contracts.Fixture.Builder.{Digests, FixtureBuilder, make_ref}
use litharness_contracts.Fixture.Spans.{span}
use litharness_contracts.Fixture.Manuscript.{make_meta}
use litharness_contracts.Fixture.States.{state, state_record_of, position_of}
use litharness_contracts.Fixture.Findings.{findings, finding_of, scope_of, scene_ids, action_of}
use litharness_contracts.Fixture.Contexts.{
  required, gold_target, resolved_target, target_by, context_target, query_of, context_case,
  context_gold,
}
use litharness_contracts.Fixture.Cited.{
  cited, Cited, enum_value-Cited, each-AllCited, text_or_none-Cited, data_or_none-Cited,
  text_values-AllCited, resolve_target-Cited, of_entries-Cited, span-Cited, spans-AllCited,
}

module _ (dg : Digests) (b : FixtureBuilder) where
  abbrev YieldsCited : Built Value → Type 0
  YieldsCited r = Yields (Cited dg b) r

  state_record_of-Cited : (r : StateSpec) → YieldsCited (state_record_of dg b r)
  unfolding state_record_of cited position_of
  state_record_of-Cited r = Yields-bind (enum_value-Cited dg b state_record_kind r.kind) λ kind hk.
      Yields-bind (enum_value-Cited dg b state_authority r.authority) λ authority ha.
        Yields-bind (spans-AllCited dg b r.evidence) λ evidence he. yields (
          rw (
            hk,
            data_or_none-Cited dg b r.value,
            ha,
            text_values-AllCited dg b r.pov_visibility,
            he,
            text_or_none-Cited dg b r.note,
          ))

  state-Cited : YieldsCited (state dg b)
  unfolding state cited make_meta make_ref
  state-Cited =
      Yields-bind (each-AllCited dg b _ b.spec.state_records state_record_of-Cited)
        λ records h. yields (rw h)

  finding_of-Cited : (f : FindingSpec) → YieldsCited (finding_of dg b f)
  unfolding finding_of cited scope_of action_of
  finding_of-Cited f =
      Yields-bind (enum_value-Cited dg b finding_category f.category) λ category hc.
        Yields-bind (enum_value-Cited dg b finding_status f.status) λ status hs.
          Yields-bind (enum_value-Cited dg b severity f.severity) λ level hl.
            Yields-bind (span-Cited dg b f.primary.scene f.primary.quote) λ primary_span hp.
              Yields-bind (spans-AllCited dg b f.supporting) λ supporting hw.
                Yields-bind (each-AllCited dg b _ f.dependencies (resolve_target-Cited dg b))
                  λ dependencies hd. yields (
                    rw (
                      hc,
                      hs,
                      text_values-AllCited dg b (scene_ids f),
                      hl,
                      text_or_none-Cited dg b f.subtype,
                      hp,
                      hw,
                      text_or_none-Cited dg b f.rule_id,
                      of_entries-Cited dg b f.claim,
                      hd,
                    ))

  findings-Cited : YieldsCited (findings dg b)
  unfolding findings cited make_meta make_ref
  findings-Cited =
      Yields-bind (each-AllCited dg b _ b.spec.gold_findings finding_of-Cited)
        λ found h. yields (rw h)

  resolved_target-Cited : (t : TargetSpec) (id : String) → YieldsCited (resolved_target dg b t id)
  unfolding resolved_target cited
  resolved_target-Cited t id = Yields-bind (resolve_target-Cited dg b id) λ target h. yields (rw h)

  quoted_target-Cited :
      (t : TargetSpec) (scene : Option String) (quote : String)
      → YieldsCited (
          required "scene" scene >>= λ s.
          span dg b s quote >>= λ cite. built (gold_target t.reason cite nothing))
  unfolding required gold_target cited
  quoted_target-Cited t none quote = raises
  quoted_target-Cited t (some scene) quote =
      Yields-bind (span-Cited dg b scene quote) λ cite h. yields (rw h)

  target_by-Cited :
      (t : TargetSpec) (quote id plan : Option String)
      → YieldsCited (target_by dg b t quote id plan)
  unfolding target_by
  target_by-Cited t (some quote) id plan = quoted_target-Cited t t.scene quote
  target_by-Cited t none (some id) plan = resolved_target-Cited t id
  target_by-Cited t none none (some plan) = resolved_target-Cited t plan
  target_by-Cited t none none none = raises

  context_target-Cited : (t : TargetSpec) → YieldsCited (context_target dg b t)
  unfolding context_target
  context_target-Cited t = target_by-Cited t t.quote t.state_record t.plan

  query_of-Cited : (q : QuerySpec) → YieldsCited (query_of dg b q)
  unfolding query_of cited make_meta make_ref
  query_of-Cited q =
      Yields-bind (enum_value-Cited dg b context_operation q.operation) λ operation ho.
        Yields-bind (resolve_target-Cited dg b q.target) λ target ht.
          yields (rw (ho, ht, text_or_none-Cited dg b q.pov, text_or_none-Cited dg b q.intent))

  context_case-Cited : (q : QuerySpec) → YieldsCited (context_case dg b q)
  unfolding context_case cited
  context_case-Cited q = Yields-bind (query_of-Cited q) λ query hq.
      Yields-bind (each-AllCited dg b _ q.mandatory context_target-Cited) λ mandatory hm.
        Yields-bind (each-AllCited dg b _ q.forbidden context_target-Cited)
          λ forbidden hf. yields (rw (hq, hm, hf, text_or_none-Cited dg b q.notes))

  context_gold-Cited : YieldsCited (context_gold dg b)
  unfolding context_gold cited make_meta make_ref
  context_gold-Cited =
      Yields-bind (each-AllCited dg b _ b.spec.context_gold context_case-Cited)
        λ cases h. yields (rw h)

  -- In the state, the findings and the context suite that are built, each evidence span, at any
  -- depth, refers to a scene of the builder, its offsets lie in the scene's text, and its digest is
  -- that of the text between them.
  pub evidence_cited :
      (v : Value)
      → (state dg b ≡ built v) ⊎ (findings dg b ≡ built v) ⊎ (context_gold dg b ≡ built v)
      → cited dg b v ≡ true
  evidence_cited v (inl h) = Yields-built (subst YieldsCited h state-Cited)
  evidence_cited v (inr (inl h)) = Yields-built (subst YieldsCited h findings-Cited)
  evidence_cited v (inr (inr h)) = Yields-built (subst YieldsCited h context_gold-Cited)
