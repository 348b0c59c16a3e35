-- ===== src/Fixture/Findings.antt =====
-- `FixtureBuilder.findings`.
use Prim.Native.Nat.{Ordering}
use Prim.Native.String.{compare}
use litharness_contracts.Prelude.{
  refl, String, List, [], ◌∷◌, map, Bool-cases, inl, inr, or_true, str_eq, if◌then◌else◌,
}
use litharness_contracts.Value.{Value, Values, Attrs, nothing, member, instance_of, of_entries}
use litharness_contracts.Types.{enum}
use litharness_contracts.Serde.Typing.{is_nothing}
use litharness_contracts.Serde.Defaults.{fits}
use litharness_contracts.Contracts.Ids.{resource_ref}
use litharness_contracts.Contracts.Evaluation.{
  finding_category, finding_status, severity, suggested_action, finding, evaluation_artifact,
}
use litharness_contracts.Fixture.Spec.{Citation, FindingSpec}
use litharness_contracts.Fixture.Errors.{Built, built, each, ◌>>=◌, Yields, yields, Yields-bind}
use litharness_contracts.Fixture.Builder.{Digests, FixtureBuilder, make_ref, resolve_target}
use litharness_contracts.Fixture.Spans.{span}
use litharness_contracts.Fixture.Manuscript.{attributes, make_meta}
use litharness_contracts.Fixture.Parts.{
  enum_value, text_or_none, text_values, spans, one, Fits, enum_value-Fits, each-AllFit, span-Fits,
  spans-AllFit, resolve_target-Fits, text_or_none-Fits, text_values-AllFit, entries-Fit,
}

-- `sorted` of a set of texts
unfoldable pub insert_text : String → List String → List String
insert_text s [] = s ∷ []
insert_text s (t ∷ texts) = elim (compare s t) [
  | Ordering.lt ↦ s ∷ t ∷ texts
  | Ordering.eq ↦ t ∷ texts
  | Ordering.gt ↦ t ∷ insert_text s texts
]

unfoldable pub sorted_set : List String → List String
unfolding insert_text
sorted_set [] = []
sorted_set (s ∷ texts) = insert_text s (sorted_set texts)

unfoldable pub scene_ids : FindingSpec → List String
unfolding sorted_set
scene_ids f = sorted_set (f.primary.scene ∷ map (λ (c : Citation). c.scene) f.supporting)

unfoldable pub scope_of : String → List String → Value
unfolding text_values
scope_of book_id scenes = instance_of "FindingScope" (
    attributes (
      ("book_id", Value.str book_id)
      ∷ ("chapter_ids", Value.list Values.nil)
      ∷ ("scene_ids", Value.list (text_values scenes))
      ∷ []))

abbrev pub gold_reproduction : Value
gold_reproduction = instance_of "Reproduction" (
    attributes (
      ("config_hash", Value.str "fixture")
      ∷ ("policy_version", Value.str "gold.v1")
      ∷ ("model_digest", nothing)
      ∷ []))

-- `DISMISS` for an accepted finding, else `INSPECT`
unfoldable pub action_of : String → Value
action_of status =
    member "SuggestedAction" (if str_eq status "accepted_intentional" then "dismiss" else "inspect")

action_of-Fits : (status : String) → Fits (enum suggested_action) (action_of status)
unfolding action_of fits
action_of-Fits status = elim (Bool-cases (str_eq status "accepted_intentional")) [
  | inl accepted ↦ rw accepted refl
  | inr other ↦ rw other refl
]

module _ (dg : Digests) (b : FixtureBuilder) where
  unfoldable pub finding_of : FindingSpec → Built Value
  unfolding enum_value text_or_none spans each scope_of scene_ids action_of
  finding_of f = do
    category ← enum_value finding_category f.category
    status ← enum_value finding_status f.status
    level ← enum_value severity f.severity
    primary_span ← span dg b f.primary.scene f.primary.quote
    supporting ← spans dg b f.supporting
    dependencies ← each (resolve_target b) f.dependencies
    built (
        instance_of "Finding" (
          attributes (
            ("finding_id", Value.str f.id)
            ∷ ("category", category)
            ∷ ("status", status)
            ∷ ("scope", scope_of b.book_id (scene_ids f))
            ∷ ("severity", level)
            ∷ ("message", Value.str f.message)
            ∷ ("evaluation_run_id", Value.str "gold")
            ∷ ("subtype", text_or_none f.subtype)
            ∷ ("primary_span", primary_span)
            ∷ ("supporting_evidence", Value.list supporting)
            ∷ ("contradicting_evidence", Value.list Values.nil)
            ∷ ("rule_or_critic_id", text_or_none f.rule_id)
            ∷ ("severity_rationale", nothing)
            ∷ ("confidence", one)
            ∷ ("confidence_basis", member "ConfidenceBasis" "deterministic")
            ∷ ("evidence_confidence", one)
            ∷ ("claim", Value.dict (of_entries f.claim))
            ∷ ("reproduction", gold_reproduction)
            ∷ ("dependencies", Value.list dependencies)
            ∷ ("suggested_action", action_of f.status)
            ∷ [])))

  unfoldable pub findings : Built Value
  unfolding finding_of each make_meta
  findings = do
    found ← each finding_of b.spec.gold_findings
    built (
        instance_of "EvaluationArtifact" (
          attributes (
            ("meta", make_meta dg b "evaluation_artifact" "gold")
            ∷ ("run_id", Value.str "gold")
            ∷ ("plan_id", Value.str "gold-annotations")
            ∷ ("findings", Value.list found)
            ∷ ("errors", Value.list Values.nil)
            ∷ ("metrics", Value.dict Attrs.end)
            ∷ [])))

  finding_of-Fits : (f : FindingSpec) → Yields (Fits finding) (finding_of f)
  unfolding finding_of fits scope_of action_of
  finding_of-Fits f = Yields-bind (enum_value-Fits finding_category f.category) λ category hc.
      Yields-bind (enum_value-Fits finding_status f.status) λ status hs.
        Yields-bind (enum_value-Fits severity f.severity) λ level hl.
          Yields-bind (span-Fits dg b f.primary.scene f.primary.quote) λ primary_span hp.
            Yields-bind (spans-AllFit dg b f.supporting) λ supporting hw.
              Yields-bind (each-AllFit _ resource_ref f.dependencies (resolve_target-Fits b))
                λ dependencies hd. yields (
                  rw (
                    hc,
                    hs,
                    text_values-AllFit (scene_ids f),
                    hl,
                    text_or_none-Fits f.subtype,
                    hp,
                    or_true (is_nothing primary_span),
                    hw,
                    text_or_none-Fits f.rule_id,
                    entries-Fit f.claim,
                    hd,
                    action_of-Fits f.status,
                  ))

  pub findings-Fits : Yields (Fits evaluation_artifact) findings
  unfolding findings fits make_meta make_ref
  findings-Fits =
      Yields-bind (each-AllFit finding_of finding b.spec.gold_findings finding_of-Fits)
        λ found h. yields (rw h)
