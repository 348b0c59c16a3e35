-- ===== src/Fixture/Impacts/Typed.antt =====
-- What `impact_gold` builds has the type of impact suites.
use litharness_contracts.Prelude.{◌≡◌, refl, String, Option, none, some, true}
use litharness_contracts.Value.{Value, Values, Attrs, nothing, of_entries}
use litharness_contracts.Types.{Ty, enum, any, optional}
use litharness_contracts.Serde.Plain.{is_plain}
use litharness_contracts.Serde.Defaults.{fits, all_attrs}
use litharness_contracts.Contracts.Propagation.{
  change_op_kind, change_operation, extracted_change_kind, extracted_change, change_set,
}
use litharness_contracts.Contracts.Goldens.{
  impact_label, gold_impact_expectation, gold_impact_case, gold_impact_suite,
}
use litharness_contracts.Fixture.Spec.{OperationSpec, ChangeSpec, ExpectationSpec, ScenarioSpec}
use litharness_contracts.Fixture.Errors.{Yields, yields, Yields-bind, Yields-of}
use litharness_contracts.Fixture.Builder.{Digests, FixtureBuilder, make_ref}
use litharness_contracts.Fixture.Spans.{span, make_span, span_resolves}
use litharness_contracts.Fixture.Manuscript.{make_meta}
use litharness_contracts.Fixture.Parts.{
  Fits, AllFit, enum_value-Fits, each-AllFit, resolve_target-Fits, text_or_none-Fits,
  data_or_none-Fits, text_or_none-plain, entries-Fit,
}
use litharness_contracts.Fixture.Contexts.{required}
use litharness_contracts.Fixture.Impacts.{
  content_sha256, make_operation, quote_detail, source_id, hash_or_none, version_of, after_version,
  replace_operation, anchor_operation, operation_by, operation_of, extracted_of, expectation_of,
  change_set_of, impact_case, impact_gold,
}

-- A detail holds JSON data.
abbrev PlainDetail : Attrs → Type 0
PlainDetail ats = all_attrs (fits any) ats ≡ true

quote_detail-plain :
    (key quote : String) (new_text : Option String) → PlainDetail (quote_detail key quote new_text)
unfolding quote_detail fits is_plain
quote_detail-plain key quote new_text = rw (text_or_none-plain new_text)

make_operation-Fits :
    (kind : Value) (source : String) (v w x y : Value) (detail : Attrs)
    → Fits (enum change_op_kind) kind
    → Fits (optional Ty.str) v
    → Fits (optional Ty.str) w
    → Fits (optional Ty.str) x
    → Fits (optional Ty.str) y
    → PlainDetail detail
    → Fits change_operation (make_operation kind source v w x y detail)
unfolding make_operation fits
make_operation-Fits kind source v w x y detail hk hv hw hx hy hd = rw (hk, hv, hw, hx, hy, hd)

module _ (dg : Digests) (b : FixtureBuilder) where
  hash_or_none-Fits : (o : Option String) → Fits (optional Ty.str) (hash_or_none dg b o)
  unfolding hash_or_none fits
  hash_or_none-Fits none = refl
  hash_or_none-Fits (some text) = refl

  content_sha256-Fits :
      (scene quote : String)
      → Yields (λ v. Fits (optional Ty.str) (content_sha256 v)) (span dg b scene quote)
  unfolding content_sha256 make_span fits
  content_sha256-Fits scene quote = Yields-of _ (span dg b scene quote) λ v h.
      let (text, source, start, end, e, r, cited, is) = span_resolves dg b scene quote v h in
      rw is refl

  replace_operation-Fits :
      (scenario : String) (op : OperationSpec) (quote : String) (kind : Value)
      → Fits (enum change_op_kind) kind
      → Yields (Fits change_operation) (replace_operation dg b scenario op quote kind)
  unfolding replace_operation fits
  replace_operation-Fits scenario op quote kind hk =
      Yields-bind (Yields-of (λ s. Unit {0}) (required "scene" op.scene) (λ s h. tt)) λ scene _.
        Yields-bind (content_sha256-Fits scene quote) λ cited hc.
          Yields-bind (Yields-of (λ s. Unit {0}) (version_of dg b scene) (λ s h. tt)) λ version _.
            yields (
              make_operation-Fits kind scene (Value.str version) (after_version dg b scenario scene)
                (content_sha256 cited) (hash_or_none dg b op.new_text)
                (quote_detail "quote" quote op.new_text) hk refl refl hc
                (hash_or_none-Fits op.new_text) (quote_detail-plain "quote" quote op.new_text))

  anchor_operation-Fits :
      (scenario : String) (op : OperationSpec) (anchor : String) (kind : Value)
      → Fits (enum change_op_kind) kind
      → Yields (Fits change_operation) (anchor_operation dg b scenario op anchor kind)
  unfolding anchor_operation fits
  anchor_operation-Fits scenario op anchor kind hk =
      Yields-bind (Yields-of (λ s. Unit {0}) (required "scene" op.scene) (λ s h. tt)) λ scene _.
        Yields-bind (Yields-of (λ s. Unit {0}) (span dg b scene anchor) (λ s h. tt)) λ cited _.
          Yields-bind (Yields-of (λ s. Unit {0}) (version_of dg b scene) (λ s h. tt)) λ version _.
            yields (
              make_operation-Fits kind scene (Value.str version) (after_version dg b scenario scene)
                nothing nothing (quote_detail "anchor_quote" anchor op.new_text) hk refl refl refl
                refl (quote_detail-plain "anchor_quote" anchor op.new_text))

  operation_by-Fits :
      (scenario : String) (op : OperationSpec) (kind : Value) (quote anchor : Option String)
      → Fits (enum change_op_kind) kind
      → Yields (Fits change_operation) (operation_by dg b scenario op kind quote anchor)
  unfolding operation_by fits
  operation_by-Fits scenario op kind (some quote) anchor hk =
      replace_operation-Fits scenario op quote kind hk
  operation_by-Fits scenario op kind none (some anchor) hk =
      anchor_operation-Fits scenario op anchor kind hk
  operation_by-Fits scenario op kind none none hk = yields (
      make_operation-Fits kind (source_id op.entity op.scene) nothing nothing nothing nothing
        (of_entries op.detail) hk refl refl refl refl (entries-Fit op.detail))

  operation_of-Fits :
      (scenario : String) (op : OperationSpec)
      → Yields (Fits change_operation) (operation_of dg b scenario op)
  unfolding operation_of
  operation_of-Fits scenario op =
      Yields-bind (enum_value-Fits change_op_kind op.kind)
        λ kind hk. operation_by-Fits scenario op kind op.quote op.anchor_quote hk

  extracted_of-Fits : (c : ChangeSpec) → Yields (Fits extracted_change) (extracted_of dg b c)
  unfolding extracted_of fits
  extracted_of-Fits c = Yields-bind (enum_value-Fits extracted_change_kind c.kind) λ kind hk.
      yields (
        rw (
          hk,
          text_or_none-Fits c.subject,
          text_or_none-Fits c.predicate,
          data_or_none-Fits c.before,
          data_or_none-Fits c.after,
        ))

  expectation_of-Fits :
      (e : ExpectationSpec) → Yields (Fits gold_impact_expectation) (expectation_of dg b e)
  unfolding expectation_of fits
  expectation_of-Fits e = Yields-bind (resolve_target-Fits b e.target) λ target ht.
      Yields-bind (enum_value-Fits impact_label e.label)
        λ label hl. yields (rw (ht, hl, text_or_none-Fits e.note))

  change_set_of-Fits :
      (s : ScenarioSpec) (operations extracted : Values)
      → AllFit change_operation operations
      → AllFit extracted_change extracted
      → Fits change_set (change_set_of dg b s operations extracted)
  unfolding change_set_of fits make_meta make_ref
  change_set_of-Fits s operations extracted ho he = rw (ho, he, text_or_none-Fits s.declared_intent)

  impact_case-Fits : (s : ScenarioSpec) → Yields (Fits gold_impact_case) (impact_case dg b s)
  unfolding impact_case fits
  impact_case-Fits s =
      Yields-bind (each-AllFit _ change_operation s.operations (operation_of-Fits s.id)) λ ops ho.
        Yields-bind (each-AllFit _ extracted_change s.extracted_changes extracted_of-Fits) λ ext he.
          Yields-bind (each-AllFit _ gold_impact_expectation s.expected expectation_of-Fits)
            λ exp hx. yields (rw (change_set_of-Fits s ops ext ho he, hx))

  pub impact_gold-Fits : Yields (Fits gold_impact_suite) (impact_gold dg b)
  unfolding impact_gold fits make_meta make_ref
  impact_gold-Fits =
      Yields-bind (each-AllFit _ gold_impact_case b.spec.impact_gold impact_case-Fits)
        λ cases h. yields (rw h)
