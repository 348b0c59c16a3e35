-- ===== src/Fixture/Cited.antt =====
-- Whether every evidence span in an artifact cites its scene: the check of
-- test_every_evidence_span_resolves, at any depth.
pub mod Methods
use litharness_contracts.Prelude.{
  ℕ, String, ◌≡◌, refl, true, false, Bool, ◌&&◌, Option, none, some, List, [], ◌∷◌, leb, str_eq,
  eq_refl, if◌then◌else◌, Bool-cases, inl, inr, arith, sym, ◌∙◌,
}
use litharness_contracts.Prelude.Int.{pos}
use litharness_contracts.Json.{Json, Items, Entries, item, entry}
use litharness_contracts.Types.{EnumClass, has_value}
use litharness_contracts.Value.{
  Value, Values, Attrs, attr, nothing, member, instance_of, get_attr, of_json, of_items, of_entries,
}
use litharness_contracts.Fixture.Text.{count_chars, slice}
use litharness_contracts.Fixture.Spec.{Citation}
use litharness_contracts.Fixture.Errors.{
  Built, built, each, ◌>>=◌, Yields, yields, raises, Yields-bind, Yields-of,
}
use litharness_contracts.Fixture.Builder.{
  Digests, FixtureBuilder, get, make_ref, scene_ref, resolve_target,
}
use litharness_contracts.Fixture.Spans.{span, make_span, span_resolves}
use litharness_contracts.Fixture.Bounds.{span_bounds}
use litharness_contracts.Fixture.Typed.{Refers, resolve_target-Refers, scene_ref-Refers}
use litharness_contracts.Fixture.Parts.{enum_value, text_or_none, data_or_none, text_values, spans}

-- the text of the scene that a span's `source` refers to
unfoldable pub source_text : FixtureBuilder → Option Value → Option String
source_text b (some (instance_of c ats)) = elim (get_attr "logical_id" ats) [
  | some (Value.str scene_id) ↦ get scene_id b.scene_text
  | _ ↦ none
]
source_text b _ = none

-- The offsets lie in the text, and the digest is that of the text between them.
unfoldable pub excerpt_ok :
    Digests → Option String → Option Value → Option Value → Option Value → Bool
excerpt_ok dg (some text) (some (Value.int (pos start))) (some (Value.int (pos end)))
      (some (Value.str digest)) =
    leb start end
    && leb end (count_chars text)
    && str_eq digest (dg.sha256_text (slice text start end))
excerpt_ok dg _ _ _ _ = false

unfoldable pub span_ok : Digests → FixtureBuilder → Attrs → Bool
unfolding source_text excerpt_ok
span_ok dg b ats =
    excerpt_ok dg (source_text b (get_attr "source" ats)) (get_attr "start" ats)
      (get_attr "end" ats) (get_attr "content_sha256" ats)

module _ (dg : Digests) (b : FixtureBuilder) where
  unfoldable mutual
    pub cited : Value → Bool
    cited (Value.list vs) = cited_values vs
    cited (Value.dict ats) = cited_attrs ats
    cited (instance_of c ats) =
        let inside = cited_attrs ats in if str_eq c "EvidenceSpan" then span_ok dg b ats else inside
    cited _ = true

    pub cited_values : Values → Bool
    cited_values Values.nil = true
    cited_values (Values.cons v vs) = cited v && cited_values vs

    pub cited_attrs : Attrs → Bool
    cited_attrs Attrs.end = true
    cited_attrs (attr k v ats) = cited v && cited_attrs ats

  abbrev pub Cited : Value → Type 0
  Cited v = cited v ≡ true

  abbrev pub AllCited : Values → Type 0
  AllCited vs = cited_values vs ≡ true

  mutual
    unfolding cited of_json

    pub of_json-Cited : (x : Json) → Cited (of_json x)
    of_json-Cited Json.null = refl
    of_json-Cited (Json.bool c) = refl
    of_json-Cited (Json.int n) = refl
    of_json-Cited (Json.float x) = refl
    of_json-Cited (Json.str s) = refl
    of_json-Cited (Json.list xs) = of_items-Cited xs
    of_json-Cited (Json.dict m) = of_entries-Cited m

    of_items-Cited : (xs : Items) → AllCited (of_items xs)
    of_items-Cited Items.nil = refl
    of_items-Cited (item x xs) = rw (of_json-Cited x) (of_items-Cited xs)

    pub of_entries-Cited : (m : Entries) → cited_attrs (of_entries m) ≡ true
    of_entries-Cited Entries.end = refl
    of_entries-Cited (entry k x m) = rw (of_json-Cited x) (of_entries-Cited m)

  pub enum_value-Cited : (e : EnumClass) (s : String) → Yields Cited (enum_value e s)
  unfolding enum_value cited
  enum_value-Cited e s = elim (Bool-cases (has_value e s)) [
    | inl has ↦ rw has (yields refl)
    | inr lacks ↦ rw lacks raises
  ]

  pub each-AllCited :
      {A : Type 0} (make : A → Built Value) (items : List A)
      → ((a : A) → Yields Cited (make a))
      → Yields AllCited (each make items)
  unfolding each cited
  each-AllCited make [] h = yields refl
  each-AllCited make (a ∷ items) h =
      Yields-bind (h a)
        λ v hv. Yields-bind (each-AllCited make items h) λ vs hs. yields (rw (hv, hs))

  pub text_or_none-Cited : (o : Option String) → Cited (text_or_none o)
  unfolding text_or_none cited
  text_or_none-Cited none = refl
  text_or_none-Cited (some s) = refl

  pub data_or_none-Cited : (o : Option Json) → Cited (data_or_none o)
  unfolding data_or_none cited
  data_or_none-Cited none = refl
  data_or_none-Cited (some x) = of_json-Cited x

  pub text_values-AllCited : (texts : List String) → AllCited (text_values texts)
  unfolding text_values cited
  text_values-AllCited [] = refl
  text_values-AllCited (s ∷ texts) = text_values-AllCited texts

  Refers-Cited : (id : String) (v : Value) → Refers b id v → Cited v
  unfolding cited make_ref
  Refers-Cited id v (kind, version, is, known, inl nothing_given) = rw (is, nothing_given) refl
  Refers-Cited id v (kind, version, is, known, inr (s, given)) = rw (is, given) refl

  pub resolve_target-Cited : (id : String) → Yields Cited (resolve_target b id)
  resolve_target-Cited id =
      Yields-of Cited (resolve_target b id)
        λ v h. Refers-Cited id v (resolve_target-Refers b id v h).1

  span_ok-make_span :
      (scene_id text : String) (source v : Value) (start end : ℕ)
      → Refers b scene_id source
      → get scene_id b.scene_text ≡ some text
      → leb start end ≡ true
      → leb end (count_chars text) ≡ true
      → v ≡ make_span source start end (dg.sha256_text (slice text start end))
      → Cited v
  unfolding cited span_ok source_text excerpt_ok make_span make_ref
  span_ok-make_span scene_id text source v start end (kind, version, is, _, _) there before inside
        same =
      rw (same, is, there, before, inside) (eq_refl (dg.sha256_text (slice text start end)))

  -- A span that is built cites its scene.
  pub span-Cited : (scene_id quote : String) → Yields Cited (span dg b scene_id quote)
  span-Cited scene_id quote = Yields-of Cited (span dg b scene_id quote) λ v h.
      let (text, source, start, end, there, r, cut, is) = span_resolves dg b scene_id quote v h in
      let (le, inside, _) =
        span_bounds dg b scene_id quote text source start end
          (dg.sha256_text (slice text start end)) (h ∙ rw is refl) there in
      span_ok-make_span scene_id text source v start end (scene_ref-Refers b scene_id source r)
        there (ground arith) (ground arith) is

  pub spans-AllCited : (items : List Citation) → Yields AllCited (spans dg b items)
  unfolding spans
  spans-AllCited items = each-AllCited _ items (λ c. span-Cited c.scene c.quote)
