-- ===== src/Fixture/Spans.antt =====
-- `FixtureBuilder.span`: the evidence span of a quote.
use litharness_contracts.Prelude.{
  ℕ, ◌+◌, ◌-◌, ◌<◌, String, ◌≡◌, refl, sym, ◌∙◌, ◌⊎◌, inl, inr, Option, none, some, some-eq, ◌==◌,
  if◌then◌else◌, Bool-cases, arith,
}
use litharness_contracts.Prelude.Int.{pos}
use litharness_contracts.Value.{Value, Attrs, attr, nothing, instance_of}
use litharness_contracts.Fixture.Text.{count_chars, drop, slice, count, index}
use litharness_contracts.Fixture.Occurrences.{
  OccursAt, take-is_prefix, index-IsFirst, count_one_unique,
}
use litharness_contracts.Fixture.Errors.{Built, built, failed, key_error, occurs, unknown_scene}
use litharness_contracts.Fixture.Builder.{Digests, FixtureBuilder, get, scene_ref}

-- An `EvidenceSpan` of the builder, with no anchors.
unfoldable pub make_span : Value → ℕ → ℕ → String → Value
make_span source start end digest = instance_of "EvidenceSpan" (
    attr "source" source (
      attr "start" (Value.int (pos start)) (
        attr "end" (Value.int (pos end)) (
          attr "content_sha256" (Value.str digest)
            (attr "anchor_before" nothing (attr "anchor_after" nothing Attrs.end))))))

pub built-eq : {u v : Value} → built u ≡ built v → v ≡ u
built-eq h = cc

pub make_span-eq :
    (u v : Value) (s t : String) {a b i j : ℕ}
    → make_span u a b s ≡ make_span v i j t
    → (a ≡ i) × (b ≡ j)
unfolding make_span
make_span-eq u v s t h = (cc, cc)

slice-at :
    (text quote : String) (start : ℕ)
    → OccursAt text quote start
    → slice text start (start + count_chars quote) ≡ quote
unfolding slice
slice-at text quote start (h, le) =
    let size : start + count_chars quote - start ≡ count_chars quote = omega arith in
    rw size (take-is_prefix quote (drop start text) h)

module _ (dg : Digests) where
  -- the span at the place that `index` gives, which a counted match ensures
  unfoldable pub span_at : Built Value → String → Option ℕ → Built Value
  span_at (failed e) quote start = failed e
  span_at (built source) quote none = failed (key_error quote)
  span_at (built source) quote (some start) =
      built (make_span source start (start + count_chars quote) (dg.sha256_text quote))

  unfoldable pub span_in : FixtureBuilder → String → String → Option String → Built Value
  span_in b scene_id quote none = failed (unknown_scene scene_id)
  span_in b scene_id quote (some text) =
      if count text quote == 1
      then span_at (scene_ref b scene_id) quote (index text quote)
      else failed (occurs scene_id (count text quote) quote)

  unfoldable pub span : FixtureBuilder → String → String → Built Value
  span b scene_id quote = span_in b scene_id quote (get scene_id b.scene_text)

  -- The span is right for the text: it lies where the quote is counted once.
  abbrev pub Located : FixtureBuilder → String → String → Value → Type 0
  Located b scene_id quote v =
      (text : String) × (source : Value) × (start : ℕ) × (get scene_id b.scene_text ≡ some text)
      × (scene_ref b scene_id ≡ built source)
      × (count text quote ≡ 1)
      × (index text quote ≡ some start)
      × (v ≡ make_span source start (start + count_chars quote) (dg.sha256_text quote))

  span_at-built :
      (r : Built Value) (quote : String) (o : Option ℕ) (v : Value)
      → span_at r quote o ≡ built v
      → (source : Value) × (start : ℕ) × (r ≡ built source)
        × (o ≡ some start)
        × (v ≡ make_span source start (start + count_chars quote) (dg.sha256_text quote))
  unfolding span_at
  span_at-built (failed e) quote none v h = absurd (cc)
  span_at-built (failed e) quote (some k) v h = absurd (cc)
  span_at-built (built source) quote none v h = absurd (cc)
  span_at-built (built source) quote (some k) v h = (source, k, refl, refl, built-eq h)

  span_in-Located :
      (b : FixtureBuilder) (scene_id quote : String) (o : Option String) (v : Value)
      → get scene_id b.scene_text ≡ o
      → span_in b scene_id quote o ≡ built v
      → Located b scene_id quote v
  unfolding span_in
  span_in-Located b scene_id quote none v e h = absurd (cc)
  span_in-Located b scene_id quote (some text) v e h = elim (Bool-cases (count text quote == 1)) [
    | inl one ↦
        let (source, start, r, o, is) =
          span_at-built (scene_ref b scene_id) quote (index text quote) v (rw one at h) in
        (text, source, start, e, r, ground arith, o, is)
    | inr more ↦
        let bad : failed (occurs scene_id (count text quote) quote) ≡ built v = rw more at h in
        absurd (cc)
  ]

  pub span-Located :
      (b : FixtureBuilder) (scene_id quote : String) (v : Value)
      → span b scene_id quote ≡ built v
      → Located b scene_id quote v
  unfolding span
  span-Located b scene_id quote v h = span_in-Located b scene_id quote _ v refl h

  -- A span that is built cites its scene, and the text between its offsets is the quote, whose
  -- digest it holds.
  pub span_resolves :
      (b : FixtureBuilder) (scene_id quote : String) (v : Value)
      → span b scene_id quote ≡ built v
      → (text : String) × (source : Value) × (start end : ℕ) × (get scene_id b.scene_text
          ≡ some text)
        × (scene_ref b scene_id ≡ built source)
        × (slice text start end ≡ quote)
        × (v ≡ make_span source start end (dg.sha256_text (slice text start end)))
  span_resolves b scene_id quote v h =
      let (text, source, start, e, r, one, o, is) = span-Located b scene_id quote v h in
      let cited = slice-at text quote start (index-IsFirst text quote start o).0 in
      (text, source, start, start + count_chars quote, e, r, cited, rw cited is)

  -- A quote of which a span is built stands nowhere else in its scene, but for places where it
  -- overlaps the span.
  pub span_unique :
      (b : FixtureBuilder) (scene_id quote text : String) (source : Value) (start end j : ℕ)
      (digest : String)
      → span b scene_id quote ≡ built (make_span source start end digest)
      → get scene_id b.scene_text ≡ some text
      → OccursAt text quote j
      → (j ≡ start) ⊎ ((start < j) × (j < end))
  span_unique b scene_id quote text source start end j digest h e there =
      let (text', source', start', e', _, one, o, is) =
        span-Located b scene_id quote (make_span source start end digest) h in
      let same : text' ≡ text = some-eq (sym e' ∙ e) in
      let (starts, ends) = make_span-eq source source' digest (dg.sha256_text quote) is in
      elim (count_one_unique text quote start' j (rw same at one) (rw same at o) there) [
        | inl at ↦ inl (at ∙ sym starts)
        | inr (behind, near) ↦ inr (omega arith, omega arith)
      ]
