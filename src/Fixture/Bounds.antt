-- ===== src/Fixture/Bounds.antt =====
-- The offsets of an evidence span.
use Prim.Native.String.{[], ◌∷◌}
use litharness_contracts.Prelude.{
  ℕ, zero, suc, ◌+◌, ◌-◌, ◌≤◌, String, ◌≡◌, sym, ◌∙◌, some, some-eq, ◌==◌, true, &&-true, arith,
}
use litharness_contracts.Prelude.{code}
use litharness_contracts.Value.{Value}
use litharness_contracts.Fixture.Text.{count_chars, is_prefix, drop}
use litharness_contracts.Fixture.Occurrences.{OccursAt, index-IsFirst}
use litharness_contracts.Fixture.Errors.{built}
use litharness_contracts.Fixture.Builder.{Digests, FixtureBuilder, get}
use litharness_contracts.Fixture.Spans.{make_span, make_span-eq, span, span-Located}

prefix_length :
    (quote text : String) → is_prefix quote text ≡ true → count_chars quote ≤ count_chars text
unfolding is_prefix
prefix_length [] text h = omega arith
prefix_length (c ∷ quote) [] h = cc
prefix_length (c ∷ quote) (d ∷ text) h =
    let (_, rest) = &&-true (code c == code d) (is_prefix quote text) h in
    omega (arith, prefix_length quote text rest)

count_chars-drop : (i : ℕ) (text : String) → count_chars (drop i text) ≡ count_chars text - i
unfolding drop
count_chars-drop zero text = omega arith
count_chars-drop (suc i) [] = omega arith
count_chars-drop (suc i) (c ∷ text) = omega (arith, count_chars-drop i text)

OccursAt-le :
    (text quote : String) (i : ℕ) → OccursAt text quote i → i + count_chars quote ≤ count_chars text
OccursAt-le text quote i (h, le) =
    omega (arith, prefix_length quote (drop i text) h, count_chars-drop i text)

-- The offsets of a span that is built lie in the scene's text, and are apart by the length of the
-- quote.
pub span_bounds :
    (dg : Digests) (b : FixtureBuilder) (scene_id quote text : String) (source : Value)
    (start end : ℕ) (digest : String)
    → span dg b scene_id quote ≡ built (make_span source start end digest)
    → get scene_id b.scene_text ≡ some text
    → (start ≤ end) × (end ≤ count_chars text) × (end ≡ start + count_chars quote)
span_bounds dg b scene_id quote text source start end digest h e =
    let (text', source', start', e', _, one, o, is) =
      span-Located dg b scene_id quote (make_span source start end digest) h in
    let same : text' ≡ text = some-eq (sym e' ∙ e) in
    let (starts, ends) = make_span-eq source source' digest (dg.sha256_text quote) is in
    let inside = OccursAt-le text' quote start' (index-IsFirst text' quote start' o).0 in
    let inside' : start' + count_chars quote ≤ count_chars text = rw same at inside in
    (omega arith, omega arith, omega arith)
