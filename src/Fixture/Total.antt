-- ===== src/Fixture/Total.antt =====
-- Which calls of `FixtureBuilder.span` succeed, on a builder that `__init__` has made.
use litharness_contracts.Prelude.{
  String, ◌≡◌, ◌↔◌, refl, sym, ◌∙◌, ap, Bool, true, false, ◌||◌, some, List, [], ◌∷◌, str_eq,
  eq_iff, Bool-cases, Option-cases, inl, inr, ◌+◌, subst,
}
use litharness_contracts.Value.{Value}
use litharness_contracts.Fixture.Text.{count, count_chars}
use litharness_contracts.Fixture.Occurrences.{index_of_count_one}
use litharness_contracts.Fixture.Spec.{Scene, Spec}
use litharness_contracts.Fixture.Errors.{built, bind_built, built-injective}
use litharness_contracts.Fixture.Builder.{
  Digests, FixtureBuilder, assign, get, load_texts, load_versions, load_kinds, builder_with,
  make_builder, scene_ref, is_some, make_ref,
}
use litharness_contracts.Fixture.Spans.{span, span_in, span_at, make_span, span-Located}

-- `key in d`
abbrev pub has : String → List (String × String) → Bool
has k d = is_some (get k d)

has-entry :
    (k i v : String) (d : List (String × String)) → has k ((i, v) ∷ d) ≡ (str_eq i k || has k d)
unfolding get
has-entry k i v d = elim (Bool-cases (str_eq i k)) [
  | inl same ↦ rw same refl
  | inr other ↦ rw other refl
]

pub has-assign :
    (k j v : String) (d : List (String × String)) → has k (assign j v d) ≡ (str_eq j k || has k d)
unfolding assign
has-assign k j v [] = has-entry k j v []
has-assign k j v ((i, w) ∷ d) = elim (Bool-cases (str_eq i j)) [
  | inl same ↦
      let key : i ≡ j = (eq_iff i j).0 same in
      rw (same, has-entry k i v d, has-entry k i w d, key) (twice (str_eq j k) (has k d))
  | inr other ↦
      rw (other, has-entry k i w (assign j v d), has-entry k i w d, has-assign k j v d)
        (swap (str_eq i k) (str_eq j k) (has k d))
]
  where
    twice : (a b : Bool) → (a || b) ≡ (a || (a || b))
    twice true b = refl
    twice false b = refl

    swap : (a b c : Bool) → (a || (b || c)) ≡ (b || (a || c))
    swap true true c = refl
    swap true false c = refl
    swap false b c = refl

abbrev pub SameKeys : List (String × String) → List (String × String) → Type 0
SameKeys d e = (k : String) → has k d ≡ has k e

assign-SameKeys :
    (j v w : String) (d e : List (String × String))
    → SameKeys d e
    → SameKeys (assign j v d) (assign j w e)
assign-SameKeys j v w d e h k = rw (has-assign k j v d, has-assign k j w e, h k) refl

load-SameKeys :
    (dg : Digests) (fixture : String) (scenes : List Scene)
    (texts versions : List (String × String))
    → SameKeys texts versions
    → SameKeys (load_texts dg scenes texts) (load_versions dg fixture scenes versions)
unfolding load_texts load_versions
load-SameKeys dg fixture [] texts versions h = h
load-SameKeys dg fixture (scene ∷ scenes) texts versions h =
    load-SameKeys dg fixture scenes _ _ (assign-SameKeys scene.id _ _ texts versions h)

-- A builder has a version of each scene of which it has the text, and of no other.
pub made-SameKeys :
    (dg : Digests) (spec : Spec) (b : FixtureBuilder)
    → make_builder dg spec ≡ built b
    → SameKeys b.scene_text b.scene_version
unfolding make_builder builder_with
made-SameKeys dg spec b h =
    let (kinds, _, made) = bind_built (load_kinds spec.state_records []) _ h in
    subst (λ c. SameKeys c.scene_text c.scene_version) (built-injective made)
      (load-SameKeys dg spec.fixture_id spec.scenes [] [] (λ k. refl))

scene_ref-built :
    (b : FixtureBuilder) (id : String)
    → has id b.scene_version ≡ true
    → (source : Value) × (scene_ref b id ≡ built source)
unfolding scene_ref
scene_ref-built b id h = elim (Option-cases (get id b.scene_version)) [
  | inl lacks ↦ let bad : false ≡ true = rw lacks at h in absurd (cc)
  | inr (v, is) ↦ (make_ref b id "manuscript_scene" (Value.str v), rw is refl)
]

pub span_of_one :
    (dg : Digests) (b : FixtureBuilder) (id quote text : String)
    → SameKeys b.scene_text b.scene_version
    → get id b.scene_text ≡ some text
    → count text quote ≡ 1
    → (v : Value) × (span dg b id quote ≡ built v)
unfolding span span_in span_at
span_of_one dg b id quote text same e one =
    let known : has id b.scene_version ≡ true = sym (same id) ∙ ap is_some e in
    let (source, r) = scene_ref-built b id known in
    let (start, i, _) = index_of_count_one text quote one in
    let cited = make_span source start (start + count_chars quote) (dg.sha256_text quote) in
    (cited, rw (e, one, r, i) refl)

-- On a builder that is made of a specification, a span is built exactly for the scenes of which it
-- has the text and the quotes that are counted once in that text.
pub span_built_iff :
    (dg : Digests) (spec : Spec) (b : FixtureBuilder) (scene_id quote : String)
    → make_builder dg spec ≡ built b
    → ((v : Value) × (span dg b scene_id quote ≡ built v))
      ↔ ((text : String) × (get scene_id b.scene_text ≡ some text) × (count text quote ≡ 1))
span_built_iff dg spec b scene_id quote made = (
  λ (v, h).
      let (text, source, start, e, r, one, o, is) = span-Located dg b scene_id quote v h in
      (text, e, one),
  λ (text, e, one). span_of_one dg b scene_id quote text (made-SameKeys dg spec b made) e one,
)
