-- ===== src/Tests/Fixtures.antt =====
-- The fixture builder on one scene, the accessor, and the wheel check.
use litharness_contracts.Prelude.{
  ℕ, String, ◌≡◌, ◌↔◌, ◌⊎◌, ◌<◌, ◌≤◌, ◌+◌, refl, arith, true, some, List, [], ◌∷◌, contains,
}
use litharness_contracts.Value.{Value, nothing}
use litharness_contracts.Serde.Typing.{HasType}
use litharness_contracts.Fixture.Text.{
  count_chars, is_prefix, drop, slice, index, index_from, count, count_after,
}
use litharness_contracts.Fixture.Bounds.{span_bounds}
use litharness_contracts.Fixture.Spec.{Spec}
use litharness_contracts.Fixture.Errors.{built, failed, occurs}
use litharness_contracts.Fixture.Builder.{
  FixtureBuilder, get, make_ref, scene_ref, record_ref, record_kind_to_resource, resolve_target,
  make_builder, builder_with, load_kinds,
}
use litharness_contracts.Fixture.Spans.{
  make_span, span, span_in, span_at, span_resolves, span_unique,
}
use litharness_contracts.Fixture.Total.{span_built_iff}
use litharness_contracts.Outcome.{ok}
use litharness_contracts.Json.{Json}
use litharness_contracts.Serde.Encode.{to_jsonable}
use litharness_contracts.Serde.Version.{parse_artifact}
use litharness_contracts.Builtins.Print.{print_nat, print_digits}
use litharness_contracts.Contracts.Manuscript.{manuscript_revision}
use litharness_contracts.Fixture.Manuscript.{manuscript, pad_3}
use litharness_contracts.Fixture.Whole.{manuscript_built}
use litharness_contracts.Tests.Samples.{runtime, digests}
use litharness_contracts.Fixture.Accessor.{fixture_ids, golden_filenames}
use litharness_contracts.Fixture.Wheel.{main, last_wheel, member_name, main-golden}

abbrev spec : Spec
spec = record {
  fixture_id = "mystery";
  book_title = "The Hound";
  scenes = record { id = "s1"; title = "One"; file_text = "the hound, the hare" } ∷ [];
  plans = [];
  state_records = [];
  gold_findings = [];
  derived_nodes = [];
  context_gold = [];
  impact_gold = [];
}

abbrev builder : FixtureBuilder
builder = record {
  spec = spec;
  fixture_id = "mystery";
  project_id = "p";
  book_id = "b";
  branch_id = "main";
  revision_id = "r1";
  scene_text = ("s1", "the hound, the hare") ∷ [];
  scene_version = ("s1", "v1") ∷ [];
  record_kinds = ("k1", "event") ∷ [];
  plan_ids = "plan-1" ∷ [];
  finding_ids = [];
  derived = [];
  query_ids = [];
}

abbrev scene : Value
scene = make_ref builder "s1" "manuscript_scene" (Value.str "v1")

abbrev hound : Value
hound = make_span scene 4 9 "hound"

finds_hound : span digests builder "s1" "hound" ≡ built hound
unfolding span span_in span_at get scene_ref count count_after index index_from is_prefix
finds_hound = refl

refuses_the : span digests builder "s1" "the" ≡ failed (occurs "s1" 2 "the")
unfolding span span_in get count count_after is_prefix
refuses_the = refl

resolves_event : resolve_target builder "k1" ≡ built (make_ref builder "k1" "state_event" nothing)
unfolding resolve_target get record_ref record_kind_to_resource
resolves_event = refl

overlapping : count "aXaXa" "aXa" ≡ 1
unfolding count count_after is_prefix
overlapping = refl

second : index "the hound, the hound" "hound," ≡ some 4
unfolding index index_from is_prefix
second = refl

span_resolves_example :
    (text : String) × (source : Value) × (start end : ℕ) × (get "s1" builder.scene_text ≡ some text)
    × (scene_ref builder "s1" ≡ built source)
    × (slice text start end ≡ "hound")
    × (hound ≡ make_span source start end (digests.sha256_text (slice text start end)))
span_resolves_example = span_resolves digests builder "s1" "hound" hound finds_hound

span_bounds_example :
    (4 ≤ 9) × (9 ≤ count_chars "the hound, the hare") × (9 ≡ 4 + count_chars "hound")
unfolding get
span_bounds_example =
    span_bounds digests builder "s1" "hound" "the hound, the hare" scene 4 9 "hound" finds_hound
      refl

span_unique_example : (◌≡◌ {A = ℕ} 4 4) ⊎ ((4 < 4) × (4 < 9))
unfolding get is_prefix drop
span_unique_example =
    span_unique digests builder "s1" "hound" "the hound, the hare" scene 4 9 4 "hound" finds_hound
      refl (refl, omega arith)

abbrev made : FixtureBuilder
made = builder_with digests spec []

makes : make_builder digests spec ≡ built made
unfolding make_builder load_kinds
makes = refl

span_built_iff_example :
    ((v : Value) × (span digests made "s1" "hare" ≡ built v))
    ↔ ((text : String) × (get "s1" made.scene_text ≡ some text) × (count text "hare" ≡ 1))
span_built_iff_example = span_built_iff digests spec made "s1" "hare" makes

third_key : pad_3 30 ≡ "030"
unfolding pad_3 print_nat print_digits
third_key = refl

manuscript_built_example :
    (v : Value) × (manuscript digests made ≡ built v)
    × HasType manuscript_revision v
    × ((x : Json) × (to_jsonable v ≡ ok x) × (parse_artifact runtime manuscript_revision x ≡ ok v))
manuscript_built_example = manuscript_built runtime digests spec made makes

-- A wheel of one file.
abbrev wheels : List (List String)
wheels = ("litharness_contracts/fixtures/golden/mystery/plans.json" ∷ []) ∷ []

main-golden_example : (main wheels ≡ 0) ↔ (
    (members : List String) × (last_wheel wheels ≡ some members)
    × ((fixture_id filename : String)
        → contains fixture_id fixture_ids ≡ true
        → contains filename golden_filenames ≡ true
        → contains (member_name fixture_id filename) members ≡ true))
main-golden_example = main-golden wheels
