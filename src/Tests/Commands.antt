-- ===== src/Tests/Commands.antt =====
-- The commands of tools/ on a small book, and what they print of data.
use litharness_contracts.Prelude.{
  String, ◌≡◌, ◌≢◌, ◌⊎◌, refl, true, false, some, List, [], ◌∷◌, find,
}
use litharness_contracts.Prelude.Int.{negsuc}
use litharness_contracts.Json.{Json, Items, Entries, item, entry, Float}
use litharness_contracts.Value.{of_json}
use litharness_contracts.Serde.Encode.{to_jsonable}
use litharness_contracts.Builtins.Print.{print_int, print_digits, print_nat}
use litharness_contracts.Builtins.Dump.{dumps, bracketed, dump_text}
use litharness_contracts.Builtins.Sorted.{sort_by_name}
use litharness_contracts.Contracts.Registry.{all_schema_types}
use litharness_contracts.Fixture.Spec.{Spec}
use litharness_contracts.Fixture.Text.{
  count, count_after, index, index_from, is_prefix, replace_crlf,
}
use litharness_contracts.Fixture.Builder.{
  make_builder, builder_with, load_kinds, assign, get, load_texts, load_versions, scene_ref,
  record_ref, record_kind_to_resource, resolve_target,
}
use litharness_contracts.Fixture.Spans.{span, span_in, span_at, make_span}
use litharness_contracts.Fixture.Manuscript.{manuscript}
use litharness_contracts.Fixture.Parts.{truthy}
use litharness_contracts.Fixture.Plans.{plans}
use litharness_contracts.Fixture.States.{state}
use litharness_contracts.Fixture.Impacts.{impact_gold}
use litharness_contracts.Fixture.Findings.{findings}
use litharness_contracts.Fixture.Contexts.{context_gold}
use litharness_contracts.Fixture.Accessor.{golden_path, found}
use litharness_contracts.Types.{Ty}
use litharness_contracts.Fixture.Build.{build, build_fixture, payload_of}
use litharness_contracts.Commands.Files.{read, write, write_shown, World, Ended, ended, raised}
use litharness_contracts.Commands.Each.{write_each}
use litharness_contracts.Commands.Render.{render_golden, render_schema}
use litharness_contracts.Commands.Fixtures.{write_built, main as write_goldens}
use litharness_contracts.Commands.Rebuild.{main_twice}
use litharness_contracts.Commands.Left.{left, main-left, IsGolden}
use litharness_contracts.Commands.Shipped.{is_golden, main-found, Rendered}
use litharness_contracts.Commands.Schemas.{
  main as write_schemas, main-schemas, schema_file, schema_id,
}
use litharness_contracts.Tests.Samples.{digests}
use litharness_contracts.Tests.Build.{small_book}

abbrev dump_float : Float → String
dump_float x = "0.5"

abbrev pub sample : Json
sample = Json.dict (
    entry "b" (Json.list (item (Json.int (negsuc 9)) (item (Json.bool true) Items.nil)))
      (entry "a\n" (Json.str "\"é") (entry "c" (Json.dict Entries.end) Entries.end)))

dumps_plain :
    dumps false false dump_float sample
    ≡ some "{\n  \"b\": [\n    -10,\n    true\n  ],\n  \"a\\n\": \"\\\"é\",\n  \"c\": {}\n}"
unfolding dumps bracketed dump_text print_int print_digits print_nat
dumps_plain = refl

dumps_sorted :
    dumps true true dump_float sample
    ≡ some "{\n  \"a\\n\": \"\\\"\\u00e9\",\n  \"b\": [\n    -10,\n    true\n  ],\n  \"c\": {}\n}"
unfolding dumps bracketed dump_text print_int print_digits print_nat sort_by_name
dumps_sorted = refl

dumps_pair : dumps true true dump_float (Json.str "😀") ≡ some "\"\\ud83d\\ude00\""
unfolding dumps dump_text
dumps_pair = refl

abbrev pub sources : List (String × Spec)
sources = ("mystery", small_book) ∷ []

abbrev pub world : World
world = record {
  files = ("mystery", "plans.json", "old") ∷ ("mystery", "notes.txt", "kept") ∷ [];
  printed = [];
}

world_of : Ended → World
world_of (ended w) = w
world_of (raised e w) = w

abbrev after : World
unfolding world_of
after = world_of (write_goldens digests dump_float sources world)

runs : write_goldens digests dump_float sources world ≡ ended after
unfolding after world_of write_goldens write_each write_shown write sort_by_name build_fixture
    make_builder load_kinds render_golden dumps print_int print_digits print_nat write_built build
    payload_of span span_in span_at make_span get scene_ref record_ref record_kind_to_resource
    resolve_target count count_after index index_from is_prefix replace_crlf load_texts
    load_versions builder_with assign manuscript plans state findings context_gold impact_gold
    to_jsonable of_json truthy
runs = refl

main_twice_example :
    (v : World) × (write_goldens digests dump_float sources after ≡ ended v)
    × ((name filename : String) → read name filename v.files ≡ read name filename after.files)
main_twice_example = main_twice digests dump_float sources world after refl runs

main-found_example :
    (golden_path (some "golden") (is_golden after.files) "mystery" "plans.json"
      ≡ found (record { root = "golden"; fixture_id = "mystery"; filename = "plans.json" }))
    × (text : String) × (read "mystery" "plans.json" after.files ≡ some text)
    × Rendered digests dump_float small_book "plans.json" text
unfolding find
main-found_example =
    main-found digests dump_float sources world after "golden" "mystery" "plans.json" small_book
      refl runs refl refl refl

main-schemas_example :
    (w' : World) × (write_schemas dump_float world ≡ ended w')
    × ((n : String) (t : Ty)
        → find n all_schema_types ≡ some t
        → (text : String) × (read "schemas" (schema_file n) w'.files ≡ some text)
          × (render_schema dump_float t (schema_id n) ≡ some text))
    × ((d m : String) → d ≢ "schemas" → read d m w'.files ≡ read d m world.files)
main-schemas_example = main-schemas dump_float world

-- a second book, with a quote that its scene lacks
abbrev with_broken : List (String × Spec)
with_broken =
    (
      "torn",
      record small_book { scenes = record { id = "s1"; title = "One"; file_text = "-" } ∷ [] },
    )
    ∷ ("mystery", small_book)
    ∷ []

main-left_example :
    let r =
      read "mystery" "plans.json"
        (left (write_goldens digests dump_float with_broken world)).files in
    (r ≡ read "mystery" "plans.json" world.files)
    ⊎ IsGolden digests dump_float with_broken "mystery" "plans.json" r
main-left_example = main-left digests dump_float with_broken world "mystery" "plans.json" refl
