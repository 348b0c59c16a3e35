-- ===== src/Tests/Reload.antt =====
-- JSON texts read, and a golden file of a small book read back.
use Prim.Native.String.{[] as empty, ◌∷◌ as push}
use text.Mathlib.TextLemmas.{head-eq_of_cons-eq}
use litharness_contracts.Prelude.{
  ℕ, ◌<◌, ◌^◌, Char, code, String, ◌≡◌, refl, ap, true, false, Option, none, some, List, [], find,
  str_eq, eq_iff, Bool-cases, inl, inr, ltb, ltb→lt, &&-true, arith,
}
use litharness_contracts.Prelude.Int.{ℤ, pos, negsuc}
use litharness_contracts.Json.{Json, Entries, entry, Float}
use litharness_contracts.Builtins.Print.{print_nat, max_digits}
use litharness_contracts.Builtins.Parse.{parse_ascii, parse_sign, strip_left}
use litharness_contracts.Builtins.Decimal.{parse_ascii-print_nat}
use litharness_contracts.Builtins.Lex.{act}
use litharness_contracts.Builtins.Load.{loads}
use litharness_contracts.Builtins.Numbers.{print_nat-IsWord}
use litharness_contracts.Builtins.Keys.{unambiguous}
use litharness_contracts.Builtins.Loaded.{FloatsBack}
use litharness_contracts.Builtins.Print.{print_int, print_digits}
use litharness_contracts.Builtins.Dump.{dumps, bracketed, dump_text}
use litharness_contracts.Builtins.Sorted.{sort_by_name}
use litharness_contracts.Outcome.{ok}
use litharness_contracts.Types.{Ty}
use litharness_contracts.Serde.Typing.{HasType}
use litharness_contracts.Serde.Version.{parse_artifact}
use litharness_contracts.Serde.Encode.{to_jsonable}
use litharness_contracts.Value.{Value, of_json}
use litharness_contracts.Fixture.Errors.{Built, built, failed}
use litharness_contracts.Fixture.Text.{
  count, count_after, index, index_from, is_prefix, replace_crlf,
}
use litharness_contracts.Fixture.Builder.{
  make_builder, builder_with, load_kinds, assign, get, load_texts, load_versions, scene_ref,
  record_ref, record_kind_to_resource, resolve_target,
}
use litharness_contracts.Fixture.Spans.{span, span_in, span_at, make_span}
use litharness_contracts.Fixture.Manuscript.{manuscript}
use litharness_contracts.Fixture.Parts.{truthy}
use litharness_contracts.Fixture.Plans.{plans}
use litharness_contracts.Fixture.States.{state}
use litharness_contracts.Fixture.Impacts.{impact_gold}
use litharness_contracts.Fixture.Findings.{findings}
use litharness_contracts.Fixture.Contexts.{context_gold}
use litharness_contracts.Fixture.Build.{build, build_fixture, payload_of}
use litharness_contracts.Commands.Files.{read, write, write_shown, World, Ended, ended, raised}
use litharness_contracts.Commands.Each.{write_each}
use litharness_contracts.Commands.Render.{render_golden}
use litharness_contracts.Commands.Fixtures.{write_built, main as write_goldens}
use litharness_contracts.Commands.Reload.{render_golden-loads, golden_read, file_types}
use litharness_contracts.Tests.Commands.{sample, sources, world}
use litharness_contracts.Tests.Samples.{digests, runtime}
use litharness_contracts.Tests.Build.{small_book}

-- Floats that print as a letter and their bits.
abbrev dump_bits : Float → String
dump_bits x = push "x" (print_nat x.bits)

abbrev float_of : Option ℤ → Option Float
float_of none = none
float_of (some (pos n)) = some (record { bits = n })
float_of (some (negsuc n)) = none

abbrev load_bits : String → Option Float
load_bits empty = none
load_bits (push c s) = float_of (parse_ascii s)

loads_text :
    loads load_bits
      " {\"b\": [-10, true,\t[ ]], \"a\\n\": \"\\\"\\u00e9\\ud83d\\ude00\", \"b\": null}\n"
    ≡ some (Json.dict (entry "b" Json.null (entry "a\n" (Json.str "\"é😀") Entries.end)))
unfolding loads parse_ascii parse_sign strip_left
loads_text = refl

refuses_text : loads load_bits "[1,]" ≡ none
unfolding loads parse_ascii parse_sign strip_left
refuses_text = refl

refuses_half : loads load_bits "\"\\ud83d\"" ≡ none
unfolding loads
refuses_half = refl

heads_differ :
    (c d : Char) (s t : String) → (code c ≡ code d → ⊥) → str_eq (push c s) (push d t) ≡ false
heads_differ c d s t h = elim (Bool-cases (str_eq (push c s) (push d t))) [
  | inl same ↦ absurd (h (ap code (head-eq_of_cons-eq ((eq_iff (push c s) (push d t)).0 same))))
  | inr other ↦ other
]

within : (n : ℕ) → n < 2 ^ 64 → n < 10 ^ max_digits
unfolding max_digits
within n h = omega arith

bits_back : FloatsBack dump_bits load_bits
unfolding act
bits_back = (
  refl,
  λ x h. (
    (
      (refl, print_nat-IsWord x.bits),
      refl,
      heads_differ "x" "n" (print_nat x.bits) "ull" (λ e. omega arith),
      heads_differ "x" "t" (print_nat x.bits) "rue" (λ e. omega arith),
      heads_differ "x" "f" (print_nat x.bits) "alse" (λ e. omega arith),
    ),
    ap float_of (
        parse_ascii-print_nat x.bits
          (within x.bits (ltb→lt x.bits (2 ^ 64) (&&-true (ltb x.bits (2 ^ 64)) _ h).0))),
  ),
)

world_of : Ended → World
world_of (ended w) = w
world_of (raised e w) = w

abbrev world_after : World
unfolding world_of
world_after = world_of (write_goldens digests dump_bits sources world)

runs_bits : write_goldens digests dump_bits sources world ≡ ended world_after
unfolding world_after world_of write_goldens write_each write_shown write sort_by_name build_fixture
    make_builder load_kinds render_golden dumps print_int print_digits print_nat write_built build
    payload_of span span_in span_at make_span get scene_ref record_ref record_kind_to_resource
    resolve_target count count_after index index_from is_prefix replace_crlf load_texts
    load_versions builder_with assign manuscript plans state findings context_gold impact_gold
    to_jsonable of_json truthy
runs_bits = refl

files_of : Built (List (String × Json)) → List (String × Json)
files_of (built files) = files
files_of (failed e) = []

abbrev small_files : List (String × Json)
small_files = files_of (build_fixture digests small_book)

abbrev payload_in : Option Json → Json
payload_in none = Json.null
payload_in (some x) = x

abbrev small_plans : Json
small_plans = payload_in (find "plans.json" small_files)

abbrev sample_text : String
sample_text = "{\n  \"b\": [\n    -10,\n    true\n  ],\n  \"a\\n\": \"\\\"é\",\n  \"c\": {}\n}\n"

sample_renders : render_golden dump_bits sample ≡ some sample_text
unfolding render_golden dumps bracketed dump_text print_int print_digits print_nat
sample_renders = refl

sample-unambiguous : unambiguous sample ≡ true
unfolding unambiguous
sample-unambiguous = refl

render_golden-loads_example : loads load_bits sample_text ≡ some sample
render_golden-loads_example =
    render_golden-loads dump_bits load_bits bits_back sample sample_text sample-unambiguous
      sample_renders

small_built : build_fixture digests small_book ≡ built small_files
unfolding files_of build_fixture make_builder load_kinds build payload_of span span_in span_at
    make_span get scene_ref record_ref record_kind_to_resource resolve_target count count_after
    index index_from is_prefix replace_crlf load_texts load_versions builder_with assign manuscript
    plans state findings context_gold impact_gold to_jsonable of_json truthy
small_built = refl

small_found : find "plans.json" small_files ≡ some small_plans
unfolding files_of find build_fixture make_builder load_kinds build payload_of span span_in span_at
    make_span get scene_ref record_ref record_kind_to_resource resolve_target count count_after
    index index_from is_prefix replace_crlf load_texts load_versions builder_with assign manuscript
    plans state findings context_gold impact_gold to_jsonable of_json truthy
small_found = refl

plans-unambiguous : unambiguous small_plans ≡ true
unfolding unambiguous files_of find build_fixture make_builder load_kinds build payload_of span
    span_in span_at make_span get scene_ref record_ref record_kind_to_resource resolve_target count
    count_after index index_from is_prefix replace_crlf load_texts load_versions builder_with assign
    manuscript plans state findings context_gold impact_gold to_jsonable of_json truthy
plans-unambiguous = refl

golden_read_example :
    (text : String) × (read "mystery" "plans.json" world_after.files ≡ some text)
    × (loads load_bits text ≡ some small_plans)
    × (t : Ty) × (find "plans.json" file_types ≡ some t)
    × (v : Value) × HasType t v
    × (to_jsonable v ≡ ok small_plans)
    × (parse_artifact runtime t small_plans ≡ ok v)
unfolding find
golden_read_example =
    golden_read dump_bits load_bits bits_back digests runtime sources world world_after "mystery"
      "plans.json" small_book small_files small_plans refl runs_bits refl refl refl small_built
      small_found plans-unambiguous
