-- ===== src/Tests/Samples.antt =====
-- Concrete values for the runs.
use litharness_contracts.Prelude.{none, some}
use litharness_contracts.Prelude.Int.{pos, negsuc}
use litharness_contracts.Json.{Json, Entries, entry}
use litharness_contracts.Value.{Value, Attrs, attr, nothing, member, instance_of}
use litharness_contracts.Runtime.{Runtime}
use litharness_contracts.Fixture.Builder.{Digests}

-- Two ints that convert, and one overflow.
abbrev pub runtime : Runtime
runtime = record {
  float_of_int = elim [ pos n ↦ some (record { bits = n }) | negsuc n ↦ none ];
  str_float = λ x. "0.5";
  str_items = λ xs. "]";
  str_entries = λ m. "}";
  int_of_text = λ s. none;
}

-- a reference to a scene with no version, as an object and as data
abbrev pub scene_reference : Value
scene_reference = instance_of "ResourceRef" (
    attr "project_id" (Value.str "p") (
      attr "book_id" (Value.str "b") (
        attr "branch_id" (Value.str "main") (
          attr "logical_id" (Value.str "scene-1") (
            attr "kind" (member "ResourceKind" "manuscript_scene")
              (attr "version_id" nothing Attrs.end))))))

abbrev pub scene_reference_data : Json
scene_reference_data = Json.dict (
    entry "project_id" (Json.str "p") (
      entry "book_id" (Json.str "b") (
        entry "branch_id" (Json.str "main") (
          entry "logical_id" (Json.str "scene-1")
            (entry "kind" (Json.str "manuscript_scene") Entries.end)))))

-- Digests that keep their text.
abbrev pub digests : Digests
digests = record { uuid5 = λ s. s; sha256_text = λ s. s }
