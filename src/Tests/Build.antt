-- ===== src/Tests/Build.antt =====
-- A whole fixture: each of the builder's methods on a small book.
use litharness_contracts.Prelude.{inl, inr, String, ◌≡◌, refl, true, none, some, List, [], ◌∷◌, map}
use litharness_contracts.Prelude.Int.{pos}
use litharness_contracts.Json.{Json, Entries, entry}
use litharness_contracts.Value.{Value, nothing, of_json}
use litharness_contracts.Fixture.Cited.{cited}
use litharness_contracts.Fixture.Cited.Methods.{evidence_cited}
use litharness_contracts.Serde.Encode.{to_jsonable}
use litharness_contracts.Fixture.Spec.{Citation, Spec}
use litharness_contracts.Fixture.Errors.{Built, built, failed}
use litharness_contracts.Fixture.Text.{
  count, count_after, index, index_from, is_prefix, replace_crlf,
}
use litharness_contracts.Fixture.Builder.{
  FixtureBuilder, make_builder, builder_with, load_kinds, assign, get, load_texts, load_versions,
  scene_ref, record_ref, record_kind_to_resource, resolve_target,
}
use litharness_contracts.Fixture.Spans.{span, span_in, span_at, make_span}
use litharness_contracts.Fixture.Manuscript.{manuscript}
use litharness_contracts.Fixture.Plans.{plans}
use litharness_contracts.Fixture.States.{state}
use litharness_contracts.Fixture.Impacts.{impact_gold}
use litharness_contracts.Fixture.Findings.{findings, sorted_set}
use litharness_contracts.Fixture.Contexts.{context_gold}
use litharness_contracts.Fixture.Accessor.{golden_filenames}
use litharness_contracts.Fixture.Build.{
  build, payload_of, AllWritten, written_types, artifacts, build_written,
}
use litharness_contracts.Tests.Samples.{runtime}
use litharness_contracts.Tests.Samples.{digests}

abbrev hound : Citation
hound = record { scene = "s1"; quote = "hound" }

abbrev pub small_book : Spec
small_book = record {
  fixture_id = "mystery";
  book_title = "The Hound";
  scenes =
      record { id = "s1"; title = "One"; file_text = "the hound, the hare" }
      ∷ record { id = "s2"; title = "Two"; file_text = "home" }
      ∷ [];
  plans =
      record {
        id = "plan-1";
        kind = "promise";
        text = "He returns.";
        authority = "intended";
        locked = some (Json.bool true);
      }
      ∷ [];
  state_records =
      record {
        id = "k1";
        kind = "event";
        subject = "hound";
        predicate = "seen";
        value = some (Json.str "once");
        position = "s1";
        authority = "accepted_canon";
        pov_visibility = "mara" ∷ [];
        evidence = hound ∷ [];
        note = none;
      }
      ∷ [];
  gold_findings =
      record {
        id = "f1";
        category = "timeline";
        status = "open";
        severity = "minor";
        message = "m";
        subtype = none;
        primary = hound;
        supporting = record { scene = "s2"; quote = "home" } ∷ hound ∷ [];
        rule_id = some "r";
        claim = entry "a" (Json.int (pos 1)) Entries.end;
        dependencies = "k1" ∷ "plan-1" ∷ [];
      }
      ∷ [];
  derived_nodes = "summary:s1" ∷ [];
  context_gold =
      record {
        id = "q1";
        operation = "draft_scene";
        target = "s2";
        token_budget = pos 4000;
        pov = none;
        intent = some "i";
        mandatory =
            record {
              reason = "r";
              scene = some "s1";
              quote = some "hound";
              state_record = none;
              plan = none;
            }
            ∷ [];
        forbidden =
            record {
              reason = "r";
              scene = none;
              quote = none;
              state_record = some "k1";
              plan = none;
            }
            ∷ [];
        notes = none;
      }
      ∷ [];
  impact_gold =
      record {
        id = "e1";
        description = "d";
        operations =
            record {
              kind = "replace_span";
              scene = some "s1";
              quote = some "hound";
              anchor_quote = none;
              new_text = some "dog";
              entity = none;
              detail = Entries.end;
            }
            ∷ record {
              kind = "rename";
              scene = none;
              quote = none;
              anchor_quote = none;
              new_text = none;
              entity = some "mara";
              detail = entry "to" (Json.str "m") Entries.end;
            }
            ∷ [];
        extracted_changes =
            record {
              kind = "entity_renamed";
              subject = some "mara";
              predicate = none;
              before = none;
              after = some (Json.str "m");
            }
            ∷ [];
        declared_intent = none;
        expected =
            record { target = "summary:s1"; label = "derived_only"; note = none }
            ∷ record { target = "entity:mara"; label = "must_update"; note = some "n" }
            ∷ [];
      }
      ∷ [];
}

abbrev pub made : FixtureBuilder
made = builder_with digests small_book (("k1", "event") ∷ [])

pub makes : make_builder digests small_book ≡ built made
unfolding make_builder load_kinds assign
makes = refl

files_of : Built (List (String × Json)) → List (String × Json)
files_of (built files) = files
files_of (failed e) = []

abbrev files : List (String × Json)
unfolding files_of
files = files_of (build digests made)

builds : build digests made ≡ built files
unfolding build files files_of payload_of span span_in span_at make_span get scene_ref record_ref
    record_kind_to_resource resolve_target count count_after index index_from is_prefix replace_crlf
    load_texts load_versions builder_with assign manuscript plans state findings context_gold
    impact_gold to_jsonable of_json
builds = refl

build_written_example :
    (map (λ f. f.0) files ≡ golden_filenames)
    × AllWritten runtime written_types (artifacts digests made) files
build_written_example = build_written runtime digests small_book made files makes builds

scenes_sorted : sorted_set ("s2" ∷ "s1" ∷ "s2" ∷ []) ≡ "s1" ∷ "s2" ∷ []
unfolding sorted_set
scenes_sorted = refl

value_of : Built Value → Value
value_of (built v) = v
value_of (failed e) = nothing

abbrev found : Value
unfolding value_of
found = value_of (findings digests made)

finds : findings digests made ≡ built found
unfolding found value_of span span_in span_at make_span get scene_ref record_ref
    record_kind_to_resource resolve_target count count_after index index_from is_prefix replace_crlf
    load_texts load_versions builder_with assign findings of_json
finds = refl

evidence_cited_example : cited digests made found ≡ true
evidence_cited_example = evidence_cited digests made found (inr (inl finds))
