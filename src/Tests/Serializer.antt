-- ===== src/Tests/Serializer.antt =====
-- The serializer on a reference, on enums and on payload versions.
use litharness_contracts.Prelude.{find, ◌≡◌, refl, arith, true, [], ◌∷◌}
use litharness_contracts.Outcome.{ok, err, incompatible_version, at_path, missing_field, key}
use litharness_contracts.Json.{Json, Entries, entry}
use litharness_contracts.Value.{Value, Attrs, attr, nothing, member, instance_of, of_json}
use litharness_contracts.Types.{enum, has_value}
use litharness_contracts.Builtins.Print.{print_nat, print_digits, max_digits}
use litharness_contracts.Serde.Encode.{to_jsonable}
use litharness_contracts.Serde.Decode.{
  from_jsonable, load_enum, load_str, load_dict, load_entries, absent,
}
use litharness_contracts.Serde.Typing.{HasType}
use litharness_contracts.Serde.Version.{str_of, declared_schema_version, parse_artifact}
use litharness_contracts.Contracts.Ids.{resource_ref, resource_kind}
use litharness_contracts.Contracts.Registered.{nth}
use litharness_contracts.Contracts.Artifacts.{
  round_trip, enum_total, decoded_stable, parse_artifact-to_jsonable,
}
use litharness_contracts.Contracts.Events.{event_envelope}
use litharness_contracts.Serde.Gate.{parse_artifact_gate}
use litharness_contracts.Serde.Defaults.{typed_defaults, fits}
use litharness_contracts.Serde.Sound.{from_jsonable-HasType}
use litharness_contracts.Tests.Samples.{runtime, scene_reference, scene_reference_data}

pub writes : to_jsonable scene_reference ≡ ok scene_reference_data
unfolding to_jsonable
writes = refl

reads : from_jsonable runtime resource_ref [] scene_reference_data ≡ ok scene_reference
unfolding from_jsonable load_enum load_str absent
reads = refl

misses :
    from_jsonable runtime resource_ref [] (Json.dict Entries.end)
    ≡ err (at_path [] (missing_field "project_id" "ResourceRef"))
unfolding from_jsonable absent
misses = refl

pub scene_reference-HasType : HasType resource_ref scene_reference
unfolding typed_defaults fits
scene_reference-HasType =
    from_jsonable-HasType runtime resource_ref [] scene_reference_data scene_reference refl reads

round_trip_example :
    (x : Json) × (to_jsonable scene_reference ≡ ok x)
    × (from_jsonable runtime resource_ref (key "source" ∷ []) x ≡ ok scene_reference)
unfolding find
round_trip_example =
    round_trip runtime "resource_ref" resource_ref scene_reference (key "source" ∷ []) refl
      scene_reference-HasType

decoded_stable_example :
    HasType resource_ref scene_reference
    × ((y : Json) × (to_jsonable scene_reference ≡ ok y)
        × (from_jsonable runtime resource_ref [] y ≡ ok scene_reference))
unfolding find
decoded_stable_example =
    decoded_stable runtime "resource_ref" resource_ref scene_reference [] scene_reference_data refl
      reads

enum_total_example :
    (from_jsonable runtime (enum resource_kind) [] (Json.str "hologram")
      ≡ ok (member "ResourceKind" "unknown"))
    × (has_value resource_kind "unknown" ≡ true)
unfolding nth
enum_total_example = enum_total runtime 0 resource_kind [] (Json.str "hologram") refl

-- an event of the version 1.7.3
abbrev event_data : Json
event_data = Json.dict (
    entry "schema_version" (Json.str "1.7.3") (
      entry "event_id" (Json.str "e") (
        entry "event_type" (Json.str "JobFailed") (
          entry "created_at" (Json.str "t") (
            entry "actor" (Json.str "a") (
              entry "project_id" (Json.str "p") (
                entry "idempotency_key" (Json.str "k")
                  (entry "payload" (Json.dict Entries.end) Entries.end))))))))

-- what it decodes to
abbrev event : Value
event = instance_of "EventEnvelope" (
    attr "schema_version" (Value.str "1.7.3") (
      attr "event_id" (Value.str "e") (
        attr "event_type" (member "EventType" "JobFailed") (
          attr "created_at" (Value.str "t") (
            attr "actor" (Value.str "a") (
              attr "project_id" (Value.str "p") (
                attr "idempotency_key" (Value.str "k") (
                  attr "book_id" nothing (
                    attr "branch_id" nothing (
                      attr "revision_id" nothing (
                        attr "causation_id" nothing (
                          attr "correlation_id" nothing (
                            attr "expected_version" nothing (
                              attr "payload" (Value.dict Attrs.end)
                                (attr "payload_digest" nothing Attrs.end)))))))))))))))

event_reads : from_jsonable runtime event_envelope [] event_data ≡ ok event
unfolding from_jsonable load_enum load_str load_dict load_entries absent of_json
event_reads = refl

event_writes : to_jsonable event ≡ ok event_data
unfolding to_jsonable
event_writes = refl

event_declares : declared_schema_version runtime event_data ≡ ok "1.7.3"
unfolding declared_schema_version str_of
event_declares = refl

parse_artifact-to_jsonable_example : parse_artifact runtime event_envelope event_data ≡ ok event
unfolding find typed_defaults fits
parse_artifact-to_jsonable_example =
    parse_artifact-to_jsonable runtime "event_envelope" event_envelope event event_data "7.3" refl
      (from_jsonable-HasType runtime event_envelope [] event_data event refl event_reads)
      event_writes event_declares

parse_artifact_gate_example :
    parse_artifact runtime event_envelope
      (Json.dict (entry "schema_version" (Json.str "12.0") Entries.end))
    ≡ err (incompatible_version "12.0")
unfolding declared_schema_version str_of print_nat print_digits max_digits
parse_artifact_gate_example =
    parse_artifact_gate runtime event_envelope
      (Json.dict (entry "schema_version" (Json.str "12.0") Entries.end)) 12 "0" (omega arith) refl
