-- ===== src/Contracts/State.antt =====
-- World state: the enums and dataclasses of src/litharness_contracts/state.py.
use litharness_contracts.Prelude.{[], ◌∷◌}
use litharness_contracts.Value.{Value}
use litharness_contracts.Types.{
  EnumClass, Ty, any, dataclass, default, empty_list, enum, fields, float, list, missing,
  none_default, optional, str,
}
use litharness_contracts.Contracts.Ids.{evidence_span, resource_ref, story_position}
use litharness_contracts.Contracts.Envelope.{artifact_meta}

abbrev pub state_record_kind : EnumClass
state_record_kind = record {
  name = "StateRecordKind";
  members =
      ("ASSERTION", "assertion")
      ∷ ("EVENT", "event")
      ∷ ("RELATIONSHIP", "relationship")
      ∷ ("KNOWLEDGE", "knowledge")
      ∷ ("THREAD", "thread")
      ∷ ("WORLD_RULE", "world_rule")
      ∷ ("UNKNOWN", "unknown")
      ∷ [];
}

abbrev pub state_authority : EnumClass
state_authority = record {
  name = "StateAuthority";
  members =
      ("AUTHOR_LOCKED", "author_locked")
      ∷ ("ACCEPTED_CANON", "accepted_canon")
      ∷ ("DERIVED", "derived")
      ∷ ("PROPOSED", "proposed")
      ∷ ("UNKNOWN", "unknown")
      ∷ [];
}

abbrev pub state_record : Ty
state_record = dataclass "StateRecord" (
    fields (
      ("record_id", str, missing)
      ∷ ("kind", enum state_record_kind, missing)
      ∷ ("subject", str, missing)
      ∷ ("predicate", str, missing)
      ∷ ("value", any, none_default)
      ∷ ("object_ref", optional str, none_default)
      ∷ ("story_position", optional story_position, none_default)
      ∷ ("authority", enum state_authority, default (Value.member "StateAuthority" "proposed"))
      ∷ ("pov_visibility", list str, empty_list)
      ∷ ("evidence", list evidence_span, empty_list)
      ∷ ("confidence", optional float, none_default)
      ∷ ("predicate_registry_version", optional str, none_default)
      ∷ ("note", optional str, none_default)
      ∷ []))

abbrev pub state_snapshot : Ty
state_snapshot = dataclass "StateSnapshot" (
    fields (
      ("meta", artifact_meta, missing)
      ∷ ("book_id", str, missing)
      ∷ ("branch_id", str, missing)
      ∷ ("revision_id", str, missing)
      ∷ ("records", list state_record, missing)
      ∷ ("as_of", optional story_position, none_default)
      ∷ []))

abbrev pub candidate_status : EnumClass
candidate_status = record {
  name = "CandidateStatus";
  members =
      ("PROPOSED", "proposed")
      ∷ ("ACCEPTED", "accepted")
      ∷ ("REJECTED", "rejected")
      ∷ ("UNKNOWN", "unknown")
      ∷ [];
}

abbrev pub state_candidate : Ty
state_candidate = dataclass "StateCandidate" (
    fields (
      ("candidate_id", str, missing)
      ∷ ("record", state_record, missing)
      ∷ ("extraction_source", optional resource_ref, none_default)
      ∷ ("rationale", optional str, none_default)
      ∷ ("status", enum candidate_status, default (Value.member "CandidateStatus" "proposed"))
      ∷ []))

abbrev pub state_candidate_batch : Ty
state_candidate_batch = dataclass "StateCandidateBatch" (
    fields (
      ("meta", artifact_meta, missing)
      ∷ ("book_id", str, missing)
      ∷ ("branch_id", str, missing)
      ∷ ("base_revision_id", str, missing)
      ∷ ("candidates", list state_candidate, missing)
      ∷ ("idempotency_key", str, missing)
      ∷ ("expected_base_version", optional str, none_default)
      ∷ []))
