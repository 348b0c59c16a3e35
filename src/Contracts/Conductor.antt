-- ===== src/Contracts/Conductor.antt =====
-- The artifacts of the conductor: the enums and dataclasses of src/litharness_contracts/conductor.py.
use litharness_contracts.Prelude.{[], ◌∷◌, true}
use litharness_contracts.Prelude.Int.{pos}
use litharness_contracts.Value.{Value}
use litharness_contracts.Types.{
  EnumClass, Ty, any, bool, dataclass, default, dict, empty_dict, empty_list, enum, fields, float,
  int, list, missing, none_default, optional, str,
}
use litharness_contracts.Contracts.Ids.{resource_ref}
use litharness_contracts.Contracts.Envelope.{artifact_meta}

abbrev pub directive_kind : EnumClass
directive_kind = record {
  name = "DirectiveKind";
  members =
      ("PREMISE", "premise")
      ∷ ("CONSTRAINT", "constraint")
      ∷ ("ARC_NOTE", "arc_note")
      ∷ ("TONE_NOTE", "tone_note")
      ∷ ("CHAPTER_NOTE", "chapter_note")
      ∷ ("VETO", "veto")
      ∷ ("CONTROL", "control")
      ∷ ("UNKNOWN", "unknown")
      ∷ [];
}

abbrev pub directive_status : EnumClass
directive_status = record {
  name = "DirectiveStatus";
  members =
      ("RECEIVED", "received")
      ∷ ("INTERPRETED", "interpreted")
      ∷ ("APPLIED", "applied")
      ∷ ("CONFLICTED", "conflicted")
      ∷ ("SUPERSEDED", "superseded")
      ∷ ("UNKNOWN", "unknown")
      ∷ [];
}

abbrev pub directive : Ty
directive = dataclass "Directive" (
    fields (
      ("meta", artifact_meta, missing)
      ∷ ("directive_id", str, missing)
      ∷ ("kind", enum directive_kind, missing)
      ∷ ("body", str, missing)
      ∷ ("status", enum directive_status, default (Value.member "DirectiveStatus" "received"))
      ∷ ("book_id", optional str, none_default)
      ∷ ("branch_id", optional str, none_default)
      ∷ ("targets", list resource_ref, empty_list)
      ∷ ("interpretation", optional str, none_default)
      ∷ ("produced_constraint_ids", list str, empty_list)
      ∷ ("received_at", optional str, none_default)
      ∷ ("interpreted_at", optional str, none_default)
      ∷ ("precedence", int, default (Value.int (pos 0)))
      ∷ ("superseded_by", optional str, none_default)
      ∷ []))

abbrev pub gate_kind : EnumClass
gate_kind = record {
  name = "GateKind";
  members =
      ("SHAPE", "shape")
      ∷ ("INTEGRITY", "integrity")
      ∷ ("CRAFT", "craft")
      ∷ ("BUDGET", "budget")
      ∷ ("UNKNOWN", "unknown")
      ∷ [];
}

abbrev pub verdict_source : EnumClass
verdict_source = record {
  name = "VerdictSource";
  members =
      ("DETERMINISTIC", "deterministic")
      ∷ ("CALIBRATED_CRITIC", "calibrated_critic")
      ∷ ("UNCALIBRATED_CRITIC", "uncalibrated_critic")
      ∷ ("HUMAN", "human")
      ∷ ("MODEL_SELF_REPORT", "model_self_report")
      ∷ ("UNKNOWN", "unknown")
      ∷ [];
}

abbrev pub gate_result : Ty
gate_result = dataclass "GateResult" (
    fields (
      ("gate", enum gate_kind, missing)
      ∷ ("rule_or_critic_id", str, missing)
      ∷ ("passed", bool, missing)
      ∷ (
        "verdict_source",
        enum verdict_source,
        default (Value.member "VerdictSource" "deterministic"),
      )
      ∷ ("blocking", bool, default (Value.bool true))
      ∷ ("vetoes", list str, empty_list)
      ∷ ("detail", optional str, none_default)
      ∷ ("score", optional float, none_default)
      ∷ ("threshold", optional float, none_default)
      ∷ ("calibration_id", optional str, none_default)
      ∷ []))

abbrev pub policy_outcome : EnumClass
policy_outcome = record {
  name = "PolicyOutcome";
  members =
      ("ACCEPT", "accept")
      ∷ ("RETRY", "retry")
      ∷ ("REPAIR", "repair")
      ∷ ("REGENERATE", "regenerate")
      ∷ ("PARK", "park")
      ∷ ("ESCALATE", "escalate")
      ∷ ("UNKNOWN", "unknown")
      ∷ [];
}

abbrev pub policy_decision_record : Ty
policy_decision_record = dataclass "PolicyDecisionRecord" (
    fields (
      ("meta", artifact_meta, missing)
      ∷ ("decision_id", str, missing)
      ∷ ("outcome", enum policy_outcome, missing)
      ∷ ("subject", optional resource_ref, none_default)
      ∷ ("job_id", optional str, none_default)
      ∷ ("gates", list gate_result, empty_list)
      ∷ ("provider", optional str, none_default)
      ∷ ("model", optional str, none_default)
      ∷ ("profile", optional str, none_default)
      ∷ ("fell_back_from", list str, empty_list)
      ∷ ("invocations", int, default (Value.int (pos 0)))
      ∷ ("total_tokens", int, default (Value.int (pos 0)))
      ∷ ("cost_usd", optional float, none_default)
      ∷ ("policy_config_digest", optional str, none_default)
      ∷ ("attempt", int, default (Value.int (pos 0)))
      ∷ ("decided_at", optional str, none_default)
      ∷ ("resulting_revision_id", optional str, none_default)
      ∷ ("escalation_id", optional str, none_default)
      ∷ []))

abbrev pub exception_kind : EnumClass
exception_kind = record {
  name = "ExceptionKind";
  members =
      ("REPEATED_GATE_FAILURE", "repeated_gate_failure")
      ∷ ("CONSTRAINT_CONFLICT", "constraint_conflict")
      ∷ ("BUDGET_EXHAUSTED", "budget_exhausted")
      ∷ ("PROVIDER_UNAVAILABLE", "provider_unavailable")
      ∷ ("PUBLICATION_DECISION", "publication_decision")
      ∷ ("INTEGRITY_VIOLATION", "integrity_violation")
      ∷ ("UNKNOWN", "unknown")
      ∷ [];
}

abbrev pub exception_status : EnumClass
exception_status = record {
  name = "ExceptionStatus";
  members =
      ("OPEN", "open")
      ∷ ("ACKNOWLEDGED", "acknowledged")
      ∷ ("RESOLVED", "resolved")
      ∷ ("DISMISSED", "dismissed")
      ∷ ("UNKNOWN", "unknown")
      ∷ [];
}

abbrev pub exception_record : Ty
exception_record = dataclass "ExceptionRecord" (
    fields (
      ("meta", artifact_meta, missing)
      ∷ ("exception_id", str, missing)
      ∷ ("kind", enum exception_kind, missing)
      ∷ ("summary", str, missing)
      ∷ ("status", enum exception_status, default (Value.member "ExceptionStatus" "open"))
      ∷ ("subject", optional resource_ref, none_default)
      ∷ ("job_id", optional str, none_default)
      ∷ ("decision_id", optional str, none_default)
      ∷ ("suggested_actions", list str, empty_list)
      ∷ ("raised_at", optional str, none_default)
      ∷ ("resolved_at", optional str, none_default)
      ∷ ("resolution", optional str, none_default)
      ∷ ("resolved_by_directive_id", optional str, none_default)
      ∷ ("attempts", int, default (Value.int (pos 0)))
      ∷ []))

abbrev pub digest_entry : Ty
digest_entry = dataclass "DigestEntry" (
    fields (
      ("meta", artifact_meta, missing)
      ∷ ("digest_id", str, missing)
      ∷ ("period_start", str, missing)
      ∷ ("period_end", str, missing)
      ∷ ("book_id", optional str, none_default)
      ∷ ("ticks", int, default (Value.int (pos 0)))
      ∷ ("jobs_succeeded", int, default (Value.int (pos 0)))
      ∷ ("jobs_failed", int, default (Value.int (pos 0)))
      ∷ ("units_parked", int, default (Value.int (pos 0)))
      ∷ ("candidates_accepted", int, default (Value.int (pos 0)))
      ∷ ("candidates_refused", int, default (Value.int (pos 0)))
      ∷ ("findings_opened", int, default (Value.int (pos 0)))
      ∷ ("findings_closed", int, default (Value.int (pos 0)))
      ∷ ("exceptions_open", int, default (Value.int (pos 0)))
      ∷ ("words_accepted", int, default (Value.int (pos 0)))
      ∷ ("invocations", int, default (Value.int (pos 0)))
      ∷ ("total_tokens", int, default (Value.int (pos 0)))
      ∷ ("spend_usd", optional float, none_default)
      ∷ ("budget_usd", optional float, none_default)
      ∷ ("audit_samples", list resource_ref, empty_list)
      ∷ ("notes", list str, empty_list)
      ∷ ("extra", dict str any, empty_dict)
      ∷ []))
