-- ===== src/Contracts/Events.antt =====
-- The event envelope: the enums and dataclasses of src/litharness_contracts/events.py.
use litharness_contracts.Prelude.{[], ◌∷◌}
use litharness_contracts.Types.{
  EnumClass, Ty, any, dataclass, dict, empty_dict, enum, fields, missing, none_default, optional,
  str,
}

abbrev pub event_type : EnumClass
event_type = record {
  name = "EventType";
  members =
      ("PLAN_CHANGED", "PlanChanged")
      ∷ ("MANUSCRIPT_CANDIDATE_CREATED", "ManuscriptCandidateCreated")
      ∷ ("MANUSCRIPT_REVISION_ACCEPTED", "ManuscriptRevisionAccepted")
      ∷ ("STATE_CANDIDATES_EXTRACTED", "StateCandidatesExtracted")
      ∷ ("STATE_RECORDS_ACCEPTED", "StateRecordsAccepted")
      ∷ ("CONTEXT_PACKET_CREATED", "ContextPacketCreated")
      ∷ ("EVALUATION_COMPLETED", "EvaluationCompleted")
      ∷ ("FINDING_STATUS_CHANGED", "FindingStatusChanged")
      ∷ ("IMPACT_ANALYZED", "ImpactAnalyzed")
      ∷ ("REVISION_PLAN_APPROVED", "RevisionPlanApproved")
      ∷ ("ARTIFACT_INVALIDATED", "ArtifactInvalidated")
      ∷ ("ARTIFACT_RECOMPUTED", "ArtifactRecomputed")
      ∷ ("EXPORT_CREATED", "ExportCreated")
      ∷ ("JOB_FAILED", "JobFailed")
      ∷ ("TICK_COMPLETED", "TickCompleted")
      ∷ ("DIRECTIVE_INGESTED", "DirectiveIngested")
      ∷ ("POLICY_DECISION_RECORDED", "PolicyDecisionRecorded")
      ∷ ("EXCEPTION_RAISED", "ExceptionRaised")
      ∷ ("EXCEPTION_RESOLVED", "ExceptionResolved")
      ∷ ("DIGEST_PUBLISHED", "DigestPublished")
      ∷ ("PROVIDER_FELL_BACK", "ProviderFellBack")
      ∷ ("BUDGET_EXHAUSTED", "BudgetExhausted")
      ∷ ("UNKNOWN", "unknown")
      ∷ [];
}

abbrev pub event_envelope : Ty
event_envelope = dataclass "EventEnvelope" (
    fields (
      ("schema_version", str, missing)
      ∷ ("event_id", str, missing)
      ∷ ("event_type", enum event_type, missing)
      ∷ ("created_at", str, missing)
      ∷ ("actor", str, missing)
      ∷ ("project_id", str, missing)
      ∷ ("idempotency_key", str, missing)
      ∷ ("book_id", optional str, none_default)
      ∷ ("branch_id", optional str, none_default)
      ∷ ("revision_id", optional str, none_default)
      ∷ ("causation_id", optional str, none_default)
      ∷ ("correlation_id", optional str, none_default)
      ∷ ("expected_version", optional str, none_default)
      ∷ ("payload", dict str any, empty_dict)
      ∷ ("payload_digest", optional str, none_default)
      ∷ []))
