-- ===== src/Contracts/Evaluation.antt =====
-- Findings and evaluation artifacts: the enums and dataclasses of src/litharness_contracts/evaluation.py.
use litharness_contracts.Prelude.{[], ◌∷◌}
use litharness_contracts.Value.{Value}
use litharness_contracts.Types.{
  EnumClass, Ty, any, dataclass, default, dict, empty_dict, empty_list, enum, fields, float, int,
  list, missing, none_default, optional, str,
}
use litharness_contracts.Contracts.Ids.{evidence_span, resource_ref}
use litharness_contracts.Contracts.Envelope.{artifact_meta, model_identifier}

abbrev pub finding_category : EnumClass
finding_category = record {
  name = "FindingCategory";
  members =
      ("TIMELINE", "timeline")
      ∷ ("KNOWLEDGE", "knowledge")
      ∷ ("PHYSICAL_STATE", "physical_state")
      ∷ ("INVENTORY", "inventory")
      ∷ ("RELATIONSHIP", "relationship")
      ∷ ("LOCATION", "location")
      ∷ ("CAUSALITY", "causality")
      ∷ ("PROMISE_PAYOFF", "promise_payoff")
      ∷ ("WORLD_RULE", "world_rule")
      ∷ ("STYLE", "style")
      ∷ ("REPETITION", "repetition")
      ∷ ("PACING", "pacing")
      ∷ ("UNKNOWN", "unknown")
      ∷ [];
}

abbrev pub finding_status : EnumClass
finding_status = record {
  name = "FindingStatus";
  members =
      ("OPEN", "open")
      ∷ ("ACCEPTED_INTENTIONAL", "accepted_intentional")
      ∷ ("CONFIRMED", "confirmed")
      ∷ ("FIXED", "fixed")
      ∷ ("FALSE_POSITIVE", "false_positive")
      ∷ ("DEFERRED", "deferred")
      ∷ ("SUPERSEDED", "superseded")
      ∷ ("EVALUATION_ERROR", "evaluation_error")
      ∷ ("UNKNOWN", "unknown")
      ∷ [];
}

abbrev pub severity : EnumClass
severity = record {
  name = "Severity";
  members =
      ("INFO", "info")
      ∷ ("MINOR", "minor")
      ∷ ("MAJOR", "major")
      ∷ ("CRITICAL", "critical")
      ∷ ("UNKNOWN", "unknown")
      ∷ [];
}

abbrev pub confidence_basis : EnumClass
confidence_basis = record {
  name = "ConfidenceBasis";
  members =
      ("DETERMINISTIC", "deterministic")
      ∷ ("CALIBRATED_MODEL", "calibrated_model")
      ∷ ("ENSEMBLE", "ensemble")
      ∷ ("HEURISTIC", "heuristic")
      ∷ ("UNKNOWN", "unknown")
      ∷ [];
}

abbrev pub suggested_action : EnumClass
suggested_action = record {
  name = "SuggestedAction";
  members =
      ("INSPECT", "inspect")
      ∷ ("UPDATE_STATE", "update_state")
      ∷ ("REPAIR_SPAN", "repair_span")
      ∷ ("REVISE_PLAN", "revise_plan")
      ∷ ("DISMISS", "dismiss")
      ∷ ("UNKNOWN", "unknown")
      ∷ [];
}

abbrev pub finding_scope : Ty
finding_scope = dataclass "FindingScope" (
    fields (
      ("book_id", str, missing)
      ∷ ("chapter_ids", list str, empty_list)
      ∷ ("scene_ids", list str, empty_list)
      ∷ []))

abbrev pub reproduction : Ty
reproduction = dataclass "Reproduction" (
    fields (
      ("config_hash", optional str, none_default)
      ∷ ("policy_version", optional str, none_default)
      ∷ ("model_digest", optional str, none_default)
      ∷ []))

abbrev pub finding : Ty
finding = dataclass "Finding" (
    fields (
      ("finding_id", str, missing)
      ∷ ("category", enum finding_category, missing)
      ∷ ("status", enum finding_status, missing)
      ∷ ("scope", finding_scope, missing)
      ∷ ("severity", enum severity, missing)
      ∷ ("message", str, missing)
      ∷ ("evaluation_run_id", optional str, none_default)
      ∷ ("subtype", optional str, none_default)
      ∷ ("primary_span", optional evidence_span, none_default)
      ∷ ("supporting_evidence", list evidence_span, empty_list)
      ∷ ("contradicting_evidence", list evidence_span, empty_list)
      ∷ ("rule_or_critic_id", optional str, none_default)
      ∷ ("severity_rationale", optional str, none_default)
      ∷ ("confidence", optional float, none_default)
      ∷ (
        "confidence_basis",
        enum confidence_basis,
        default (Value.member "ConfidenceBasis" "unknown"),
      )
      ∷ ("evidence_confidence", optional float, none_default)
      ∷ ("claim", dict str any, empty_dict)
      ∷ ("reproduction", optional reproduction, none_default)
      ∷ ("dependencies", list resource_ref, empty_list)
      ∷ (
        "suggested_action",
        enum suggested_action,
        default (Value.member "SuggestedAction" "inspect"),
      )
      ∷ []))

abbrev pub detector_spec : Ty
detector_spec =
    dataclass "DetectorSpec"
      (fields (("detector_id", str, missing) ∷ ("version", str, missing) ∷ []))

abbrev pub critic_spec : Ty
critic_spec =
    dataclass "CriticSpec" (
      fields
        (("critic_id", str, missing) ∷ ("model", optional model_identifier, none_default) ∷ []))

abbrev pub evaluation_plan : Ty
evaluation_plan = dataclass "EvaluationPlan" (
    fields (
      ("meta", artifact_meta, missing)
      ∷ ("plan_id", str, missing)
      ∷ ("manuscript_revision", resource_ref, missing)
      ∷ ("detectors", list detector_spec, missing)
      ∷ ("state_snapshot", optional resource_ref, none_default)
      ∷ ("context_packet_id", optional str, none_default)
      ∷ ("critics", list critic_spec, empty_list)
      ∷ ("categories", list (enum finding_category), empty_list)
      ∷ ("thresholds_profile", optional str, none_default)
      ∷ ("seed", optional int, none_default)
      ∷ []))

abbrev pub evaluation_error : Ty
evaluation_error = dataclass "EvaluationError" (
    fields (
      ("stage", str, missing)
      ∷ ("reason", str, missing)
      ∷ ("detail", optional str, none_default)
      ∷ []))

abbrev pub evaluation_artifact : Ty
evaluation_artifact = dataclass "EvaluationArtifact" (
    fields (
      ("meta", artifact_meta, missing)
      ∷ ("run_id", str, missing)
      ∷ ("plan_id", str, missing)
      ∷ ("findings", list finding, missing)
      ∷ ("errors", list evaluation_error, empty_list)
      ∷ ("metrics", dict str float, empty_dict)
      ∷ []))
