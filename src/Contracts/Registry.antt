-- ===== src/Contracts/Registry.antt =====
-- The registries of src/litharness_contracts/__init__.py.
use litharness_contracts.Prelude.{String, List, [], ◌∷◌, ◌++◌}
use litharness_contracts.Types.{Ty, EnumClass}
use litharness_contracts.Contracts.Ids.{evidence_span, resource_kind, resource_ref}
use litharness_contracts.Contracts.Manuscript.{
  block_kind, bounded_patch, lock_kind, manuscript_revision, node_kind, patch_op_kind,
}
use litharness_contracts.Contracts.Plans.{plan_authority, plan_kind, plan_snapshot}
use litharness_contracts.Contracts.State.{
  candidate_status, state_authority, state_candidate_batch, state_record, state_record_kind,
  state_snapshot,
}
use litharness_contracts.Contracts.Context.{
  context_item, context_item_kind, context_operation, context_packet, context_query,
}
use litharness_contracts.Contracts.Generation.{
  generation_candidate, generation_kind, generation_request, generation_status,
}
use litharness_contracts.Contracts.Evaluation.{
  confidence_basis, evaluation_artifact, evaluation_plan, finding, finding_category, finding_status,
  severity, suggested_action,
}
use litharness_contracts.Contracts.Events.{event_envelope, event_type}
use litharness_contracts.Contracts.Propagation.{
  approval_mode, change_actor, change_op_kind, change_set, extracted_change_kind, impact_class,
  impact_report, revision_plan, step_action,
}
use litharness_contracts.Contracts.Runs.{
  export_format, export_manifest, job_record, job_status, run_manifest,
}
use litharness_contracts.Contracts.Goldens.{gold_context_suite, gold_impact_suite, impact_label}
use litharness_contracts.Contracts.Conductor.{
  digest_entry, directive, directive_kind, directive_status, exception_kind, exception_record,
  exception_status, gate_kind, gate_result, policy_decision_record, policy_outcome, verdict_source,
}

abbrev pub artifact_types : List (String × Ty)
artifact_types =
    ("manuscript_revision", manuscript_revision)
    ∷ ("bounded_patch", bounded_patch)
    ∷ ("plan_snapshot", plan_snapshot)
    ∷ ("state_snapshot", state_snapshot)
    ∷ ("state_candidate_batch", state_candidate_batch)
    ∷ ("context_query", context_query)
    ∷ ("context_packet", context_packet)
    ∷ ("generation_request", generation_request)
    ∷ ("generation_candidate", generation_candidate)
    ∷ ("evaluation_plan", evaluation_plan)
    ∷ ("evaluation_artifact", evaluation_artifact)
    ∷ ("change_set", change_set)
    ∷ ("impact_report", impact_report)
    ∷ ("revision_plan", revision_plan)
    ∷ ("run_manifest", run_manifest)
    ∷ ("job_record", job_record)
    ∷ ("export_manifest", export_manifest)
    ∷ ("event_envelope", event_envelope)
    ∷ ("gold_context_suite", gold_context_suite)
    ∷ ("gold_impact_suite", gold_impact_suite)
    ∷ ("directive", directive)
    ∷ ("policy_decision_record", policy_decision_record)
    ∷ ("exception_record", exception_record)
    ∷ ("digest_entry", digest_entry)
    ∷ []

abbrev pub value_types : List (String × Ty)
value_types =
    ("resource_ref", resource_ref)
    ∷ ("evidence_span", evidence_span)
    ∷ ("finding", finding)
    ∷ ("context_item", context_item)
    ∷ ("state_record", state_record)
    ∷ ("gate_result", gate_result)
    ∷ []

abbrev pub all_schema_types : List (String × Ty)
all_schema_types = artifact_types ++ value_types

-- The enum classes that the package exports.
abbrev pub contract_enums : List EnumClass
contract_enums =
    resource_kind ∷ node_kind ∷ block_kind ∷ lock_kind ∷ patch_op_kind ∷ plan_kind ∷ plan_authority
    ∷ state_record_kind ∷ state_authority ∷ candidate_status ∷ context_operation ∷ context_item_kind
    ∷ generation_kind ∷ generation_status ∷ finding_category ∷ finding_status ∷ severity
    ∷ confidence_basis ∷ suggested_action ∷ event_type ∷ change_actor ∷ change_op_kind
    ∷ extracted_change_kind ∷ impact_class ∷ step_action ∷ approval_mode ∷ job_status
    ∷ export_format ∷ impact_label ∷ directive_kind ∷ directive_status ∷ gate_kind ∷ verdict_source
    ∷ policy_outcome ∷ exception_kind ∷ exception_status ∷ []
