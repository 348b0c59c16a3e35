-- ===== src/Contracts/Propagation.antt =====
-- Change sets, impact reports and revision plans: the enums and dataclasses of src/litharness_contracts/propagation.py.
use litharness_contracts.Prelude.{[], ◌∷◌}
use litharness_contracts.Types.{
  EnumClass, Ty, any, dataclass, dict, empty_dict, empty_list, enum, fields, float, list, missing,
  none_default, optional, str,
}
use litharness_contracts.Contracts.Ids.{evidence_span, resource_ref}
use litharness_contracts.Contracts.Envelope.{artifact_meta}

abbrev pub change_actor : EnumClass
change_actor = record {
  name = "ChangeActor";
  members =
      ("AUTHOR", "author")
      ∷ ("SYSTEM", "system")
      ∷ ("IMPORT", "import")
      ∷ ("UNKNOWN", "unknown")
      ∷ [];
}

abbrev pub change_op_kind : EnumClass
change_op_kind = record {
  name = "ChangeOpKind";
  members =
      ("REPLACE_SPAN", "replace_span")
      ∷ ("INSERT", "insert")
      ∷ ("DELETE", "delete")
      ∷ ("MOVE", "move")
      ∷ ("RENAME", "rename")
      ∷ ("REORDER", "reorder")
      ∷ ("SPLIT", "split")
      ∷ ("MERGE", "merge")
      ∷ ("UNKNOWN", "unknown")
      ∷ [];
}

abbrev pub change_operation : Ty
change_operation = dataclass "ChangeOperation" (
    fields (
      ("kind", enum change_op_kind, missing)
      ∷ ("logical_source_id", str, missing)
      ∷ ("before_version", optional str, none_default)
      ∷ ("after_version", optional str, none_default)
      ∷ ("before_hash", optional str, none_default)
      ∷ ("after_hash", optional str, none_default)
      ∷ ("detail", dict str any, empty_dict)
      ∷ []))

abbrev pub extracted_change_kind : EnumClass
extracted_change_kind = record {
  name = "ExtractedChangeKind";
  members =
      ("FACT_CHANGED", "fact_changed")
      ∷ ("ENTITY_RENAMED", "entity_renamed")
      ∷ ("EVENT_MOVED", "event_moved")
      ∷ ("EVENT_ADDED", "event_added")
      ∷ ("EVENT_REMOVED", "event_removed")
      ∷ ("PLAN_CHANGED", "plan_changed")
      ∷ ("POV_CHANGED", "pov_changed")
      ∷ ("RULE_CHANGED", "rule_changed")
      ∷ ("SURFACE_ONLY", "surface_only")
      ∷ ("UNKNOWN", "unknown")
      ∷ [];
}

abbrev pub extracted_change : Ty
extracted_change = dataclass "ExtractedChange" (
    fields (
      ("kind", enum extracted_change_kind, missing)
      ∷ ("subject", optional str, none_default)
      ∷ ("predicate", optional str, none_default)
      ∷ ("before", any, none_default)
      ∷ ("after", any, none_default)
      ∷ ("evidence", list evidence_span, empty_list)
      ∷ ("confidence", optional float, none_default)
      ∷ []))

abbrev pub change_set : Ty
change_set = dataclass "ChangeSet" (
    fields (
      ("meta", artifact_meta, missing)
      ∷ ("change_set_id", str, missing)
      ∷ ("base_revision", str, missing)
      ∷ ("target_branch", str, missing)
      ∷ ("actor", enum change_actor, missing)
      ∷ ("operations", list change_operation, missing)
      ∷ ("idempotency_key", str, missing)
      ∷ ("extracted_changes", list extracted_change, empty_list)
      ∷ ("declared_intent", optional str, none_default)
      ∷ ("preservation_constraints", list str, empty_list)
      ∷ []))

abbrev pub impact_class : EnumClass
impact_class = record {
  name = "ImpactClass";
  members =
      ("INVALIDATE_RECOMPUTE", "invalidate_recompute")
      ∷ ("STRUCTURED_UPDATE", "structured_update")
      ∷ ("REPAIR_CANDIDATE", "repair_candidate")
      ∷ ("REVIEW_WARNING", "review_warning")
      ∷ ("PRESERVE", "preserve")
      ∷ ("NO_ACTION", "no_action")
      ∷ ("UNKNOWN", "unknown")
      ∷ [];
}

abbrev pub impact_path_edge : Ty
impact_path_edge = dataclass "ImpactPathEdge" (
    fields (
      ("edge_type", str, missing)
      ∷ ("from_ref", resource_ref, missing)
      ∷ ("to_ref", resource_ref, missing)
      ∷ ("authority", optional str, none_default)
      ∷ []))

abbrev pub impact_item : Ty
impact_item = dataclass "ImpactItem" (
    fields (
      ("target", resource_ref, missing)
      ∷ ("impact_class", enum impact_class, missing)
      ∷ ("confidence", optional float, none_default)
      ∷ ("reason", optional str, none_default)
      ∷ ("reason_paths", list (list impact_path_edge), empty_list)
      ∷ []))

abbrev pub impact_report : Ty
impact_report = dataclass "ImpactReport" (
    fields (
      ("meta", artifact_meta, missing)
      ∷ ("report_id", str, missing)
      ∷ ("change_set_id", str, missing)
      ∷ ("impacts", list impact_item, missing)
      ∷ ("graph_version", optional str, none_default)
      ∷ ("coverage_warnings", list str, empty_list)
      ∷ []))

abbrev pub step_action : EnumClass
step_action = record {
  name = "StepAction";
  members =
      ("RECOMPUTE", "recompute")
      ∷ ("PROPOSE_REPAIR", "propose_repair")
      ∷ ("STRUCTURED_UPDATE", "structured_update")
      ∷ ("WARN", "warn")
      ∷ ("NO_OP", "no_op")
      ∷ ("UNKNOWN", "unknown")
      ∷ [];
}

abbrev pub approval_mode : EnumClass
approval_mode = record {
  name = "ApprovalMode";
  members =
      ("AUTOMATIC", "automatic")
      ∷ ("REVIEW_AFTER", "review_after")
      ∷ ("AUTHOR_REQUIRED", "author_required")
      ∷ ("NEVER_AUTOMATIC", "never_automatic")
      ∷ ("UNKNOWN", "unknown")
      ∷ [];
}

abbrev pub revision_step : Ty
revision_step = dataclass "RevisionStep" (
    fields (
      ("step_id", str, missing)
      ∷ ("target", resource_ref, missing)
      ∷ ("action", enum step_action, missing)
      ∷ ("approval", enum approval_mode, missing)
      ∷ ("reason", optional str, none_default)
      ∷ ("finding_id", optional str, none_default)
      ∷ ("confidence", optional float, none_default)
      ∷ ("preconditions", list str, empty_list)
      ∷ ("preservation_constraints", list str, empty_list)
      ∷ []))

abbrev pub revision_plan : Ty
revision_plan = dataclass "RevisionPlan" (
    fields (
      ("meta", artifact_meta, missing)
      ∷ ("plan_id", str, missing)
      ∷ ("base_revision", str, missing)
      ∷ ("change_set_id", str, missing)
      ∷ ("steps", list revision_step, missing)
      ∷ ("graph_version", optional str, none_default)
      ∷ ("excluded_candidates", list impact_item, empty_list)
      ∷ ("estimated_cost", dict str float, empty_dict)
      ∷ ("risks", list str, empty_list)
      ∷ []))
