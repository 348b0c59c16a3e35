-- ===== src/Contracts/Context.antt =====
-- Context queries and packets: the enums and dataclasses of src/litharness_contracts/context.py.
use litharness_contracts.Prelude.{[], ◌∷◌}
use litharness_contracts.Prelude.Int.{pos}
use litharness_contracts.Value.{Value}
use litharness_contracts.Types.{
  EnumClass, Ty, dataclass, default, dict, empty_dict, empty_list, enum, fields, float, int, list,
  missing, none_default, optional, str,
}
use litharness_contracts.Contracts.Ids.{evidence_span, resource_ref, story_position}
use litharness_contracts.Contracts.Envelope.{artifact_meta}
use litharness_contracts.Contracts.State.{state_authority}

abbrev pub context_operation : EnumClass
context_operation = record {
  name = "ContextOperation";
  members =
      ("DRAFT_SCENE", "draft_scene")
      ∷ ("CONTINUE", "continue")
      ∷ ("EVALUATE", "evaluate")
      ∷ ("REPAIR", "repair")
      ∷ ("PLAN", "plan")
      ∷ ("ANSWER", "answer")
      ∷ ("UNKNOWN", "unknown")
      ∷ [];
}

abbrev pub context_item_kind : EnumClass
context_item_kind = record {
  name = "ContextItemKind";
  members =
      ("EXACT_PROSE", "exact_prose")
      ∷ ("PLAN", "plan")
      ∷ ("FACT", "fact")
      ∷ ("EVENT", "event")
      ∷ ("THREAD", "thread")
      ∷ ("SUMMARY", "summary")
      ∷ ("FINDING", "finding")
      ∷ ("AUTHOR_RULE", "author_rule")
      ∷ ("UNKNOWN", "unknown")
      ∷ [];
}

abbrev pub context_query : Ty
context_query = dataclass "ContextQuery" (
    fields (
      ("meta", artifact_meta, missing)
      ∷ ("query_id", str, missing)
      ∷ ("operation", enum context_operation, missing)
      ∷ ("target", resource_ref, missing)
      ∷ ("token_budget", int, missing)
      ∷ ("pov_character_id", optional str, none_default)
      ∷ ("intent", optional str, none_default)
      ∷ ("referenced_entities", list str, empty_list)
      ∷ ("referenced_threads", list str, empty_list)
      ∷ ("story_time_cutoff", optional story_position, none_default)
      ∷ ("hard_requirements", list resource_ref, empty_list)
      ∷ ("exclusions", list resource_ref, empty_list)
      ∷ ("model_context_limit", optional int, none_default)
      ∷ ("policy_version", optional str, none_default)
      ∷ []))

abbrev pub context_item : Ty
context_item = dataclass "ContextItem" (
    fields (
      ("item_id", str, missing)
      ∷ ("kind", enum context_item_kind, missing)
      ∷ ("source", resource_ref, missing)
      ∷ ("text", str, missing)
      ∷ ("token_count", int, missing)
      ∷ ("authority", enum state_authority, default (Value.member "StateAuthority" "derived"))
      ∷ ("confidence", optional float, none_default)
      ∷ ("story_scope", optional resource_ref, none_default)
      ∷ ("pov_visibility", list str, empty_list)
      ∷ ("provenance", list evidence_span, empty_list)
      ∷ ("dependencies", list resource_ref, empty_list)
      ∷ ("scores", dict str float, empty_dict)
      ∷ []))

abbrev pub packet_section : Ty
packet_section =
    dataclass "PacketSection"
      (fields (("name", str, missing) ∷ ("items", list context_item, missing) ∷ []))

abbrev pub rejected_candidate : Ty
rejected_candidate = dataclass "RejectedCandidate" (
    fields (
      ("reason", str, missing)
      ∷ ("item_id", optional str, none_default)
      ∷ ("source", optional resource_ref, none_default)
      ∷ []))

abbrev pub token_budget : Ty
token_budget = dataclass "TokenBudget" (
    fields (
      ("limit", int, missing)
      ∷ ("used", int, missing)
      ∷ ("reserved_output", int, default (Value.int (pos 0)))
      ∷ []))

abbrev pub context_packet : Ty
context_packet = dataclass "ContextPacket" (
    fields (
      ("meta", artifact_meta, missing)
      ∷ ("packet_id", str, missing)
      ∷ ("query_id", str, missing)
      ∷ ("source_snapshot", resource_ref, missing)
      ∷ ("sections", list packet_section, missing)
      ∷ ("budget", token_budget, missing)
      ∷ ("consumed_sources", list resource_ref, empty_list)
      ∷ ("rejected_candidates", list rejected_candidate, empty_list)
      ∷ []))
