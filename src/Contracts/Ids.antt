-- ===== src/Contracts/Ids.antt =====
-- References, evidence spans and story positions: the enums and dataclasses of src/litharness_contracts/ids.py.
use litharness_contracts.Prelude.{[], ◌∷◌}
use litharness_contracts.Types.{
  EnumClass, Ty, dataclass, enum, fields, int, missing, none_default, optional, str,
}

abbrev pub resource_kind : EnumClass
resource_kind = record {
  name = "ResourceKind";
  members =
      ("MANUSCRIPT_BOOK", "manuscript_book")
      ∷ ("MANUSCRIPT_PART", "manuscript_part")
      ∷ ("MANUSCRIPT_CHAPTER", "manuscript_chapter")
      ∷ ("MANUSCRIPT_SCENE", "manuscript_scene")
      ∷ ("MANUSCRIPT_BLOCK", "manuscript_block")
      ∷ ("PLAN", "plan")
      ∷ ("ENTITY", "entity")
      ∷ ("ASSERTION", "assertion")
      ∷ ("STATE_EVENT", "state_event")
      ∷ ("RELATIONSHIP", "relationship")
      ∷ ("KNOWLEDGE", "knowledge")
      ∷ ("THREAD", "thread")
      ∷ ("WORLD_RULE", "world_rule")
      ∷ ("SUMMARY", "summary")
      ∷ ("EMBEDDING", "embedding")
      ∷ ("CONTEXT_PACKET", "context_packet")
      ∷ ("FINDING", "finding")
      ∷ ("GRAPH_NODE", "graph_node")
      ∷ ("GENERATION_CANDIDATE", "generation_candidate")
      ∷ ("REVISION_PLAN", "revision_plan")
      ∷ ("EXPORT_ARTIFACT", "export_artifact")
      ∷ ("JOB", "job")
      ∷ ("UNKNOWN", "unknown")
      ∷ [];
}

abbrev pub resource_ref : Ty
resource_ref = dataclass "ResourceRef" (
    fields (
      ("project_id", str, missing)
      ∷ ("book_id", str, missing)
      ∷ ("branch_id", str, missing)
      ∷ ("logical_id", str, missing)
      ∷ ("kind", enum resource_kind, missing)
      ∷ ("version_id", optional str, none_default)
      ∷ []))

abbrev pub evidence_span : Ty
evidence_span = dataclass "EvidenceSpan" (
    fields (
      ("source", resource_ref, missing)
      ∷ ("start", int, missing)
      ∷ ("end", int, missing)
      ∷ ("content_sha256", str, missing)
      ∷ ("anchor_before", optional str, none_default)
      ∷ ("anchor_after", optional str, none_default)
      ∷ []))

abbrev pub story_position : Ty
story_position =
    dataclass "StoryPosition"
      (fields (("order_key", str, missing) ∷ ("label", optional str, none_default) ∷ []))
