-- ===== src/Contracts/Manuscript.antt =====
-- Manuscript revisions and bounded patches: the enums and dataclasses of src/litharness_contracts/manuscript.py.
use litharness_contracts.Prelude.{[], ◌∷◌, false}
use litharness_contracts.Value.{Value}
use litharness_contracts.Types.{
  EnumClass, Ty, any, bool, dataclass, default, dict, empty_dict, enum, fields, list, missing,
  none_default, optional, str,
}
use litharness_contracts.Contracts.Ids.{evidence_span, resource_ref}
use litharness_contracts.Contracts.Envelope.{artifact_meta}

abbrev pub node_kind : EnumClass
node_kind = record {
  name = "NodeKind";
  members =
      ("BOOK", "book")
      ∷ ("PART", "part")
      ∷ ("CHAPTER", "chapter")
      ∷ ("SCENE", "scene")
      ∷ ("BLOCK", "block")
      ∷ ("UNKNOWN", "unknown")
      ∷ [];
}

abbrev pub block_kind : EnumClass
block_kind = record {
  name = "BlockKind";
  members =
      ("PROSE", "prose")
      ∷ ("STATUS_WINDOW", "status_window")
      ∷ ("LEVEL_UP", "level_up")
      ∷ ("QUEST_LOG", "quest_log")
      ∷ ("SYSTEM_MESSAGE", "system_message")
      ∷ ("UNKNOWN", "unknown")
      ∷ [];
}

abbrev pub lock_kind : EnumClass
lock_kind = record {
  name = "LockKind";
  members =
      ("NONE", "none")
      ∷ ("CONTENT", "content")
      ∷ ("STRUCTURE", "structure")
      ∷ ("PUBLISHED", "published")
      ∷ ("UNKNOWN", "unknown")
      ∷ [];
}

abbrev pub manuscript_node : Ty
manuscript_node = dataclass "ManuscriptNode" (
    fields (
      ("logical_id", str, missing)
      ∷ ("kind", enum node_kind, missing)
      ∷ ("position_key", str, missing)
      ∷ ("parent_logical_id", optional str, none_default)
      ∷ ("title", optional str, none_default)
      ∷ ("content", optional str, none_default)
      ∷ ("content_sha256", optional str, none_default)
      ∷ ("version_id", optional str, none_default)
      ∷ ("locked", bool, default (Value.bool false))
      ∷ ("metadata", dict str any, empty_dict)
      ∷ ("lock_kind", optional (enum lock_kind), none_default)
      ∷ ("block_kind", optional (enum block_kind), none_default)
      ∷ ("block_payload", optional (dict str any), none_default)
      ∷ ("tombstoned", optional bool, none_default)
      ∷ ("tombstone_reason", optional str, none_default)
      ∷ []))

abbrev pub manuscript_revision : Ty
manuscript_revision = dataclass "ManuscriptRevision" (
    fields (
      ("meta", artifact_meta, missing)
      ∷ ("book_id", str, missing)
      ∷ ("branch_id", str, missing)
      ∷ ("revision_id", str, missing)
      ∷ ("nodes", list manuscript_node, missing)
      ∷ ("parent_revision_id", optional str, none_default)
      ∷ []))

abbrev pub patch_op_kind : EnumClass
patch_op_kind = record {
  name = "PatchOpKind";
  members =
      ("REPLACE_SPAN", "replace_span")
      ∷ ("INSERT_AFTER", "insert_after")
      ∷ ("DELETE_SPAN", "delete_span")
      ∷ ("UNKNOWN", "unknown")
      ∷ [];
}

abbrev pub patch_op : Ty
patch_op = dataclass "PatchOp" (
    fields (
      ("kind", enum patch_op_kind, missing)
      ∷ ("target_span", evidence_span, missing)
      ∷ ("new_text", optional str, none_default)
      ∷ []))

abbrev pub bounded_patch : Ty
bounded_patch = dataclass "BoundedPatch" (
    fields (
      ("meta", artifact_meta, missing)
      ∷ ("target", resource_ref, missing)
      ∷ ("base_version_id", str, missing)
      ∷ ("base_content_sha256", str, missing)
      ∷ ("ops", list patch_op, missing)
      ∷ ("idempotency_key", str, missing)
      ∷ ("licensed_by_finding_id", optional str, none_default)
      ∷ ("author_request_id", optional str, none_default)
      ∷ []))
