-- ===== src/Contracts/Envelope.antt =====
-- The envelope of every artifact: the enums and dataclasses of src/litharness_contracts/envelope.py.
use litharness_contracts.Prelude.{[], ◌∷◌}
use litharness_contracts.Types.{
  Ty, dataclass, empty_list, fields, list, missing, none_default, optional, str,
}
use litharness_contracts.Contracts.Ids.{resource_ref}

abbrev pub tool_identity : Ty
tool_identity =
    dataclass "ToolIdentity" (fields (("name", str, missing) ∷ ("version", str, missing) ∷ []))

abbrev pub model_identifier : Ty
model_identifier = dataclass "ModelIdentifier" (
    fields (
      ("provider", str, missing)
      ∷ ("model", str, missing)
      ∷ ("version_or_digest", optional str, none_default)
      ∷ ("request_profile", optional str, none_default)
      ∷ ("template_version", optional str, none_default)
      ∷ []))

abbrev pub artifact_meta : Ty
artifact_meta = dataclass "ArtifactMeta" (
    fields (
      ("schema_version", str, missing)
      ∷ ("artifact_id", str, missing)
      ∷ ("artifact_kind", str, missing)
      ∷ ("created_at", str, missing)
      ∷ ("actor", str, missing)
      ∷ ("tool", tool_identity, missing)
      ∷ ("source_revisions", list resource_ref, empty_list)
      ∷ ("dependencies", list resource_ref, empty_list)
      ∷ ("config_digest", optional str, none_default)
      ∷ ("causation_id", optional str, none_default)
      ∷ ("correlation_id", optional str, none_default)
      ∷ ("warnings", list str, empty_list)
      ∷ []))
