-- ===== src/Contracts/Runs.antt =====
-- Runs, jobs and exports: the enums and dataclasses of src/litharness_contracts/runs.py.
use litharness_contracts.Prelude.{[], ◌∷◌}
use litharness_contracts.Prelude.Int.{pos}
use litharness_contracts.Value.{Value}
use litharness_contracts.Types.{
  EnumClass, Ty, any, dataclass, default, dict, empty_list, enum, fields, float, int, list, missing,
  none_default, optional, str,
}
use litharness_contracts.Contracts.Ids.{resource_ref}
use litharness_contracts.Contracts.Envelope.{artifact_meta, model_identifier, tool_identity}

abbrev pub input_ref : Ty
input_ref =
    dataclass "InputRef" (
      fields (("ref", resource_ref, missing) ∷ ("content_sha256", optional str, none_default) ∷ []))

abbrev pub run_manifest : Ty
run_manifest = dataclass "RunManifest" (
    fields (
      ("meta", artifact_meta, missing)
      ∷ ("run_id", str, missing)
      ∷ ("purpose", str, missing)
      ∷ ("inputs", list input_ref, empty_list)
      ∷ ("model", optional model_identifier, none_default)
      ∷ ("code_version", optional str, none_default)
      ∷ ("platform", optional str, none_default)
      ∷ ("started_at", optional str, none_default)
      ∷ ("finished_at", optional str, none_default)
      ∷ ("outcome", optional str, none_default)
      ∷ []))

abbrev pub job_status : EnumClass
job_status = record {
  name = "JobStatus";
  members =
      ("QUEUED", "queued")
      ∷ ("RUNNING", "running")
      ∷ ("SUCCEEDED", "succeeded")
      ∷ ("FAILED", "failed")
      ∷ ("CANCELLED", "cancelled")
      ∷ ("POISONED", "poisoned")
      ∷ ("PARKED", "parked")
      ∷ ("UNKNOWN", "unknown")
      ∷ [];
}

abbrev pub job_record : Ty
job_record = dataclass "JobRecord" (
    fields (
      ("meta", artifact_meta, missing)
      ∷ ("job_id", str, missing)
      ∷ ("job_kind", str, missing)
      ∷ ("status", enum job_status, missing)
      ∷ ("attempts", int, default (Value.int (pos 0)))
      ∷ ("idempotency_key", optional str, none_default)
      ∷ ("input_digest", optional str, none_default)
      ∷ ("error", optional str, none_default)
      ∷ ("lease_holder", optional str, none_default)
      ∷ ("lease_expires_at", optional float, none_default)
      ∷ ("payload", optional (dict str any), none_default)
      ∷ ("priority", optional int, none_default)
      ∷ []))

abbrev pub export_format : EnumClass
export_format = record {
  name = "ExportFormat";
  members =
      ("MARKDOWN", "markdown")
      ∷ ("DOCX", "docx")
      ∷ ("TEXT", "text")
      ∷ ("EPUB", "epub")
      ∷ ("UNKNOWN", "unknown")
      ∷ [];
}

abbrev pub export_file : Ty
export_file = dataclass "ExportFile" (
    fields (
      ("path", str, missing)
      ∷ ("sha256", str, missing)
      ∷ ("size_bytes", optional int, none_default)
      ∷ []))

abbrev pub export_manifest : Ty
export_manifest = dataclass "ExportManifest" (
    fields (
      ("meta", artifact_meta, missing)
      ∷ ("export_id", str, missing)
      ∷ ("manuscript_revision", resource_ref, missing)
      ∷ ("format", enum export_format, missing)
      ∷ ("renderer", tool_identity, missing)
      ∷ ("settings_digest", optional str, none_default)
      ∷ ("files", list export_file, empty_list)
      ∷ []))
