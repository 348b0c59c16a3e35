-- ===== src/Contracts/Generation.antt =====
-- Generation requests and candidates: the enums and dataclasses of src/litharness_contracts/generation.py.
use litharness_contracts.Prelude.{[], ◌∷◌}
use litharness_contracts.Value.{Value, Values, Attrs}
use litharness_contracts.Types.{
  EnumClass, Ty, bool, dataclass, empty_list, enum, factory, fields, float, int, list, missing,
  none_default, optional, str,
}
use litharness_contracts.Contracts.Ids.{resource_ref}
use litharness_contracts.Contracts.Envelope.{artifact_meta, model_identifier}
use litharness_contracts.Contracts.Manuscript.{bounded_patch}

abbrev pub generation_kind : EnumClass
generation_kind = record {
  name = "GenerationKind";
  members =
      ("SCENE_DRAFT", "scene_draft")
      ∷ ("CONTINUATION", "continuation")
      ∷ ("REPAIR", "repair")
      ∷ ("STRUCTURED", "structured")
      ∷ ("UNKNOWN", "unknown")
      ∷ [];
}

abbrev pub generation_status : EnumClass
generation_status = record {
  name = "GenerationStatus";
  members =
      ("COMPLETE", "complete")
      ∷ ("FAILED", "failed")
      ∷ ("REJECTED", "rejected")
      ∷ ("TRUNCATED", "truncated")
      ∷ ("UNKNOWN", "unknown")
      ∷ [];
}

abbrev pub generation_params : Ty
generation_params = dataclass "GenerationParams" (
    fields (
      ("temperature", optional float, none_default)
      ∷ ("top_p", optional float, none_default)
      ∷ ("max_tokens", optional int, none_default)
      ∷ ("seed", optional int, none_default)
      ∷ ("stop", list str, empty_list)
      ∷ []))

abbrev pub generation_request : Ty
generation_request = dataclass "GenerationRequest" (
    fields (
      ("meta", artifact_meta, missing)
      ∷ ("request_id", str, missing)
      ∷ ("kind", enum generation_kind, missing)
      ∷ ("target", resource_ref, missing)
      ∷ ("model", model_identifier, missing)
      ∷ ("idempotency_key", str, missing)
      ∷ ("context_packet_id", optional str, none_default)
      ∷ (
        "params",
        generation_params,
        factory (
            Value.instance_of "GenerationParams" (
              Attrs.attr "temperature" Value.nothing (
                Attrs.attr "top_p" Value.nothing (
                  Attrs.attr "max_tokens" Value.nothing (
                    Attrs.attr "seed" Value.nothing
                      (Attrs.attr "stop" (Value.list Values.nil) Attrs.end)))))),
      )
      ∷ ("output_schema_id", optional str, none_default)
      ∷ []))

abbrev pub token_usage : Ty
token_usage = dataclass "TokenUsage" (
    fields (
      ("input_tokens", optional int, none_default)
      ∷ ("output_tokens", optional int, none_default)
      ∷ []))

abbrev pub validation_outcome : Ty
validation_outcome = dataclass "ValidationOutcome" (
    fields (
      ("check", str, missing)
      ∷ ("passed", bool, missing)
      ∷ ("detail", optional str, none_default)
      ∷ []))

abbrev pub generation_candidate : Ty
generation_candidate = dataclass "GenerationCandidate" (
    fields (
      ("meta", artifact_meta, missing)
      ∷ ("candidate_id", str, missing)
      ∷ ("request_id", str, missing)
      ∷ ("status", enum generation_status, missing)
      ∷ ("content", optional str, none_default)
      ∷ ("patch", optional bounded_patch, none_default)
      ∷ ("token_usage", optional token_usage, none_default)
      ∷ ("validations", list validation_outcome, empty_list)
      ∷ []))
