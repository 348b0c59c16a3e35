-- ===== src/Contracts/Goldens.antt =====
-- The gold suites: the enums and dataclasses of src/litharness_contracts/goldens.py.
use litharness_contracts.Prelude.{[], ◌∷◌}
use litharness_contracts.Types.{
  EnumClass, Ty, dataclass, empty_list, enum, fields, list, missing, none_default, optional, str,
}
use litharness_contracts.Contracts.Ids.{evidence_span, resource_ref}
use litharness_contracts.Contracts.Envelope.{artifact_meta}
use litharness_contracts.Contracts.Context.{context_query}
use litharness_contracts.Contracts.Propagation.{change_set}

abbrev pub gold_context_target : Ty
gold_context_target = dataclass "GoldContextTarget" (
    fields (
      ("reason", str, missing)
      ∷ ("span", optional evidence_span, none_default)
      ∷ ("ref", optional resource_ref, none_default)
      ∷ []))

abbrev pub gold_context_case : Ty
gold_context_case = dataclass "GoldContextCase" (
    fields (
      ("query", context_query, missing)
      ∷ ("mandatory", list gold_context_target, empty_list)
      ∷ ("forbidden", list gold_context_target, empty_list)
      ∷ ("notes", optional str, none_default)
      ∷ []))

abbrev pub gold_context_suite : Ty
gold_context_suite = dataclass "GoldContextSuite" (
    fields (
      ("meta", artifact_meta, missing)
      ∷ ("fixture_id", str, missing)
      ∷ ("cases", list gold_context_case, missing)
      ∷ []))

abbrev pub impact_label : EnumClass
impact_label = record {
  name = "ImpactLabel";
  members =
      ("MUST_UPDATE", "must_update")
      ∷ ("INSPECT", "inspect")
      ∷ ("DERIVED_ONLY", "derived_only")
      ∷ ("SAFE_PRESERVE", "safe_preserve")
      ∷ ("UNKNOWN", "unknown")
      ∷ [];
}

abbrev pub gold_impact_expectation : Ty
gold_impact_expectation = dataclass "GoldImpactExpectation" (
    fields (
      ("target", resource_ref, missing)
      ∷ ("label", enum impact_label, missing)
      ∷ ("note", optional str, none_default)
      ∷ []))

abbrev pub gold_impact_case : Ty
gold_impact_case = dataclass "GoldImpactCase" (
    fields (
      ("scenario_id", str, missing)
      ∷ ("description", str, missing)
      ∷ ("change_set", change_set, missing)
      ∷ ("expected", list gold_impact_expectation, missing)
      ∷ []))

abbrev pub gold_impact_suite : Ty
gold_impact_suite = dataclass "GoldImpactSuite" (
    fields (
      ("meta", artifact_meta, missing)
      ∷ ("fixture_id", str, missing)
      ∷ ("cases", list gold_impact_case, missing)
      ∷ []))
