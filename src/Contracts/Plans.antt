-- ===== src/Contracts/Plans.antt =====
-- Plans: the enums and dataclasses of src/litharness_contracts/plans.py.
use litharness_contracts.Prelude.{[], ◌∷◌, false}
use litharness_contracts.Value.{Value}
use litharness_contracts.Types.{
  EnumClass, Ty, bool, dataclass, default, empty_list, enum, fields, list, missing, none_default,
  optional, str,
}
use litharness_contracts.Contracts.Ids.{resource_ref}
use litharness_contracts.Contracts.Envelope.{artifact_meta}

abbrev pub plan_kind : EnumClass
plan_kind = record {
  name = "PlanKind";
  members =
      ("PREMISE", "premise")
      ∷ ("BOOK_PLAN", "book_plan")
      ∷ ("CHAPTER_PLAN", "chapter_plan")
      ∷ ("SCENE_PLAN", "scene_plan")
      ∷ ("CONSTRAINT", "constraint")
      ∷ ("PROMISE", "promise")
      ∷ ("WORLD_RULE", "world_rule")
      ∷ ("UNKNOWN", "unknown")
      ∷ [];
}

abbrev pub plan_authority : EnumClass
plan_authority = record {
  name = "PlanAuthority";
  members =
      ("INTENDED", "intended")
      ∷ ("POSSIBLE", "possible")
      ∷ ("CANONICAL_IN_PROSE", "canonical_in_prose")
      ∷ ("UNKNOWN", "unknown")
      ∷ [];
}

abbrev pub plan_item : Ty
plan_item = dataclass "PlanItem" (
    fields (
      ("logical_id", str, missing)
      ∷ ("kind", enum plan_kind, missing)
      ∷ ("text", str, missing)
      ∷ ("authority", enum plan_authority, missing)
      ∷ ("locked", bool, default (Value.bool false))
      ∷ ("scope", optional resource_ref, none_default)
      ∷ ("links", list resource_ref, empty_list)
      ∷ []))

abbrev pub plan_snapshot : Ty
plan_snapshot = dataclass "PlanSnapshot" (
    fields (
      ("meta", artifact_meta, missing)
      ∷ ("book_id", str, missing)
      ∷ ("branch_id", str, missing)
      ∷ ("revision_id", str, missing)
      ∷ ("items", list plan_item, missing)
      ∷ []))
