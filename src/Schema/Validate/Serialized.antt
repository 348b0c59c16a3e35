-- ===== src/Schema/Validate/Serialized.antt =====
-- What is written of an object of a registered type validates against the type's schema.
use litharness_contracts.Prelude.{
  ℕ, ◌≤◌, String, ◌≡◌, refl, sym, Bool, true, Option, none, some, List, [], ◌∷◌, find, some-eq,
  Option-cases, inl, inr, arith,
}
use litharness_contracts.Outcome.{ok}
use litharness_contracts.Json.{Json, Entries, entry}
use litharness_contracts.Value.{Value}
use litharness_contracts.Types.{Ty, Fields, any, dataclass}
use litharness_contracts.Serde.Encode.{to_jsonable}
use litharness_contracts.Serde.Typing.{HasType, well_formed, well_formed_fields}
use litharness_contracts.Contracts.Registry.{all_schema_types}
use litharness_contracts.Contracts.Registered.{registered-well_formed}
use litharness_contracts.Schema.Generate.{
  texts, class_body, required_names, properties_schema, json_schema, sort_entries,
}
use litharness_contracts.Schema.Validate.{
  valid_in, keyword_of, all_properties, all_there, follow, type_holds, required_holds, others_hold,
}
use litharness_contracts.Schema.Validate.Shape.{
  properties_schema-shapes, depth, depth_fields, DefinedFields, none_in_fields, none_in_all,
}
use litharness_contracts.Schema.Validate.Fields.{all_others-true}
use litharness_contracts.Schema.Validate.Valid.{class-fields-Validate}
use litharness_contracts.Schema.Definitions.{definitions, definitions-join, root}
use litharness_contracts.Schema.Validate.Defined.{registered-none_in_fields, registered-Defined}

-- The data validates against the whole schema, with references followed `n` deep.
unfoldable pub valid : ℕ → Json → Json → Bool
valid n schema x = valid_in (follow n (definitions schema)) schema x

root-valid :
    (refers : String → Json → Bool) (c schema_id : String) (required : List String)
    (ps defs m : Entries)
    → all_properties refers ps (Json.dict m) ≡ true
    → all_there (texts required) m ≡ true
    → valid_in refers (root c schema_id required (ps, defs)) (Json.dict m) ≡ true
unfolding valid_in keyword_of class_body type_holds required_holds others_hold
root-valid refers c schema_id [] ps Entries.end m hp hr = rw (hp, all_others-true _ m) refl
root-valid refers c schema_id [] ps (entry k x defs) m hp hr = rw (hp, all_others-true _ m) refl
root-valid refers c schema_id (n ∷ required) ps Entries.end m hp hr =
    rw (hp, all_others-true _ m, hr) refl
root-valid refers c schema_id (n ∷ required) ps (entry k x defs) m hp hr =
    rw (hp, all_others-true _ m, hr) refl

class-valid :
    (c schema_id : String) (fs : Fields) (v : Value) (x schema : Json) (properties defs : Entries)
    → well_formed_fields fs ≡ true
    → none_in_all fs ≡ true
    → DefinedFields (sort_entries defs) fs
    → HasType (dataclass c fs) v
    → to_jsonable v ≡ ok x
    → properties_schema fs Entries.end ≡ some (properties, defs)
    → schema ≡ root c schema_id (required_names fs) (properties, defs)
    → (n : ℕ) → depth_fields fs ≤ n
    → valid n schema x ≡ true
unfolding valid HasType to_jsonable
class-valid c schema_id fs v x schema properties defs w p def (ats, e, hs) written made is n le =
    let (m, es, _, whole) = class-fields-Validate (sort_entries defs) fs ats w p def hs in
    let (required, ok_properties) = whole m (λ j h. refl) in
    let shaped = properties_schema-shapes fs Entries.end properties defs made in
    let here = definitions-join properties (required_names fs) defs in
    let is_x : x ≡ Json.dict m = cc in
    let props : all_properties (follow n (sort_entries defs)) properties (Json.dict m) ≡ true =
      rw shaped (ok_properties n le) in
    rw (is, is_x, here)
      (root-valid (follow n (sort_entries defs)) c schema_id (required_names fs) properties defs m
        props required)

-- What `to_jsonable` writes of an object of a registered contract type validates against the schema
-- that `json_schema` generates for the type, where references are followed as deep as the type
-- nests, or deeper.
pub written_valid :
    (name : String) (t : Ty) (v : Value) (x schema : Json) (schema_id : String) (n : ℕ)
    → find name all_schema_types ≡ some t
    → HasType t v
    → to_jsonable v ≡ ok x
    → json_schema t schema_id ≡ some schema
    → depth t ≤ n
    → valid n schema x ≡ true
unfolding json_schema well_formed none_in_fields depth
written_valid name (dataclass c fs) v x schema schema_id n r h written made le =
    elim (Option-cases (properties_schema fs Entries.end)) [
      | inl refused ↦
          let bad : ◌≡◌ {A = Option Json} none (some schema) = rw refused at made in absurd (cc)
      | inr ((properties, defs), e) ↦
          let is : some (root c schema_id (required_names fs) (properties, defs)) ≡ some schema =
            rw e at made in
          class-valid c schema_id fs v x schema properties defs
            (registered-well_formed name (dataclass c fs) r)
            (registered-none_in_fields name (dataclass c fs) r)
            (registered-Defined name c fs properties defs r e) h written e (sym (some-eq is)) n
            (omega arith)
    ]
written_valid name any v x schema schema_id n r h written made le = absurd (cc)
written_valid name _ v x schema schema_id n r h written made le = absurd (cc)
