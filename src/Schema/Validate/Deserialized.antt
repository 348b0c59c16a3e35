-- ===== src/Schema/Validate/Deserialized.antt =====
-- What validates against the schema of a registered type decodes at the type.
use litharness_contracts.Prelude.{
  ℕ, String, ◌≡◌, refl, sym, ◌∙◌, ap, ◌++◌, ◌⊎◌, inl, inr, true, Option, none, some, List, [], ◌∷◌,
  find, some-eq, Option-cases, &&-true, Bool,
}
use litharness_contracts.Outcome.{
  Result, Problem, ok, err, overflow_error, at_path, expected, JsonPath,
}
use litharness_contracts.Serde.Faults.{from_jsonable_faults}
use litharness_contracts.Json.{Json, Entries, entry}
use litharness_contracts.Value.{Value}
use litharness_contracts.Types.{Ty, Fields, any, dataclass}
use litharness_contracts.Runtime.{Runtime}
use litharness_contracts.Serde.Decode.{from_jsonable}
use litharness_contracts.Serde.Typing.{HasType, well_formed, well_formed_fields}
use litharness_contracts.Contracts.Registry.{all_schema_types}
use litharness_contracts.Contracts.Registered.{registered-well_formed}
use litharness_contracts.Contracts.Artifacts.{decoded_stable}
use litharness_contracts.Schema.Generate.{
  class_body, required_names, properties_schema, json_schema, sort_entries,
}
use litharness_contracts.Schema.Validate.{
  valid_in, keyword_of, all_properties, follow, type_holds, required_holds,
}
use litharness_contracts.Schema.Validate.Shape.{properties_schema-shapes, DefinedFields}
use litharness_contracts.Schema.Definitions.{definitions-join, root}
use litharness_contracts.Schema.Validate.Defined.{registered-Defined}
use litharness_contracts.Schema.Validate.Whole.{has_whole}
use litharness_contracts.Schema.Validate.Accepted.{Accepted, loads, overflows, refuses_float}
use litharness_contracts.Schema.Validate.Meets.{Meets, required-Meets}
use litharness_contracts.Schema.Validate.Decoded.{class-Accepted}
use litharness_contracts.Schema.Validate.Serialized.{valid}

root-Meets :
    (refers : String → Json → Bool) (c schema_id : String) (required : List String)
    (ps defs : Entries) (x : Json)
    → valid_in refers (root c schema_id required (ps, defs)) x ≡ true
    → (m : Entries) × (x ≡ Json.dict m) × Meets refers ps required m
unfolding valid_in keyword_of class_body type_holds required_holds
root-Meets refers c schema_id [] ps Entries.end (Json.dict m) h =
    (m, refl, ((&&-true (all_properties refers ps (Json.dict m)) _ h).0, refl))
root-Meets refers c schema_id [] ps (entry k y defs) (Json.dict m) h =
    (m, refl, ((&&-true (all_properties refers ps (Json.dict m)) _ h).0, refl))
root-Meets refers c schema_id (n ∷ required) ps Entries.end (Json.dict m) h =
    (m, refl, required-Meets refers n required ps m h)
root-Meets refers c schema_id (n ∷ required) ps (entry k y defs) (Json.dict m) h =
    (m, refl, required-Meets refers n required ps m h)
root-Meets refers c schema_id [] ps defs Json.null h = absurd (cc)
root-Meets refers c schema_id [] ps defs x h = absurd (cc)
root-Meets refers c schema_id (n ∷ required) ps defs Json.null h = absurd (cc)
root-Meets refers c schema_id (n ∷ required) ps defs x h = absurd (cc)

-- An object of the type; or the overflow of `float(data)`; or, where the data has a float with the
-- fraction zero, a float stands, at the path or inside, where the type asks for an int.
abbrev pub DecodesOr : Runtime → Ty → JsonPath → Json → Type 0
DecodesOr rt t p x =
    ((v : Value) × (from_jsonable rt t p x ≡ ok v) × HasType t v)
    ⊎ ((from_jsonable rt t p x ≡ err overflow_error)
        ⊎ ((has_whole x ≡ true)
            × (q : JsonPath) × (from_jsonable rt t p x
                ≡ err (at_path (q ++ p) (expected "integer" "float")))))

at_path-eq : {q r : JsonPath} {a b : Problem} → at_path q a ≡ at_path r b → q ≡ r
at_path-eq h = cc

outcomes :
    (rt : Runtime) (name : String) (t : Ty) (p : JsonPath) (x : Json) {r : Result Value}
    → find name all_schema_types ≡ some t
    → from_jsonable rt t p x ≡ r
    → Accepted (has_whole x) r
    → DecodesOr rt t p x
outcomes rt name t p x r e (loads {a}) = inl (a, e, (decoded_stable rt name t a p x r e).0)
outcomes rt name t p x r e overflows = inr (inl e)
outcomes rt name t p x r e (refuses_float q whole) = elim (from_jsonable_faults rt t p x _ e) [
  | inl overflow ↦ absurd (cc)
  | inr (inl (value, _)) ↦ absurd (cc)
  | inr (inr (inside, b, is)) ↦ inr (
      inr
        (whole, inside, e ∙ ap (λ s. err (at_path s (expected "integer" "float"))) (at_path-eq is)))
]

class-decodes :
    (rt : Runtime) (c schema_id : String) (fs : Fields) (p : JsonPath) (x schema : Json)
    (properties defs : Entries) (n : ℕ)
    → well_formed_fields fs ≡ true
    → DefinedFields (sort_entries defs) fs
    → properties_schema fs Entries.end ≡ some (properties, defs)
    → schema ≡ root c schema_id (required_names fs) (properties, defs)
    → valid n schema x ≡ true
    → Accepted (has_whole x) (from_jsonable rt (dataclass c fs) p x)
unfolding valid
class-decodes rt c schema_id fs p x schema properties defs n w def made is h =
    let here = definitions-join properties (required_names fs) defs in
    let shaped = properties_schema-shapes fs Entries.end properties defs made in
    let (m, is_m, meets) =
      root-Meets (follow n (sort_entries defs)) c schema_id (required_names fs) properties defs x
        (rw (is, here) at h) in
    rw is_m (class-Accepted rt (sort_entries defs) n c fs p m w def (rw shaped at meets))

-- Data that validates against the schema that `json_schema` generates for a registered contract
-- type decodes at the type, at any path, to an object of the type, unless an int in it is too large
-- for a float, or it has a float with the fraction zero and a float stands, at the path or inside,
-- where the type asks for an int.
pub valid_decodes :
    (rt : Runtime) (name : String) (t : Ty) (p : JsonPath) (x schema : Json) (schema_id : String)
    (n : ℕ)
    → find name all_schema_types ≡ some t
    → json_schema t schema_id ≡ some schema
    → valid n schema x ≡ true
    → ((v : Value) × (from_jsonable rt t p x ≡ ok v) × HasType t v)
      ⊎ ((from_jsonable rt t p x ≡ err overflow_error)
          ⊎ ((has_whole x ≡ true)
              × (q : JsonPath) × (from_jsonable rt t p x
                  ≡ err (at_path (q ++ p) (expected "integer" "float")))))
unfolding json_schema well_formed
valid_decodes rt name (dataclass c fs) p x schema schema_id n r made h =
    elim (Option-cases (properties_schema fs Entries.end)) [
      | inl refused ↦
          let bad : ◌≡◌ {A = Option Json} none (some schema) = rw refused at made in absurd (cc)
      | inr ((properties, defs), e) ↦
          let is : some (root c schema_id (required_names fs) (properties, defs)) ≡ some schema =
            rw e at made in
          outcomes rt name (dataclass c fs) p x r refl (
            class-decodes rt c schema_id fs p x schema properties defs n
              (registered-well_formed name (dataclass c fs) r)
              (registered-Defined name c fs properties defs r e) e (sym (some-eq is)) h)
    ]
valid_decodes rt name any p x schema schema_id n r made h = absurd (cc)
valid_decodes rt name _ p x schema schema_id n r made h = absurd (cc)
