-- ===== src/Tests/Validation.antt =====
-- Validation against the schema of a reference.
use litharness_contracts.Prelude.{◌≡◌, refl, true, false, find, arith, [], ◌∷◌, ◌++◌, ◌⊎◌}
use litharness_contracts.Json.{Json, Entries, Float, entry}
use litharness_contracts.Prelude.Int.{pos}
use litharness_contracts.Contracts.Context.{token_budget}
use litharness_contracts.Outcome.{ok, err, overflow_error, at_path, expected, key, JsonPath}
use litharness_contracts.Value.{Value}
use litharness_contracts.Serde.Decode.{from_jsonable, load_int}
use litharness_contracts.Serde.Typing.{HasType}
use litharness_contracts.Schema.Validate.Deserialized.{valid_decodes}
use litharness_contracts.Contracts.Ids.{resource_ref}
use litharness_contracts.Schema.Generate.{
  json_schema, reference, required_names, put, sort_entries, enum_schema,
}
use litharness_contracts.Schema.Validate.{
  valid_in, follow, pointed, keyword_of, type_holds, enum_holds, required_holds, others_hold,
}
use litharness_contracts.Schema.Validate.Whole.{has_whole}
use litharness_contracts.Schema.Validate.Shape.{depth}
use litharness_contracts.Schema.Validate.Serialized.{valid, written_valid}
use litharness_contracts.Tests.Samples.{runtime, scene_reference, scene_reference_data}
use litharness_contracts.Tests.Serializer.{scene_reference-HasType, writes}
use litharness_contracts.Tests.Schemas.{schema, schema_of, generates}

is_valid : valid 2 schema scene_reference_data ≡ true
unfolding valid valid_in follow pointed keyword_of type_holds enum_holds required_holds others_hold
    schema schema_of json_schema reference required_names put sort_entries enum_schema
is_valid = refl

written_valid_example : valid 2 schema scene_reference_data ≡ true
unfolding find depth
written_valid_example =
    written_valid "resource_ref" resource_ref scene_reference scene_reference_data schema
      "resource_ref.schema.json" 2 refl scene_reference-HasType writes generates (omega arith)

-- an object that lacks its required keys
lacks_keys : valid 2 schema (Json.dict (entry "kind" (Json.str "character") Entries.end)) ≡ false
unfolding valid valid_in follow pointed keyword_of type_holds enum_holds required_holds others_hold
    schema schema_of json_schema reference required_names put sort_entries enum_schema
lacks_keys = refl

valid_decodes_example :
    ((v : Value) × (from_jsonable runtime resource_ref [] scene_reference_data ≡ ok v)
      × HasType resource_ref v)
    ⊎ ((from_jsonable runtime resource_ref [] scene_reference_data ≡ err overflow_error)
        ⊎ ((has_whole scene_reference_data ≡ true)
            × (q : JsonPath) × (from_jsonable runtime resource_ref [] scene_reference_data
                ≡ err (at_path (q ++ []) (expected "integer" "float")))))
unfolding find
valid_decodes_example =
    valid_decodes runtime "resource_ref" resource_ref [] scene_reference_data schema
      "resource_ref.schema.json" 2 refl generates is_valid

abbrev budget_schema : Json
unfolding schema_of
budget_schema = schema_of (json_schema token_budget "token_budget.schema.json")

-- a budget with a float as its limit
abbrev budget : Float → Json
budget limit =
    Json.dict (entry "limit" (Json.float limit) (entry "used" (Json.int (pos 1)) Entries.end))

-- 8000.0 is an integer to the schema, 8000.5 is none.
whole_limit_is_valid : valid 1 budget_schema (budget (record { bits = 4665518107723300864 })) ≡ true
unfolding valid valid_in follow pointed keyword_of type_holds enum_holds required_holds others_hold
    schema_of json_schema reference required_names put sort_entries enum_schema
whole_limit_is_valid = refl

broken_limit : valid 1 budget_schema (budget (record { bits = 4665518657479114752 })) ≡ false
unfolding valid valid_in follow pointed keyword_of type_holds enum_holds required_holds others_hold
    schema_of json_schema reference required_names put sort_entries enum_schema
broken_limit = refl

-- The reader refuses it.
whole_limit_is_refused :
    from_jsonable runtime token_budget [] (budget (record { bits = 4665518107723300864 }))
    ≡ err (at_path (key "limit" ∷ []) (expected "integer" "float"))
unfolding from_jsonable load_int
whole_limit_is_refused = refl
