-- ===== src/Tests/Schemas.antt =====
-- Schemas, and the exported names.
use litharness_contracts.Prelude.{find, String, ◌≡◌, refl, ◌≢◌, true, Option, none, some, contains}
use litharness_contracts.Json.{Json, Entries, lookup, Float}
use litharness_contracts.Builtins.Sorted.{sort_by_name}
use litharness_contracts.Builtins.Dump.{dumps, bracketed, dump_text}
use litharness_contracts.Builtins.Printed.{printed}
use litharness_contracts.Commands.Render.{render_schema, dumped_schema}
use litharness_contracts.Commands.Ascii.{render_schema-printed}
use litharness_contracts.Contracts.Ids.{resource_ref}
use litharness_contracts.Contracts.Exports.{exported, class_names, classes_exported}
use litharness_contracts.Schema.Generate.{
  json_schema, reference, required_names, put, sort_entries, enum_schema,
}
use litharness_contracts.Schema.Refs.{refs_ok}
use litharness_contracts.Schema.Definitions.{definitions, json_schema_closed}

unfoldable pub schema_of : Option Json → Json
schema_of (some schema) = schema
schema_of none = Json.null

unfoldable pub schema : Json
unfolding schema_of
schema = schema_of (json_schema resource_ref "resource_ref.schema.json")

pub generates : json_schema resource_ref "resource_ref.schema.json" ≡ some schema
unfolding json_schema schema schema_of
generates = refl

json_schema_closed_example :
    (refs_ok (definitions schema) schema ≡ true)
    × ((k : String) → lookup k (definitions schema) ≢ some (Json.dict Entries.end))
json_schema_closed_example =
    json_schema_closed resource_ref "resource_ref.schema.json" schema generates

classes_exported_example : contains "ResourceKind" exported ≡ true
unfolding find class_names
classes_exported_example = classes_exported "resource_ref" "ResourceKind" resource_ref refl refl

text_of : Option String → String
text_of (some text) = text
text_of none = ""

abbrev dump_float : Float → String
dump_float x = "0.5"

abbrev text : String
unfolding text_of
text = text_of (render_schema dump_float resource_ref "resource_ref.schema.json")

renders : render_schema dump_float resource_ref "resource_ref.schema.json" ≡ some text
unfolding text text_of render_schema dumped_schema dumps bracketed dump_text sort_by_name
    json_schema reference required_names put sort_entries enum_schema
renders = refl

render_schema-printed_example : printed text ≡ true
render_schema-printed_example =
    render_schema-printed dump_float resource_ref "resource_ref.schema.json" text renders
