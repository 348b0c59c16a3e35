-- ===== src/Tests/Compat.antt =====
-- The compatibility rules on two versions of a small class.
use litharness_contracts.Prelude.Int.{pos}
use litharness_contracts.Prelude.{◌∷◌, ◌^◌, find, ◌≡◌, ◌⊎◌, refl, true, false, some, [], ◌++◌}
use litharness_contracts.Outcome.{
  ok, err, Problem, JsonPath, at_path, missing_field, overflow_error, value_error, not_member,
}
use litharness_contracts.Json.{Json, Items, Entries, item, entry}
use litharness_contracts.Value.{Value, Attrs, attr, nothing, instance_of}
use litharness_contracts.Types.{
  Ty, Types, Fields, EnumClass, dataclass, field, missing, default, none_type, union, names,
}
use litharness_contracts.Serde.Encode.{to_jsonable}
use litharness_contracts.Serde.Decode.{from_jsonable, load_enum, load_str, absent}
use litharness_contracts.Builtins.Print.{print_int, print_sized}
use litharness_contracts.Builtins.Repr.{has_repr}
use litharness_contracts.Serde.Compat.{
  append_fields, append_attrs, additive_minor, older_reader, unknown_fields_ignored,
}
use litharness_contracts.Serde.Lookup.{Agree-entry}
use litharness_contracts.Serde.Faults.{from_jsonable_faults}
use litharness_contracts.Schema.Generate.{is_required, required_names}
use litharness_contracts.Schema.Required.{Present, decoded-Present, required_iff_refused}
use litharness_contracts.Schema.Total.{json_schema_total}
use litharness_contracts.Schema.Generate.{json_schema}
use litharness_contracts.Contracts.Ids.{resource_ref}
use litharness_contracts.Tests.Samples.{runtime}

abbrev older : Fields
older = field "id" Ty.str missing Fields.end

abbrev added : Fields
added =
    field "note" (union (Types.cons Ty.str (Types.cons none_type Types.nil))) (default nothing)
      Fields.end

abbrev clean : Entries
clean = entry "id" (Json.str "x") Entries.end

abbrev payload : Entries
payload = entry "colour" (Json.str "red") clean

abbrev read : Value
read = instance_of "Memo" (attr "id" (Value.str "x") Attrs.end)

abbrev newer_payload : Entries
newer_payload = entry "id" (Json.str "x") (entry "note" (Json.str "n") Entries.end)

abbrev newer : Value
newer = instance_of "Memo" (attr "id" (Value.str "x") (attr "note" (Value.str "n") Attrs.end))

reads : from_jsonable runtime (dataclass "Memo" older) [] (Json.dict payload) ≡ ok read
unfolding from_jsonable load_str
reads = refl

newer_reads :
    from_jsonable runtime
      (dataclass "Memo" (append_fields older added))
      []
      (Json.dict newer_payload)
    ≡ ok newer
unfolding from_jsonable load_str append_fields
newer_reads = refl

misses :
    from_jsonable runtime (dataclass "Memo" older) [] (Json.dict Entries.end)
    ≡ err (at_path [] (missing_field "id" "Memo"))
unfolding from_jsonable absent
misses = refl

unknown_fields_ignored_example :
    from_jsonable runtime (dataclass "Memo" older) [] (Json.dict payload)
    ≡ from_jsonable runtime (dataclass "Memo" older) [] (Json.dict clean)
unknown_fields_ignored_example =
    unknown_fields_ignored runtime "Memo" older [] payload clean
      (Agree-entry (names older) "colour" (Json.str "red") clean refl)

additive_minor_example :
    (w : Value) × (from_jsonable runtime
        (dataclass "Memo" (append_fields older added))
        []
        (Json.dict payload)
      ≡ ok w)
    × (to_jsonable w ≡ to_jsonable read)
additive_minor_example =
    additive_minor runtime "Memo" older added [] payload read refl (refl, tt) reads

older_reader_example :
    (ats more : Attrs) × (from_jsonable runtime
        (dataclass "Memo" older)
        []
        (Json.dict newer_payload)
      ≡ ok (instance_of "Memo" ats))
    × (newer ≡ instance_of "Memo" (append_attrs ats more))
older_reader_example = older_reader runtime "Memo" older added [] newer_payload newer newer_reads

from_jsonable_faults_example :
    (at_path [] (missing_field "id" "Memo") ≡ overflow_error)
    ⊎ (((at_path [] (missing_field "id" "Memo") ≡ value_error)
          × (has_repr (Json.dict Entries.end) ≡ false))
        ⊎ ((q : JsonPath) × (b : Problem) × (at_path [] (missing_field "id" "Memo")
              ≡ at_path (q ++ []) b)))
from_jsonable_faults_example =
    from_jsonable_faults runtime (dataclass "Memo" older) [] (Json.dict Entries.end)
      (at_path [] (missing_field "id" "Memo")) misses

decoded-Present_example : Present (required_names older) payload
decoded-Present_example = decoded-Present runtime "Memo" older [] payload read reads

required_iff_refused_example :
    (is_required Ty.str missing ≡ true
      → absent "Memo" "id" Ty.str missing [] ≡ err (at_path [] (missing_field "id" "Memo")))
    × (is_required Ty.str missing ≡ false
        → (v : Value) × (absent "Memo" "id" Ty.str missing [] ≡ ok v))
required_iff_refused_example = required_iff_refused "Memo" "id" Ty.str missing []

json_schema_total_example :
    (schema : Json) × (json_schema resource_ref "resource_ref.schema.json" ≡ some schema)
unfolding find
json_schema_total_example =
    json_schema_total "resource_ref" resource_ref "resource_ref.schema.json" refl

-- an enum without the member `unknown`
abbrev closed : EnumClass
closed = record { name = "Closed"; members = ("A", "a") ∷ [] }

refuses_int : load_enum closed [] (Json.int (pos 7)) ≡ err (at_path [] (not_member "Closed"))
unfolding load_enum print_int print_sized
refuses_int = refl

refuses_long_int :
    load_enum closed [] (Json.list (item (Json.int (pos (10 ^ 4300))) Items.nil)) ≡ err value_error
unfolding load_enum print_int print_sized
refuses_long_int = refl
