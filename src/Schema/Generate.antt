-- ===== src/Schema/Generate.antt =====
-- `_is_required` and `json_schema`. The dict `defs`, which `type_schema` and `dataclass_schema` of
-- the source share, is passed along; none is the `TypeError` of a type that is not supported.
use Prim.Native.String.{◌++◌ as append, compare}
use litharness_contracts.Prelude.{
  String, Bool, true, false, not, ◌||◌, ◌==◌, Option, none, some, List, [], ◌∷◌, map, if◌then◌else◌,
  str_eq,
}
use litharness_contracts.Json.{Json, Items, Entries, item, entry}
use litharness_contracts.Builtins.Sorted.{not_after}
use litharness_contracts.Types.{
  Ty, Types, Fields, Default, EnumClass, any, none_type, union, enum, dataclass, field, missing,
  default, factory, is_none_type, count_args, is_optional,
}

infixl 5 ◌>>=◌
abbrev pub ◌>>=◌ {ℓ κ} : {S : Type ℓ} {T : Type κ} → Option S → (S → Option T) → Option T
none >>= next = none
some value >>= next = next value

-- `_is_required(f, hint)`
unfoldable pub is_required : Ty → Default → Bool
is_required t (default v) = false
is_required t (factory v) = false
is_required t missing = not (is_optional t)

-- `d[key] = value`
unfoldable pub put : String → Json → Entries → Entries
put k x Entries.end = entry k x Entries.end
put k x (entry j y m) = if str_eq j k then entry j x m else entry j y (put k x m)

abbrev pub has_key : String → Entries → Bool
has_key k Entries.end = false
has_key k (entry j x m) = str_eq j k || has_key k m

abbrev pub texts : List String → Items
texts [] = Items.nil
texts (s ∷ l) = item (Json.str s) (texts l)

-- `{key: value}` of two keys at most
abbrev pub object_1 : String → Json → Json
object_1 k x = Json.dict (entry k x Entries.end)

abbrev pub object_2 : String → Json → String → Json → Json
object_2 k x j y = Json.dict (entry k x (entry j y Entries.end))

unfoldable pub reference : String → Json
reference name = object_1 "$ref" (Json.str (append "#/$defs/" name))

unfoldable pub enum_schema : EnumClass → Json
enum_schema e =
    object_2 "type" (Json.str "string") "enum" (Json.list (texts (map (λ p. p.1) e.members)))

-- the keyword `required`, where there is a required field
abbrev pub required_entry : List String → Entries
required_entry [] = Entries.end
required_entry (n ∷ names) = entry "required" (Json.list (texts (n ∷ names))) Entries.end

unfoldable pub class_body : Entries → List String → Entries
class_body properties required = entry "type" (Json.str "object") (
    entry "properties" (Json.dict properties)
      (entry "additionalProperties" (Json.bool true) (required_entry required)))

-- The names of the required fields, in order.
unfoldable pub required_names : Fields → List String
unfolding is_required
required_names Fields.end = []
required_names (field n t d fs) =
    if is_required t d then n ∷ required_names fs else required_names fs

unfoldable mutual
  pub type_schema : Ty → Entries → Option (Json × Entries)
  type_schema any defs = some (Json.dict Entries.end, defs)
  type_schema none_type defs = none
  type_schema (union ts) defs =
      let sole = sole_schema ts defs in if count_args ts == 1 then sole else none
  type_schema (Ty.list t) defs = do
    (items, defs') ← type_schema t defs
    some (object_2 "type" (Json.str "array") "items" items, defs')
  type_schema (Ty.dict k t) defs = do
    (values, defs') ← type_schema t defs
    some (object_2 "type" (Json.str "object") "additionalProperties" values, defs')
  type_schema (enum e) defs =
      some (reference e.name, if has_key e.name defs then defs else put e.name (enum_schema e) defs)
  type_schema (dataclass c fs) defs =
      let fresh : Option (Json × Entries) = do
        (properties, defs') ← properties_schema fs (put c (Json.dict Entries.end) defs)
        some (reference c, put c (Json.dict (class_body properties (required_names fs))) defs')
      in if has_key c defs then some (reference c, defs) else fresh
  type_schema Ty.bool defs = some (object_1 "type" (Json.str "boolean"), defs)
  type_schema Ty.int defs = some (object_1 "type" (Json.str "integer"), defs)
  type_schema Ty.float defs = some (object_1 "type" (Json.str "number"), defs)
  type_schema Ty.str defs = some (object_1 "type" (Json.str "string"), defs)
  type_schema (Ty.other t) defs = none

  pub sole_schema : Types → Entries → Option (Json × Entries)
  sole_schema Types.nil defs = none
  sole_schema (Types.cons t ts) defs =
      let here = type_schema t defs in
      let later = sole_schema ts defs in if is_none_type t then later else here

  pub properties_schema : Fields → Entries → Option (Entries × Entries)
  properties_schema Fields.end defs = some (Entries.end, defs)
  properties_schema (field n t d fs) defs = do
    (schema, defs') ← type_schema t defs
    (properties, defs'') ← properties_schema fs defs'
    some (entry n schema properties, defs'')

-- `dict(sorted(defs.items()))`; no two names of `defs` are the same.
unfoldable pub insert_sorted : String → Json → Entries → Entries
insert_sorted k x Entries.end = entry k x Entries.end
insert_sorted k x (entry j y m) =
    if not_after (compare k j) then entry k x (entry j y m) else entry j y (insert_sorted k x m)

unfoldable pub sort_entries : Entries → Entries
unfolding insert_sorted
sort_entries Entries.end = Entries.end
sort_entries (entry k x m) = insert_sorted k x (sort_entries m)

-- the keyword `$defs`, where there is a definition
abbrev pub defs_entry : Entries → Entries
defs_entry Entries.end = Entries.end
defs_entry (entry k x m) = entry "$defs" (Json.dict (sort_entries (entry k x m))) Entries.end

abbrev pub join : Entries → Entries → Entries
join Entries.end m = m
join (entry k x l) m = entry k x (join l m)

unfoldable pub json_schema : Ty → String → Option Json
unfolding type_schema class_body
json_schema (dataclass c fs) schema_id = do
  (properties, defs) ← properties_schema fs Entries.end
  some (
      Json.dict (
        entry "$schema" (Json.str "https://json-schema.org/draft/2020-12/schema") (
          entry "$id" (Json.str schema_id) (
            entry "title" (Json.str c)
              (join (class_body properties (required_names fs)) (defs_entry defs))))))
json_schema _ schema_id = none
