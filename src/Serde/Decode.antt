-- ===== src/Serde/Decode.antt =====
-- `from_jsonable`.
use litharness_contracts.Prelude.{ℕ, suc, String, Option, none, some, ◌∷◌, ◌==◌, if◌then◌else◌}
use litharness_contracts.Outcome.{
  Error, Result, ok, err, at_path, overflow_error, value_error, ◌>>=◌, JsonPath, key, index,
  expected, not_member, missing_field, unsupported_union, unsupported_type,
}
use litharness_contracts.Json.{Json, Items, Entries, Float, item, entry, lookup, type_name}
use litharness_contracts.Value.{
  Value, Values, Attrs, nothing, member, instance_of, of_json, cons, attr,
}
use litharness_contracts.Types.{
  Ty, Types, Fields, Default, EnumClass, any, none_type, union, enum, dataclass, field, missing,
  default, factory, is_none_type, has_value, count_args, is_optional,
}
use litharness_contracts.Runtime.{Runtime}
use litharness_contracts.Builtins.Repr.{has_repr}

-- The comprehension over a list, with the index of the next item.
unfoldable pub load_items : (JsonPath → Json → Result Value) → JsonPath → ℕ → Items → Result Values
load_items load p i Items.nil = ok Values.nil
load_items load p i (item x xs) = do
  v ← load (index i ∷ p) x
  vs ← load_items load p (suc i) xs
  ok (cons v vs)

-- The comprehension over a dict.
unfoldable pub load_entries : (JsonPath → Json → Result Value) → JsonPath → Entries → Result Attrs
load_entries load p Entries.end = ok Attrs.end
load_entries load p (entry k x m) = do
  v ← load (key k ∷ p) x
  ats ← load_entries load p m
  ok (attr k v ats)

unfoldable pub load_list : (JsonPath → Json → Result Value) → JsonPath → Json → Result Value
unfolding load_items type_name
load_list load p (Json.list xs) = do vs ← load_items load p 0 xs; ok (Value.list vs)
load_list load p x = err (at_path p (expected "list" (type_name x)))

unfoldable pub load_dict : (JsonPath → Json → Result Value) → JsonPath → Json → Result Value
unfolding load_entries type_name
load_dict load p (Json.dict m) = do ats ← load_entries load p m; ok (Value.dict ats)
load_dict load p x = err (at_path p (expected "object" (type_name x)))

-- The `ContractError` of data that is no member, or the `ValueError` of `{data!r}` in its message.
abbrev pub not_among : EnumClass → JsonPath → Json → Error
not_among e p x = if has_repr x then at_path p (not_member e.name) else value_error

-- `tp(data)` and its handler; a member's value is a string, so no other data equals one.
unfoldable pub load_enum : EnumClass → JsonPath → Json → Result Value
unfolding has_repr
load_enum e p (Json.str s) =
    if has_value e s
    then ok (member e.name s)
    else if has_value e "unknown"
    then ok (member e.name "unknown")
    else err (not_among e p (Json.str s))
load_enum e p x =
    if has_value e "unknown" then ok (member e.name "unknown") else err (not_among e p x)

unfoldable pub load_int : JsonPath → Json → Result Value
unfolding type_name
load_int p (Json.int n) = ok (Value.int n)
load_int p x = err (at_path p (expected "integer" (type_name x)))

unfoldable pub load_bool : JsonPath → Json → Result Value
unfolding type_name
load_bool p (Json.bool b) = ok (Value.bool b)
load_bool p x = err (at_path p (expected "boolean" (type_name x)))

unfoldable pub load_str : JsonPath → Json → Result Value
unfolding type_name
load_str p (Json.str s) = ok (Value.str s)
load_str p x = err (at_path p (expected "string" (type_name x)))

-- A field that the data lacks: its default or its factory's value (which the constructor of the
-- class puts in), else `None` where the type allows it.
unfoldable pub absent : String → String → Ty → Default → JsonPath → Result Value
absent c n t (default v) p = ok v
absent c n t (factory v) p = ok v
absent c n t missing p = if is_optional t then ok nothing else err (at_path p (missing_field n c))

abbrev pub floated : Option Float → Result Value
floated none = err overflow_error
floated (some x) = ok (Value.float x)

module _ (rt : Runtime) where
  -- `float(data)`
  unfoldable pub load_float : JsonPath → Json → Result Value
  unfolding type_name
  load_float p (Json.float x) = ok (Value.float x)
  load_float p (Json.int n) = elim (rt.float_of_int n) [
    | none ↦ err overflow_error
    | some x ↦ ok (Value.float x)
  ]
  load_float p x = err (at_path p (expected "number" (type_name x)))

  -- `load_sole` decodes by the first argument of a union that is not `None`; `load_fields` is the
  -- loop over the fields of the class `c`, and gives the attributes of the object that the class
  -- builds from `kwargs`.
  unfoldable mutual
    pub from_jsonable : Ty → JsonPath → Json → Result Value
    from_jsonable any p x = ok (of_json x)
    from_jsonable (union ts) p x =
        let sole = load_sole ts p x in
        elim x [
          | Json.null ↦ ok nothing
          | _ ↦ if count_args ts == 1 then sole else err (at_path p unsupported_union)
        ]
    from_jsonable (Ty.list t) p x = load_list (from_jsonable t) p x
    from_jsonable (Ty.dict k t) p x = load_dict (from_jsonable t) p x
    from_jsonable (enum e) p x = load_enum e p x
    from_jsonable (dataclass c fs) p (Json.dict m) = do
      ats ← load_fields c fs p m
      ok (instance_of c ats)
    from_jsonable (dataclass c fs) p x = err (at_path p (expected c (type_name x)))
    from_jsonable Ty.float p x = load_float p x
    from_jsonable Ty.int p x = load_int p x
    from_jsonable Ty.bool p x = load_bool p x
    from_jsonable Ty.str p x = load_str p x
    from_jsonable none_type p x = err (at_path p unsupported_type)
    from_jsonable (Ty.other t) p x = err (at_path p unsupported_type)

    pub load_sole : Types → JsonPath → Json → Result Value
    load_sole Types.nil p x = err (at_path p unsupported_union)
    load_sole (Types.cons t ts) p x =
        let here = from_jsonable t p x in
        let later = load_sole ts p x in if is_none_type t then later else here

    pub load_fields : String → Fields → JsonPath → Entries → Result Attrs
    load_fields c Fields.end p m = ok Attrs.end
    load_fields c (field n t d fs) p m =
        let here : Result Value = elim (lookup n m) [
          | some x ↦ from_jsonable t (key n ∷ p) x
          | none ↦ absent c n t d p
        ] in
        do v ← here; ats ← load_fields c fs p m; ok (attr n v ats)
