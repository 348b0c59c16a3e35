-- ===== src/Value.antt =====
-- The Python objects that contracts are built from: what `to_jsonable` reads and `from_jsonable`
-- gives (src/litharness_contracts/_serde.py).
use litharness_contracts.Prelude.{String, Bool, Option, none, some, if◌then◌else◌, str_eq}
use litharness_contracts.Prelude.Int.{ℤ}
use litharness_contracts.Json.{Json, Items, Entries, Float}

-- `member` is a member of an enum, by the names of the class and the member's value; `instance_of`
-- is an instance of a dataclass, by the class's name and the attributes in the order of its fields;
-- `other` is any other object, by the name of its type. Keys of a `dict` are strings.
mutual
  pub data Value : Type 0 where
    nothing : Value
    bool : Bool → Value
    int : ℤ → Value
    float : Float → Value
    str : String → Value
    list : Values → Value
    dict : Attrs → Value
    member : String → String → Value
    instance_of : String → Attrs → Value
    other : String → Value

  pub data Values : Type 0 where
    nil : Values
    cons : Value → Values → Values

  pub data Attrs : Type 0 where
    end : Attrs
    attr : String → Value → Attrs → Attrs

-- `getattr(obj, name)`, where there is one
abbrev pub get_attr : String → Attrs → Option Value
get_attr k end = none
get_attr k (attr j v ats) = if str_eq j k then some v else get_attr k ats

-- JSON data as Python objects, as json.loads gives it.
unfoldable mutual
  pub of_json : Json → Value
  of_json Json.null = nothing
  of_json (Json.bool b) = bool b
  of_json (Json.int n) = int n
  of_json (Json.float x) = float x
  of_json (Json.str s) = str s
  of_json (Json.list xs) = list (of_items xs)
  of_json (Json.dict m) = dict (of_entries m)

  pub of_items : Items → Values
  of_items Items.nil = nil
  of_items (Items.item x xs) = cons (of_json x) (of_items xs)

  pub of_entries : Entries → Attrs
  of_entries Entries.end = end
  of_entries (Entries.entry k x m) = attr k (of_json x) (of_entries m)
