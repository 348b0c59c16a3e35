-- ===== src/Json.antt =====
-- The data that json.loads gives and json.dumps takes: what `from_jsonable` reads and
-- `to_jsonable` writes (src/litharness_contracts/_serde.py).
use litharness_contracts.Prelude.{
  ℕ, ◌/◌, ◌%◌, ◌^◌, ◌-◌, String, Bool, false, ◌||◌, Option, none, some, if◌then◌else◌, str_eq, ltb,
  ◌==◌,
}
use litharness_contracts.Prelude.Int.{ℤ}

-- A Python float, an IEEE double, by its 64 bits.
pub record Float : Type 0 where
  pub bits : ℕ

-- `x.is_integer()`: by the exponent, all, some or none of the bits behind the point are zero.
abbrev pub whole_bits : (exponent fraction : ℕ) → Bool
whole_bits exponent fraction =
    if exponent == 2047
    then false
    else if exponent == 0
    then fraction == 0
    else if ltb exponent 1023
    then false
    else ltb 1074 exponent || ((fraction % 2 ^ (1075 - exponent)) == 0)

abbrev pub is_integer : Float → Bool
is_integer x = whole_bits ((x.bits / 2 ^ 52) % 2048) (x.bits % 2 ^ 52)

-- An object is its pairs in insertion order.
mutual
  pub data Json : Type 0 where
    null : Json
    bool : Bool → Json
    int : ℤ → Json
    float : Float → Json
    str : String → Json
    list : Items → Json
    dict : Entries → Json

  pub data Items : Type 0 where
    nil : Items
    item : Json → Items → Items

  pub data Entries : Type 0 where
    end : Entries
    entry : String → Json → Entries → Entries

-- `data.get(key)`, and `key in data` with `data[key]`
abbrev pub lookup : String → Entries → Option Json
lookup k end = none
lookup k (entry j x m) = if str_eq j k then some x else lookup k m

-- `type(data).__name__`
unfoldable pub type_name : Json → String
type_name Json.null = "NoneType"
type_name (Json.bool b) = "bool"
type_name (Json.int n) = "int"
type_name (Json.float x) = "float"
type_name (Json.str s) = "str"
type_name (Json.list xs) = "list"
type_name (Json.dict m) = "dict"
