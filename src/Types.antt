-- ===== src/Types.antt =====
-- The types of contract fields, as `typing.get_type_hints` and `dataclasses.fields` show them to
-- src/litharness_contracts/_serde.py and _schema.py.
use litharness_contracts.Prelude.{
  ℕ, suc, String, Bool, true, false, ◌||◌, List, [], ◌∷◌, map, if◌then◌else◌, contains,
}
use litharness_contracts.Value.{Value, Values, Attrs}

-- An enum class of strings: its name, and its members' names with their values.
pub record EnumClass : Type 0 where
  pub name : String
  pub members : List (String × String)

-- A field's default: `dataclasses.MISSING` twice, a `default`, or a `default_factory` with what it
-- makes.
pub data Default : Type 0 where
  missing : Default
  default : Value → Default
  factory : Value → Default

-- `union` is `A | B` or `Optional`, `none_type` is `type(None)`, and `other` is any type that the
-- serializer does not know, by its name. No class of the package holds itself, so a class stands as
-- its name and its fields.
mutual
  pub data Ty : Type 0 where
    any : Ty
    none_type : Ty
    bool int float str : Ty
    list : Ty → Ty
    dict : Ty → Ty → Ty
    union : Types → Ty
    enum : EnumClass → Ty
    dataclass : String → Fields → Ty
    other : String → Ty

  pub data Types : Type 0 where
    nil : Types
    cons : Ty → Types → Types

  pub data Fields : Type 0 where
    end : Fields
    field : String → Ty → Default → Fields → Fields

-- A class body: its fields in order.
abbrev pub fields : List (String × Ty × Default) → Fields
fields [] = end
fields ((n, t, d) ∷ rest) = field n t d (fields rest)

-- `T | None`
abbrev pub optional : Ty → Ty
optional t = union (cons t (cons none_type nil))

abbrev pub is_none_type : Ty → Bool
is_none_type none_type = true
is_none_type _ = false

-- `type(None) in typing.get_args(tp)`
abbrev pub has_none : Types → Bool
has_none nil = false
has_none (cons t ts) = is_none_type t || has_none ts

-- `len([a for a in typing.get_args(tp) if a is not type(None)])`
abbrev pub count_args : Types → ℕ
count_args nil = 0
count_args (cons t ts) = if is_none_type t then count_args ts else suc (count_args ts)

-- `_is_optional(tp)`
abbrev pub is_optional : Ty → Bool
is_optional (union ts) = has_none ts
is_optional _ = false

-- The names of a class's fields, in order.
abbrev pub names : Fields → List String
names end = []
names (field n t d fs) = n ∷ names fs

-- `value in tp._value2member_map_`
abbrev pub has_value : EnumClass → String → Bool
has_value e s = contains s (map (λ p. p.1) e.members)

-- `= None`, `field(default_factory=list)` and `field(default_factory=dict)`
abbrev pub none_default : Default
none_default = default Value.nothing

abbrev pub empty_list : Default
empty_list = factory (Value.list Values.nil)

abbrev pub empty_dict : Default
empty_dict = factory (Value.dict Attrs.end)
