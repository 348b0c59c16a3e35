-- ===== src/Serde/Typing.antt =====
-- When an object has the type of a field annotation, and when a contract type is well formed:
-- what `from_jsonable` and `to_jsonable` rely on, and the source leaves to the class definitions.
use litharness_contracts.Prelude.{
  String, ◌≡◌, Bool, true, false, ◌&&◌, ◌||◌, not, ◌⊎◌, ◌==◌, if◌then◌else◌, contains,
}
use litharness_contracts.Prelude.Int.{ℤ}
use litharness_contracts.Json.{Json, Float}
use litharness_contracts.Value.{
  Value, Values, Attrs, nothing, member, instance_of, of_json, cons, attr,
}
use litharness_contracts.Types.{
  Ty, Types, Fields, Default, any, none_type, union, enum, dataclass, field, missing, default,
  factory, is_none_type, has_none, has_value, count_args, is_optional, names,
}

module _ (P : Value → Type 0) where
  abbrev pub AllValues : Values → Type 0
  AllValues Values.nil = Unit
  AllValues (cons v vs) = P v × AllValues vs

  abbrev pub AllAttrs : Attrs → Type 0
  AllAttrs Attrs.end = Unit
  AllAttrs (attr k v ats) = P v × AllAttrs ats

-- The objects of a type. An `Any` holds JSON data; a field of type `float` holds a float.
unfoldable mutual
  pub HasType : Ty → Value → Type 0
  HasType any v = (x : Json) × (v ≡ of_json x)
  HasType none_type v = ⊥
  HasType Ty.bool v = (b : Bool) × (v ≡ Value.bool b)
  HasType Ty.int v = (n : ℤ) × (v ≡ Value.int n)
  HasType Ty.float v = (x : Float) × (v ≡ Value.float x)
  HasType Ty.str v = (s : String) × (v ≡ Value.str s)
  HasType (Ty.list t) v = (vs : Values) × (v ≡ Value.list vs) × AllValues (HasType t) vs
  HasType (Ty.dict k t) v = (ats : Attrs) × (v ≡ Value.dict ats) × AllAttrs (HasType t) ats
  HasType (union ts) v = ((has_none ts ≡ true) × (v ≡ nothing)) ⊎ HasSole ts v
  HasType (enum e) v = (s : String) × (v ≡ member e.name s) × (has_value e s ≡ true)
  HasType (dataclass c fs) v = (ats : Attrs) × (v ≡ instance_of c ats) × HasFields fs ats
  HasType (Ty.other t) v = ⊥

  pub HasSole : Types → Value → Type 0
  HasSole Types.nil v = ⊥
  HasSole (Types.cons t ts) v =
      let here = HasType t v in let later = HasSole ts v in if is_none_type t then later else here

  pub HasFields : Fields → Attrs → Type 0
  HasFields Fields.end ats = ats ≡ Attrs.end
  HasFields (field n t d fs) ats =
      (v : Value) × (rest : Attrs) × (ats ≡ attr n v rest) × HasType t v × HasFields fs rest

-- Only fields of these types can hold `None`.
abbrev pub nullable : Ty → Bool
nullable any = true
nullable (union ts) = true
nullable _ = false

abbrev pub is_nothing : Value → Bool
is_nothing nothing = true
is_nothing _ = false

-- A field that the payload lacks is read as `None`.
abbrev pub absent_is_none : Ty → Default → Bool
absent_is_none t missing = is_optional t
absent_is_none t (default v) = is_nothing v
absent_is_none t (factory v) = is_nothing v

-- The serializer knows every type inside; a union has one argument that is not `None`; no two
-- fields of a class share a name; and a field that can hold `None`, which the writer drops, is read
-- as `None` where it is absent.
unfoldable mutual
  pub well_formed : Ty → Bool
  well_formed any = true
  well_formed none_type = false
  well_formed Ty.bool = true
  well_formed Ty.int = true
  well_formed Ty.float = true
  well_formed Ty.str = true
  well_formed (Ty.list t) = well_formed t
  well_formed (Ty.dict k t) = well_formed t
  well_formed (union ts) = (count_args ts == 1) && well_formed_sole ts
  well_formed (enum e) = true
  well_formed (dataclass c fs) = well_formed_fields fs
  well_formed (Ty.other t) = false

  pub well_formed_sole : Types → Bool
  well_formed_sole Types.nil = true
  well_formed_sole (Types.cons t ts) = (is_none_type t || well_formed t) && well_formed_sole ts

  pub well_formed_fields : Fields → Bool
  well_formed_fields Fields.end = true
  well_formed_fields (field n t d fs) =
      not (contains n (names fs))
      && ((not (nullable t) || absent_is_none t d) && (well_formed t && well_formed_fields fs))
