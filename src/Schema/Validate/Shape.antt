-- ===== src/Schema/Validate/Shape.antt =====
-- The schema of a type alone, apart from the definitions: `type_schema` gives it whatever has been
-- defined before.
use Prim.Native.String.{◌++◌ as append}
use litharness_contracts.Prelude.{
  ℕ, suc, ◌+◌, ◌≡◌, refl, Bool, true, false, ◌&&◌, ◌==◌, not, none, some, if◌then◌else◌, Bool-cases,
  inl, inr,
}
use litharness_contracts.Json.{Json, Entries, entry}
use litharness_contracts.Types.{
  Ty, Types, Fields, any, none_type, union, enum, dataclass, field, is_none_type, count_args,
}
use litharness_contracts.Schema.Generate.{
  put, has_key, reference, enum_schema, class_body, required_names, type_schema, sole_schema,
  properties_schema, object_1, object_2,
}
use litharness_contracts.Schema.Gives.{Gives, gives, raises, Gives-bind, Gives-if, given}
use litharness_contracts.Schema.Validate.{pointed}

unfoldable mutual
  pub shape : Ty → Json
  shape any = Json.dict Entries.end
  shape (union ts) = shape_sole ts
  shape (Ty.list t) = object_2 "type" (Json.str "array") "items" (shape t)
  shape (Ty.dict k t) = object_2 "type" (Json.str "object") "additionalProperties" (shape t)
  shape (enum e) = reference e.name
  shape (dataclass c fs) = reference c
  shape Ty.bool = object_1 "type" (Json.str "boolean")
  shape Ty.int = object_1 "type" (Json.str "integer")
  shape Ty.float = object_1 "type" (Json.str "number")
  shape Ty.str = object_1 "type" (Json.str "string")
  shape none_type = Json.null
  shape (Ty.other t) = Json.null

  pub shape_sole : Types → Json
  shape_sole Types.nil = Json.null
  shape_sole (Types.cons t ts) =
      let here = shape t in let later = shape_sole ts in if is_none_type t then later else here

  pub shapes : Fields → Entries
  shapes Fields.end = Entries.end
  shapes (field n t d fs) = entry n (shape t) (shapes fs)

abbrev IsShape : Json → Json × Entries → Type 0
IsShape x r = r.0 ≡ x

abbrev AreShapes : Entries → Entries × Entries → Type 0
AreShapes m r = r.0 ≡ m

if_same :
    (c : Bool) (x y z : Json) → (c ≡ true → z ≡ x) → (c ≡ false → z ≡ y) → z ≡ (if c then x else y)
if_same true x y z f g = f refl
if_same false x y z f g = g refl

mutual
  unfolding type_schema shape

  type-IsShape : (t : Ty) (d : Entries) → Gives (IsShape (shape t)) (type_schema t d)
  type-IsShape any d = gives refl
  type-IsShape none_type d = raises
  type-IsShape (union ts) d =
      Gives-if (count_args ts == 1) (sole_schema ts d) none (λ _. sole-IsShape ts d) (λ _. raises)
  type-IsShape (Ty.list t) d = Gives-bind (type-IsShape t d) λ r h. gives (rw h refl)
  type-IsShape (Ty.dict k t) d = Gives-bind (type-IsShape t d) λ r h. gives (rw h refl)
  type-IsShape (enum c) d = gives refl
  type-IsShape (dataclass c fs) d =
      Gives-if (has_key c d) _ _ (λ old. gives refl)
        λ new. Gives-bind (fields-AreShapes fs (put c (Json.dict Entries.end) d)) λ r h. gives refl
  type-IsShape Ty.bool d = gives refl
  type-IsShape Ty.int d = gives refl
  type-IsShape Ty.float d = gives refl
  type-IsShape Ty.str d = gives refl
  type-IsShape (Ty.other t) d = raises

  sole-IsShape : (ts : Types) (d : Entries) → Gives (IsShape (shape_sole ts)) (sole_schema ts d)
  sole-IsShape Types.nil d = raises
  sole-IsShape (Types.cons t ts) d = elim (Bool-cases (is_none_type t)) [
    | inl is ↦ rw is (sole-IsShape ts d)
    | inr is_not ↦ rw is_not (type-IsShape t d)
  ]

  fields-AreShapes :
      (fs : Fields) (d : Entries) → Gives (AreShapes (shapes fs)) (properties_schema fs d)
  fields-AreShapes Fields.end d = gives refl
  fields-AreShapes (field n t def fs) d =
      Gives-bind (type-IsShape t d)
        λ r h. Gives-bind (fields-AreShapes fs r.1) λ q hs. gives (rw (h, hs) refl)

pub properties_schema-shapes :
    (fs : Fields) (d properties e : Entries)
    → properties_schema fs d ≡ some (properties, e)
    → properties ≡ shapes fs
properties_schema-shapes fs d properties e h = given (fields-AreShapes fs d) h

-- The schema of a class.
abbrev pub class_schema : Fields → Json
class_schema fs = Json.dict (class_body (shapes fs) (required_names fs))

-- The definitions have, under the name of each class and enum inside the type, its schema.
unfoldable mutual
  unfolding pointed

  pub Defined : Entries → Ty → Type 0
  Defined d (Ty.list t) = Defined d t
  Defined d (Ty.dict k t) = Defined d t
  Defined d (union ts) = DefinedSole d ts
  Defined d (enum e) = pointed (append "#/$defs/" e.name) d ≡ some (enum_schema e)
  Defined d (dataclass c fs) =
      (pointed (append "#/$defs/" c) d ≡ some (class_schema fs)) × DefinedFields d fs
  Defined d _ = Unit

  pub DefinedSole : Entries → Types → Type 0
  DefinedSole d Types.nil = Unit
  DefinedSole d (Types.cons t ts) = Defined d t × DefinedSole d ts

  pub DefinedFields : Entries → Fields → Type 0
  DefinedFields d Fields.end = Unit
  DefinedFields d (field n t def fs) = Defined d t × DefinedFields d fs

-- How deep references are followed in the schema of a type.
unfoldable mutual
  pub depth : Ty → ℕ
  depth (Ty.list t) = depth t
  depth (Ty.dict k t) = depth t
  depth (union ts) = depth_sole ts
  depth (enum e) = 1
  depth (dataclass c fs) = suc (depth_fields fs)
  depth _ = 0

  pub depth_sole : Types → ℕ
  depth_sole Types.nil = 0
  depth_sole (Types.cons t ts) = depth t + depth_sole ts

  pub depth_fields : Fields → ℕ
  depth_fields Fields.end = 0
  depth_fields (field n t d fs) = depth t + depth_fields fs

abbrev pub is_union : Ty → Bool
is_union (union ts) = true
is_union _ = false

-- `None` stands for a field that is left out, and nowhere else.
unfoldable mutual
  pub none_in_fields : Ty → Bool
  none_in_fields (Ty.list t) = not (is_union t) && none_in_fields t
  none_in_fields (Ty.dict k t) = not (is_union t) && none_in_fields t
  none_in_fields (union ts) = none_in_sole ts
  none_in_fields (dataclass c fs) = none_in_all fs
  none_in_fields _ = true

  pub none_in_sole : Types → Bool
  none_in_sole Types.nil = true
  none_in_sole (Types.cons t ts) = (not (is_union t) && none_in_fields t) && none_in_sole ts

  pub none_in_all : Fields → Bool
  none_in_all Fields.end = true
  none_in_all (field n t d fs) = none_in_fields t && none_in_all fs
