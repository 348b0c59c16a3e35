-- ===== src/Schema/Validate/Decoded.antt =====
-- Data that validates against the schema of a registered type decodes at the type.
use litharness_contracts.Prelude.{
  ℕ, String, ◌≡◌, refl, Bool, true, false, ◌||◌, ◌==◌, some, ◌∷◌, if◌then◌else◌, Bool-cases,
  Option-cases, inl, inr, &&-true, contains,
}
use litharness_contracts.Outcome.{Result, JsonPath, key}
use litharness_contracts.Json.{Json, Entries, lookup}
use litharness_contracts.Value.{Value}
use litharness_contracts.Types.{
  Ty, Types, Fields, Default, any, none_type, union, enum, dataclass, field, is_none_type,
  count_args, names,
}
use litharness_contracts.Runtime.{Runtime}
use litharness_contracts.Serde.Decode.{from_jsonable, load_sole, load_fields}
use litharness_contracts.Serde.Typing.{
  well_formed, well_formed_sole, well_formed_fields, nullable, absent_is_none,
}
use litharness_contracts.Serde.RoundTrip.{field_facts}
use litharness_contracts.Schema.Generate.{is_required, required_names, texts}
use litharness_contracts.Schema.Required.{required_iff_refused}
use litharness_contracts.Schema.Validate.{
  valid_in, keyword_of, all_properties, at_property, is_there, items_hold, others_hold, all_there,
  follow, type_holds,
}
use litharness_contracts.Schema.Validate.Shape.{
  shape, shape_sole, shapes, Defined, DefinedSole, DefinedFields,
}
use litharness_contracts.Schema.Validate.Meets.{Meets, required-split, class-Meets, enum-Meets}
use litharness_contracts.Schema.Validate.Whole.{has_whole, entries_have_whole, lookup-has_whole}
use litharness_contracts.Schema.Validate.Accepted.{
  Accepted, loads, Accepted-bind, Accepted-within, load_list-Accepted, load_dict-Accepted,
  load_enum-Accepted, load_float-Accepted, load_int-Accepted, load_bool-Accepted, load_str-Accepted,
}

sole-Accepted :
    (b : Bool) (here later : JsonPath → Json → Result Value) (s t : Json)
    (refers : String → Json → Bool) (p : JsonPath) (x : Json)
    → (b ≡ true → valid_in refers t x ≡ true → Accepted (has_whole x) (later p x))
    → (b ≡ false → valid_in refers s x ≡ true → Accepted (has_whole x) (here p x))
    → valid_in refers (if b then t else s) x ≡ true
    → Accepted (has_whole x) (if b then later p x else here p x)
sole-Accepted true here later s t refers p x f g h = f refl h
sole-Accepted false here later s t refers p x f g h = g refl h

module _ (rt : Runtime) (d : Entries) where
  union-Accepted :
      (ts : Types) (p : JsonPath) (x : Json)
      → (count_args ts == 1) ≡ true
      → Accepted (has_whole x) (load_sole rt ts p x)
      → Accepted (has_whole x) (from_jsonable rt (union ts) p x)
  unfolding from_jsonable
  union-Accepted ts p Json.null one h = loads
  union-Accepted ts p (Json.bool b) one h = rw one h
  union-Accepted ts p _ one h = rw one h

  field-Accepted :
      (c n : String) (t : Ty) (def : Default) (fs : Fields) (p : JsonPath) (m : Entries)
      → ((x : Json)
          → lookup n m ≡ some x
          → Accepted (has_whole x) (from_jsonable rt t (key n ∷ p) x))
      → (is_required t def ≡ true → is_there (lookup n m) ≡ true)
      → Accepted (entries_have_whole m) (load_fields rt c fs p m)
      → Accepted (entries_have_whole m) (load_fields rt c (field n t def fs) p m)
  unfolding from_jsonable
  field-Accepted c n t def fs p m has needed rest = elim (Option-cases (lookup n m)) [
    | inr (x, is) ↦ rw is (
        Accepted-bind (Accepted-within (lookup-has_whole n m x is) (has x is))
          λ v. Accepted-bind rest λ ats. loads)
    | inl lacks ↦ elim (Bool-cases (is_required t def)) [
      | inl req ↦ let bad : false ≡ true = rw lacks at (needed req) in absurd (cc)
      | inr not_req ↦
          let (v, is) = (required_iff_refused c n t def p).1 not_req in
          rw (lacks, is) (Accepted-bind rest λ ats. loads)
    ]
  ]

  mutual
    unfolding has_whole well_formed valid_in keyword_of shape Defined from_jsonable required_names

    type-Accepted :
        (n : ℕ) (t : Ty) (p : JsonPath) (x : Json)
        → well_formed t ≡ true
        → Defined d t
        → valid_in (follow n d) (shape t) x ≡ true
        → Accepted (has_whole x) (from_jsonable rt t p x)
    type-Accepted n any p x w def h = loads
    type-Accepted n none_type p x w def h = absurd (cc)
    type-Accepted n Ty.bool p x w def h =
        load_bool-Accepted p x (&&-true (type_holds (Json.str "boolean") x) true h).0
    type-Accepted n Ty.int p x w def h =
        load_int-Accepted p x (&&-true (type_holds (Json.str "integer") x) true h).0
    type-Accepted n Ty.float p x w def h =
        load_float-Accepted rt p x (&&-true (type_holds (Json.str "number") x) true h).0
    type-Accepted n Ty.str p x w def h =
        load_str-Accepted p x (&&-true (type_holds (Json.str "string") x) true h).0
    type-Accepted n (Ty.list t) p x w def h =
        let (array, rest) = &&-true (type_holds (Json.str "array") x) _ h in
        let (items, _) = &&-true (items_hold (valid_in (follow n d) (shape t)) x) true rest in
        load_list-Accepted (from_jsonable rt t) (valid_in (follow n d) (shape t))
          (λ q y hy. type-Accepted n t q y w def hy) p x array items
    type-Accepted n (Ty.dict k t) p x w def h =
        let (object, rest) = &&-true (type_holds (Json.str "object") x) _ h in
        let (others, _) =
          &&-true (others_hold (λ j. false) (valid_in (follow n d) (shape t)) x) true rest in
        load_dict-Accepted (from_jsonable rt t) (valid_in (follow n d) (shape t))
          (λ q y hy. type-Accepted n t q y w def hy) p x object others
    type-Accepted n (union ts) p x w def h =
        let (one, ws) = &&-true (count_args ts == 1) (well_formed_sole ts) w in
        union-Accepted ts p x one (types-Accepted n ts p x ws def h)
    type-Accepted n (enum e) p x w def h = load_enum-Accepted e p x (enum-Meets n d e x def h)
    type-Accepted n (dataclass c fs) p x w (def, defs) h =
        let (k, m, is, (properties, required)) = class-Meets n d c fs x def h in
        rw is (Accepted-bind (fields-Accepted k c fs p m w defs properties required) λ ats. loads)
    type-Accepted n (Ty.other t) p x w def h = absurd (cc)

    types-Accepted :
        (n : ℕ) (ts : Types) (p : JsonPath) (x : Json)
        → well_formed_sole ts ≡ true
        → DefinedSole d ts
        → valid_in (follow n d) (shape_sole ts) x ≡ true
        → Accepted (has_whole x) (load_sole rt ts p x)
    types-Accepted n Types.nil p x w def h = absurd (cc)
    types-Accepted n (Types.cons t ts) p x w (def, defs) h =
        let (wt, ws) = &&-true (is_none_type t || well_formed t) (well_formed_sole ts) w in
        sole-Accepted (is_none_type t) (from_jsonable rt t) (load_sole rt ts) (shape t)
          (shape_sole ts) (follow n d) p x (λ is hs. types-Accepted n ts p x ws defs hs)
          (λ is_not ht. type-Accepted n t p x (rw is_not at wt) def ht) h

    fields-Accepted :
        (n : ℕ) (c : String) (fs : Fields) (p : JsonPath) (m : Entries)
        → well_formed_fields fs ≡ true
        → DefinedFields d fs
        → all_properties (follow n d) (shapes fs) (Json.dict m) ≡ true
        → all_there (texts (required_names fs)) m ≡ true
        → Accepted (entries_have_whole m) (load_fields rt c fs p m)
    fields-Accepted n c Fields.end p m w def hp hr = loads
    fields-Accepted n c (field k t default_of fs) p m w (def, defs) hp hr =
        let (_, _, wt, ws) =
          field_facts (contains k (names fs)) (nullable t) (absent_is_none t default_of)
            (well_formed t) (well_formed_fields fs) w in
        let (here, later) =
          &&-true (at_property (valid_in (follow n d) (shape t)) (lookup k m))
            (all_properties (follow n d) (shapes fs) (Json.dict m)) hp in
        let (needed, rest) = required-split k t default_of fs m hr in
        field-Accepted c k t default_of fs p m
          (λ x is. type-Accepted n t (key k ∷ p) x wt def (rw is at here)) needed
          (fields-Accepted n c fs p m ws defs later rest)

  -- An object that has what the schema of a class asks for decodes as the class.
  pub class-Accepted :
      (n : ℕ) (c : String) (fs : Fields) (p : JsonPath) (m : Entries)
      → well_formed_fields fs ≡ true
      → DefinedFields d fs
      → Meets (follow n d) (shapes fs) (required_names fs) m
      → Accepted (has_whole (Json.dict m)) (from_jsonable rt (dataclass c fs) p (Json.dict m))
  unfolding from_jsonable has_whole
  class-Accepted n c fs p m w def (properties, required) =
      Accepted-bind (fields-Accepted n c fs p m w def properties required) λ ats. loads
