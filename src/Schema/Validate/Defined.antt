-- ===== src/Schema/Validate/Defined.antt =====
-- A test for the definitions that the types inside a class need, and that the schema of every
-- registered type has them.
use Prim.Native.String.{◌++◌ as append}
use litharness_contracts.Prelude.{
  String, ◌≡◌, refl, Bool, true, false, ◌&&◌, ◌==◌, Option, none, some, ap, &&-true, all, str_eq,
  eq_iff, find, arith,
}
use litharness_contracts.Prelude.Int.{int_eq, int_eq_iff}
use litharness_contracts.Json.{Json, Items, Entries, item, entry}
use litharness_contracts.Types.{Ty, Types, Fields, any, none_type, union, enum, dataclass, field}
use litharness_contracts.Contracts.Registry.{all_schema_types}
use litharness_contracts.Contracts.Registered.{all-find}
use litharness_contracts.Schema.Generate.{
  enum_schema, properties_schema, sort_entries, reference, required_names, put, class_body,
  type_schema,
}
use litharness_contracts.Schema.Validate.{pointed}
use litharness_contracts.Schema.Validate.Shape.{
  class_schema, shape, Defined, DefinedSole, DefinedFields, none_in_fields,
}

-- `==` of JSON data; a float equals itself alone.
unfoldable mutual
  same_json : Json → Json → Bool
  same_json Json.null Json.null = true
  same_json (Json.bool true) (Json.bool true) = true
  same_json (Json.bool false) (Json.bool false) = true
  same_json (Json.int a) (Json.int b) = int_eq a b
  same_json (Json.float x) (Json.float y) = x.bits == y.bits
  same_json (Json.str s) (Json.str t) = str_eq s t
  same_json (Json.list xs) (Json.list ys) = same_items xs ys
  same_json (Json.dict m) (Json.dict n) = same_entries m n
  same_json _ _ = false

  same_items : Items → Items → Bool
  same_items Items.nil Items.nil = true
  same_items (item x xs) (item y ys) = same_json x y && same_items xs ys
  same_items _ _ = false

  same_entries : Entries → Entries → Bool
  same_entries Entries.end Entries.end = true
  same_entries (entry k x m) (entry j y n) = str_eq k j && (same_json x y && same_entries m n)
  same_entries _ _ = false

mutual
  unfolding same_json

  same_json-eq : (x y : Json) → same_json x y ≡ true → x ≡ y
  same_json-eq Json.null Json.null h = refl
  same_json-eq (Json.bool true) (Json.bool true) h = refl
  same_json-eq (Json.bool false) (Json.bool false) h = refl
  same_json-eq (Json.int a) (Json.int b) h = ap Json.int ((int_eq_iff a b).0 h)
  same_json-eq (Json.float x) (Json.float y) h =
      let same : x.bits ≡ y.bits = ground arith in ap (λ n. Json.float (record { bits = n })) same
  same_json-eq (Json.str s) (Json.str t) h = ap Json.str ((eq_iff s t).0 h)
  same_json-eq (Json.list xs) (Json.list ys) h = ap Json.list (same_items-eq xs ys h)
  same_json-eq (Json.dict m) (Json.dict n) h = ap Json.dict (same_entries-eq m n h)
  same_json-eq x y h = ground arith

  same_items-eq : (xs ys : Items) → same_items xs ys ≡ true → xs ≡ ys
  same_items-eq Items.nil Items.nil h = refl
  same_items-eq (item x xs) (item y ys) h =
      let (hx, hs) = &&-true (same_json x y) (same_items xs ys) h in
      let first = same_json-eq x y hx in let rest = same_items-eq xs ys hs in cc
  same_items-eq xs ys h = ground arith

  same_entries-eq : (m n : Entries) → same_entries m n ≡ true → m ≡ n
  same_entries-eq Entries.end Entries.end h = refl
  same_entries-eq (entry k x m) (entry j y n) h =
      let (hk, hr) = &&-true (str_eq k j) (same_json x y && same_entries m n) h in
      let (hx, hm) = &&-true (same_json x y) (same_entries m n) hr in
      let key = (eq_iff k j).0 hk in
      let first = same_json-eq x y hx in let rest = same_entries-eq m n hm in cc
  same_entries-eq m n h = ground arith

unfoldable is_schema : Option Json → Json → Bool
unfolding same_json
is_schema none x = false
is_schema (some y) x = same_json y x

is_schema-eq : (o : Option Json) (x : Json) → is_schema o x ≡ true → o ≡ some x
unfolding is_schema
is_schema-eq none x h = absurd (cc)
is_schema-eq (some y) x h = ap some (same_json-eq y x h)

unfoldable mutual
  unfolding pointed is_schema

  defined : Entries → Ty → Bool
  defined d (Ty.list t) = defined d t
  defined d (Ty.dict k t) = defined d t
  defined d (union ts) = defined_sole d ts
  defined d (enum e) = is_schema (pointed (append "#/$defs/" e.name) d) (enum_schema e)
  defined d (dataclass c fs) =
      is_schema (pointed (append "#/$defs/" c) d) (class_schema fs) && defined_fields d fs
  defined d _ = true

  defined_sole : Entries → Types → Bool
  defined_sole d Types.nil = true
  defined_sole d (Types.cons t ts) = defined d t && defined_sole d ts

  defined_fields : Entries → Fields → Bool
  defined_fields d Fields.end = true
  defined_fields d (field n t def fs) = defined d t && defined_fields d fs

mutual
  unfolding defined Defined

  defined-Defined : (d : Entries) (t : Ty) → defined d t ≡ true → Defined d t
  defined-Defined d (Ty.list t) h = defined-Defined d t h
  defined-Defined d (Ty.dict k t) h = defined-Defined d t h
  defined-Defined d (union ts) h = defined_sole-Defined d ts h
  defined-Defined d (enum e) h =
      is_schema-eq (pointed (append "#/$defs/" e.name) d) (enum_schema e) h
  defined-Defined d (dataclass c fs) h =
      let (here, rest) =
        &&-true (is_schema (pointed (append "#/$defs/" c) d) (class_schema fs))
          (defined_fields d fs) h in
      (
        is_schema-eq (pointed (append "#/$defs/" c) d) (class_schema fs) here,
        defined_fields-Defined d fs rest,
      )
  defined-Defined d any h = tt
  defined-Defined d none_type h = tt
  defined-Defined d Ty.bool h = tt
  defined-Defined d Ty.int h = tt
  defined-Defined d Ty.float h = tt
  defined-Defined d Ty.str h = tt
  defined-Defined d (Ty.other t) h = tt

  defined_sole-Defined : (d : Entries) (ts : Types) → defined_sole d ts ≡ true → DefinedSole d ts
  defined_sole-Defined d Types.nil h = tt
  defined_sole-Defined d (Types.cons t ts) h =
      let (here, rest) = &&-true (defined d t) (defined_sole d ts) h in
      (defined-Defined d t here, defined_sole-Defined d ts rest)

  defined_fields-Defined :
      (d : Entries) (fs : Fields) → defined_fields d fs ≡ true → DefinedFields d fs
  defined_fields-Defined d Fields.end h = tt
  defined_fields-Defined d (field n t def fs) h =
      let (here, rest) = &&-true (defined d t) (defined_fields d fs) h in
      (defined-Defined d t here, defined_fields-Defined d fs rest)

abbrev defines_all : Fields → Option (Entries × Entries) → Bool
defines_all fs none = false
defines_all fs (some (properties, defs)) = defined_fields (sort_entries defs) fs

abbrev complete : Ty → Bool
complete (dataclass c fs) = defines_all fs (properties_schema fs Entries.end)
complete _ = false

all-complete : all (λ p. complete p.1) all_schema_types ≡ true
unfolding defined type_schema sort_entries reference required_names put class_body enum_schema shape
all-complete = refl

all-none_in_fields : all (λ p. none_in_fields p.1) all_schema_types ≡ true
unfolding none_in_fields
all-none_in_fields = refl

pub registered-none_in_fields :
    (n : String) (t : Ty) → find n all_schema_types ≡ some t → none_in_fields t ≡ true
registered-none_in_fields n t r = all-find none_in_fields n all_schema_types t all-none_in_fields r

-- The definitions in the schema of a registered class are those that the types inside it need.
pub registered-Defined :
    (n c : String) (fs : Fields) (properties defs : Entries)
    → find n all_schema_types ≡ some (dataclass c fs)
    → properties_schema fs Entries.end ≡ some (properties, defs)
    → DefinedFields (sort_entries defs) fs
registered-Defined n c fs properties defs r e =
    let h = all-find complete n all_schema_types (dataclass c fs) all-complete r in
    defined_fields-Defined (sort_entries defs) fs (rw e at h)
