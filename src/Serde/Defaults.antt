-- ===== src/Serde/Defaults.antt =====
-- The defaults of class fields against the fields' types.
use litharness_contracts.Prelude.{
  String, ◌≡◌, refl, Bool, true, false, ◌&&◌, ◌||◌, inl, inr, Bool-cases, if◌then◌else◌, &&-true,
  str_eq, eq_iff,
}
use litharness_contracts.Prelude.Int.{ℤ}
use litharness_contracts.Json.{Float}
use litharness_contracts.Value.{Value, Values, Attrs, nothing, member, instance_of, of_json, attr}
use litharness_contracts.Types.{
  Ty, Types, Fields, Default, EnumClass, any, none_type, union, enum, dataclass, field, missing,
  default, factory, has_none, has_value, is_none_type,
}
use litharness_contracts.Serde.Plain.{is_plain, json-plain}
use litharness_contracts.Serde.Typing.{HasType, HasSole, HasFields, AllValues, AllAttrs, is_nothing}

abbrev is_bool : Value → Bool
is_bool (Value.bool b) = true
is_bool _ = false

abbrev is_int : Value → Bool
is_int (Value.int n) = true
is_int _ = false

abbrev is_float : Value → Bool
is_float (Value.float x) = true
is_float _ = false

abbrev is_str : Value → Bool
is_str (Value.str s) = true
is_str _ = false

abbrev pub all_values : (Value → Bool) → Values → Bool
all_values p Values.nil = true
all_values p (Values.cons v vs) = p v && all_values p vs

abbrev pub all_attrs : (Value → Bool) → Attrs → Bool
all_attrs p Attrs.end = true
all_attrs p (attr k v ats) = p v && all_attrs p ats

abbrev is_member : EnumClass → Value → Bool
is_member e (member c s) = str_eq c e.name && has_value e s
is_member e _ = false

-- A test for types.
unfoldable mutual
  unfolding is_plain

  pub fits : Ty → Value → Bool
  fits any v = is_plain v
  fits none_type v = false
  fits Ty.bool v = is_bool v
  fits Ty.int v = is_int v
  fits Ty.float v = is_float v
  fits Ty.str v = is_str v
  fits (Ty.list t) (Value.list vs) = all_values (fits t) vs
  fits (Ty.list t) _ = false
  fits (Ty.dict k t) (Value.dict ats) = all_attrs (fits t) ats
  fits (Ty.dict k t) _ = false
  fits (union ts) v = (has_none ts && is_nothing v) || fits_sole ts v
  fits (enum e) v = is_member e v
  fits (dataclass c fs) (instance_of c' ats) = str_eq c' c && fits_fields fs ats
  fits (dataclass c fs) _ = false
  fits (Ty.other t) v = false

  pub fits_sole : Types → Value → Bool
  fits_sole Types.nil v = false
  fits_sole (Types.cons t ts) v =
      let here = fits t v in let later = fits_sole ts v in if is_none_type t then later else here

  pub fits_fields : Fields → Attrs → Bool
  fits_fields Fields.end Attrs.end = true
  fits_fields (field n t d fs) (attr k v ats) = str_eq k n && (fits t v && fits_fields fs ats)
  fits_fields _ _ = false

pub is_nothing-eq : (v : Value) → is_nothing v ≡ true → v ≡ nothing
is_nothing-eq nothing h = refl
is_nothing-eq (Value.bool b) h = cc
is_nothing-eq _ h = cc

bool-fits : (v : Value) → is_bool v ≡ true → (b : Bool) × (v ≡ Value.bool b)
bool-fits (Value.bool b) h = (b, refl)
bool-fits nothing h = absurd (cc)
bool-fits _ h = absurd (cc)

int-fits : (v : Value) → is_int v ≡ true → (n : ℤ) × (v ≡ Value.int n)
int-fits (Value.int n) h = (n, refl)
int-fits nothing h = absurd (cc)
int-fits _ h = absurd (cc)

float-fits : (v : Value) → is_float v ≡ true → (x : Float) × (v ≡ Value.float x)
float-fits (Value.float x) h = (x, refl)
float-fits nothing h = absurd (cc)
float-fits _ h = absurd (cc)

str-fits : (v : Value) → is_str v ≡ true → (s : String) × (v ≡ Value.str s)
str-fits (Value.str s) h = (s, refl)
str-fits nothing h = absurd (cc)
str-fits _ h = absurd (cc)

module _ (test : Value → Bool) (P : Value → Type 0) (each : (v : Value) → test v ≡ true → P v) where
  pub values-fit : (vs : Values) → all_values test vs ≡ true → AllValues P vs
  values-fit Values.nil h = tt
  values-fit (Values.cons v vs) h =
      let (hv, hs) = &&-true (test v) (all_values test vs) h in (each v hv, values-fit vs hs)

  attrs-fit : (ats : Attrs) → all_attrs test ats ≡ true → AllAttrs P ats
  attrs-fit Attrs.end h = tt
  attrs-fit (attr k v ats) h =
      let (hv, hs) = &&-true (test v) (all_attrs test ats) h in (each v hv, attrs-fit ats hs)

choose-fits :
    (b : Bool) (x y : Bool) {P Q : Type 0}
    → (x ≡ true → P)
    → (y ≡ true → Q)
    → (if b then x else y) ≡ true
    → (if b then P else Q)
choose-fits true x y f g h = f h
choose-fits false x y f g h = g h

member-fits :
    (e : EnumClass) (v : Value)
    → is_member e v ≡ true
    → (s : String) × (v ≡ member e.name s) × (has_value e s ≡ true)
member-fits e (member c s) h =
    let (same, has) = &&-true (str_eq c e.name) (has_value e s) h in
    (s, rw ((eq_iff c e.name).0 same), has)
member-fits e nothing h = absurd (cc)
member-fits e _ h = absurd (cc)

mutual
  unfolding fits HasType of_json

  type-fits : (t : Ty) (v : Value) → fits t v ≡ true → HasType t v
  type-fits any v h = json-plain v h
  type-fits none_type v h = absurd (cc)
  type-fits Ty.bool v h = bool-fits v h
  type-fits Ty.int v h = int-fits v h
  type-fits Ty.float v h = float-fits v h
  type-fits Ty.str v h = str-fits v h
  type-fits (Ty.list t) (Value.list vs) h =
      (vs, refl, values-fit (fits t) (HasType t) (λ v k. type-fits t v k) vs h)
  type-fits (Ty.list t) nothing h = absurd (cc)
  type-fits (Ty.list t) _ h = absurd (cc)
  type-fits (Ty.dict k t) (Value.dict ats) h =
      (ats, refl, attrs-fit (fits t) (HasType t) (λ v k. type-fits t v k) ats h)
  type-fits (Ty.dict k t) nothing h = absurd (cc)
  type-fits (Ty.dict k t) _ h = absurd (cc)
  type-fits (union ts) v h = elim (Bool-cases (has_none ts && is_nothing v)) [
    | inl is_none ↦
        let (some_none, is) = &&-true (has_none ts) (is_nothing v) is_none in
        inl (some_none, is_nothing-eq v is)
    | inr other ↦ inr (sole-fits ts v (rw other at h))
  ]
  type-fits (enum e) v h = member-fits e v h
  type-fits (dataclass c fs) (instance_of c' ats) h =
      let (same, hs) = &&-true (str_eq c' c) (fits_fields fs ats) h in
      (ats, rw ((eq_iff c' c).0 same), fields-fit fs ats hs)
  type-fits (dataclass c fs) nothing h = absurd (cc)
  type-fits (dataclass c fs) _ h = absurd (cc)
  type-fits (Ty.other t) v h = absurd (cc)

  sole-fits : (ts : Types) (v : Value) → fits_sole ts v ≡ true → HasSole ts v
  sole-fits Types.nil v h = absurd (cc)
  sole-fits (Types.cons t ts) v h =
      choose-fits (is_none_type t) (fits_sole ts v) (fits t v) (sole-fits ts v) (type-fits t v) h

  fields-fit : (fs : Fields) (ats : Attrs) → fits_fields fs ats ≡ true → HasFields fs ats
  fields-fit Fields.end Attrs.end h = refl
  fields-fit Fields.end (attr k v ats) h = cc
  fields-fit (field n t d fs) (attr k v ats) h =
      let (same, hs) = &&-true (str_eq k n) (fits t v && fits_fields fs ats) h in
      let (hv, rest) = &&-true (fits t v) (fits_fields fs ats) hs in
      (v, ats, rw ((eq_iff k n).0 same), type-fits t v hv, fields-fit fs ats rest)
  fields-fit (field n t d fs) Attrs.end h = absurd (cc)

pub fits-HasType : (t : Ty) (v : Value) → fits t v ≡ true → HasType t v
fits-HasType = type-fits

abbrev pub default_fits : Ty → Default → Bool
default_fits t missing = true
default_fits t (default v) = fits t v
default_fits t (factory v) = fits t v

-- Each default inside has its field's type, and each union is an `Optional`.
unfoldable mutual
  pub typed_defaults : Ty → Bool
  typed_defaults (Ty.list t) = typed_defaults t
  typed_defaults (Ty.dict k t) = typed_defaults t
  typed_defaults (union ts) = has_none ts && typed_sole ts
  typed_defaults (dataclass c fs) = typed_fields fs
  typed_defaults any = true
  typed_defaults none_type = true
  typed_defaults Ty.bool = true
  typed_defaults Ty.int = true
  typed_defaults Ty.float = true
  typed_defaults Ty.str = true
  typed_defaults (enum e) = true
  typed_defaults (Ty.other t) = true

  pub typed_sole : Types → Bool
  typed_sole Types.nil = true
  typed_sole (Types.cons t ts) = typed_defaults t && typed_sole ts

  pub typed_fields : Fields → Bool
  typed_fields Fields.end = true
  typed_fields (field n t d fs) = default_fits t d && (typed_defaults t && typed_fields fs)
