-- ===== src/Serde/Sound.antt =====
-- What `from_jsonable` returns has the type that it was asked for.
use litharness_contracts.Prelude.{
  ℕ, suc, String, ◌≡◌, sym, ◌⊎◌, inl, inr, Bool, true, false, ◌&&◌, Option, none, some, ◌∷◌,
  &&-true, ◌==◌, if◌then◌else◌, Bool-cases, Option-cases, subst,
}
use litharness_contracts.Outcome.{
  Error, Result, ok, err, bind_returned, ok-injective, JsonPath, key, index, at_path, missing_field,
  unsupported_union,
}
use litharness_contracts.Json.{Json, Items, Entries, Float, item, entry, lookup}
use litharness_contracts.Value.{Value, Values, Attrs, nothing, member}
use litharness_contracts.Types.{
  Ty, Types, Fields, Default, EnumClass, any, none_type, union, enum, dataclass, field, missing,
  default, factory, is_none_type, has_none, has_value, count_args,
}
use litharness_contracts.Runtime.{Runtime}
use litharness_contracts.Serde.Decode.{
  from_jsonable, load_sole, load_fields, load_items, load_entries, load_list, load_dict, load_enum,
  absent, load_int, load_float, load_bool, load_str, floated,
}
use litharness_contracts.Serde.Typing.{AllValues, AllAttrs, HasType, HasSole, HasFields}
use litharness_contracts.Serde.Defaults.{
  default_fits, fits-HasType, typed_defaults, typed_sole, typed_fields,
}

module _ (load : JsonPath → Json → Result Value) (P : Value → Type 0)
    (each : (p : JsonPath) (x : Json) (v : Value) → load p x ≡ ok v → P v) where
  items_sound :
      (p : JsonPath) (i : ℕ) (xs : Items) (vs : Values)
      → load_items load p i xs ≡ ok vs
      → AllValues P vs
  unfolding load_items
  items_sound p i Items.nil vs h = subst (AllValues P) (ok-injective h) tt
  items_sound p i (item x xs) vs h =
      let (v, e, h1) = bind_returned (load (index i ∷ p) x) _ h in
      let (us, es, h2) = bind_returned (load_items load p (suc i) xs) _ h1 in
      subst (AllValues P) (ok-injective h2)
        (each (index i ∷ p) x v e, items_sound p (suc i) xs us es)

  entries_sound :
      (p : JsonPath) (m : Entries) (ats : Attrs) → load_entries load p m ≡ ok ats → AllAttrs P ats
  unfolding load_entries
  entries_sound p Entries.end ats h = subst (AllAttrs P) (ok-injective h) tt
  entries_sound p (entry k x m) ats h =
      let (v, e, h1) = bind_returned (load (key k ∷ p) x) _ h in
      let (us, es, h2) = bind_returned (load_entries load p m) _ h1 in
      subst (AllAttrs P) (ok-injective h2) (each (key k ∷ p) x v e, entries_sound p m us es)

  list_sound :
      (p : JsonPath) (x : Json) (v : Value)
      → load_list load p x ≡ ok v
      → (vs : Values) × (v ≡ Value.list vs) × AllValues P vs
  unfolding load_list
  list_sound p (Json.list xs) v h =
      let (vs, e, h1) = bind_returned (load_items load p 0 xs) _ h in
      (vs, cc, items_sound p 0 xs vs e)
  list_sound p Json.null v h = absurd (cc)
  list_sound p _ v h = absurd (cc)

  dict_sound :
      (p : JsonPath) (x : Json) (v : Value)
      → load_dict load p x ≡ ok v
      → (ats : Attrs) × (v ≡ Value.dict ats) × AllAttrs P ats
  unfolding load_dict
  dict_sound p (Json.dict m) v h =
      let (ats, e, h1) = bind_returned (load_entries load p m) _ h in
      (ats, cc, entries_sound p m ats e)
  dict_sound p Json.null v h = absurd (cc)
  dict_sound p _ v h = absurd (cc)

-- The handler's result, where the data is no member's value.
fallback_sound :
    (e : EnumClass) (v : Value) (r : Error)
    → (if has_value e "unknown" then ok (member e.name "unknown") else err r) ≡ ok v
    → (s : String) × (v ≡ member e.name s) × (has_value e s ≡ true)
fallback_sound e v r h = elim (Bool-cases (has_value e "unknown")) [
  | inl has ↦ ("unknown", sym (ok-injective (rw has at h)), has)
  | inr lacks ↦ let bad : err r ≡ ok v = rw lacks at h in absurd (cc)
]

enum_sound :
    (e : EnumClass) (p : JsonPath) (x : Json) (v : Value)
    → load_enum e p x ≡ ok v
    → (s : String) × (v ≡ member e.name s) × (has_value e s ≡ true)
unfolding load_enum
enum_sound e p (Json.str s) v h = elim (Bool-cases (has_value e s)) [
  | inl has ↦ (s, sym (ok-injective (rw has at h)), has)
  | inr lacks ↦ fallback_sound e v _ (rw lacks at h)
]
enum_sound e p Json.null v h = fallback_sound e v _ h
enum_sound e p _ v h = fallback_sound e v _ h

int_sound : (p : JsonPath) (x : Json) (v : Value) → load_int p x ≡ ok v → HasType Ty.int v
unfolding load_int HasType
int_sound p (Json.int n) v h = (n, sym (ok-injective h))
int_sound p Json.null v h = absurd (cc)
int_sound p _ v h = absurd (cc)

bool_sound : (p : JsonPath) (x : Json) (v : Value) → load_bool p x ≡ ok v → HasType Ty.bool v
unfolding load_bool HasType
bool_sound p (Json.bool b) v h = (b, sym (ok-injective h))
bool_sound p Json.null v h = absurd (cc)
bool_sound p _ v h = absurd (cc)

str_sound : (p : JsonPath) (x : Json) (v : Value) → load_str p x ≡ ok v → HasType Ty.str v
unfolding load_str HasType
str_sound p (Json.str s) v h = (s, sym (ok-injective h))
str_sound p Json.null v h = absurd (cc)
str_sound p _ v h = absurd (cc)

float_of_sound :
    (o : Option Float) (v : Value) → floated o ≡ ok v → (x : Float) × (v ≡ Value.float x)
float_of_sound none v h = absurd (cc)
float_of_sound (some x) v h = (x, sym (ok-injective h))

choose_sound :
    (b : Bool) (here later : Result Value) (v : Value) {A B : Type 0}
    → (later ≡ ok v → B)
    → (here ≡ ok v → A)
    → (if b then later else here) ≡ ok v
    → (if b then B else A)
choose_sound true here later v f g h = f h
choose_sound false here later v f g h = g h

absent_sound :
    (c n : String) (t : Ty) (d : Default) (p : JsonPath) (v : Value)
    → default_fits t d ≡ true
    → absent c n t d p ≡ ok v
    → HasType t v
unfolding absent HasType
absent_sound c n t (default u) p v w h = subst (HasType t) (ok-injective h) (fits-HasType t u w)
absent_sound c n t (factory u) p v w h = subst (HasType t) (ok-injective h) (fits-HasType t u w)
absent_sound c n (union ts) missing p v w h = elim (Bool-cases (has_none ts)) [
  | inl has ↦ inl (has, sym (ok-injective (rw has at h)))
  | inr lacks ↦ let bad : err (at_path p (missing_field n c)) ≡ ok v = rw lacks at h in absurd (cc)
]
absent_sound c n any missing p v w h = absurd (cc)
absent_sound c n _ missing p v w h = absurd (cc)

module _ (rt : Runtime) where
  float_sound :
      (p : JsonPath) (x : Json) (v : Value) → load_float rt p x ≡ ok v → HasType Ty.float v
  unfolding load_float HasType
  float_sound p (Json.float x) v h = (x, sym (ok-injective h))
  float_sound p (Json.int n) v h = float_of_sound (rt.float_of_int n) v h
  float_sound p Json.null v h = absurd (cc)
  float_sound p _ v h = absurd (cc)

  sole-of_union :
      (b : Bool) (p : JsonPath) (v : Value) (sole : Result Value)
      → (if b then sole else err (at_path p unsupported_union)) ≡ ok v
      → sole ≡ ok v
  sole-of_union true p v sole h = h
  sole-of_union false p v sole h = cc

  -- A union that loads has read null, or its sole argument.
  union_sound :
      (ts : Types) (p : JsonPath) (x : Json) (v : Value)
      → from_jsonable rt (union ts) p x ≡ ok v
      → (v ≡ nothing) ⊎ (load_sole rt ts p x ≡ ok v)
  unfolding from_jsonable
  union_sound ts p Json.null v h = inl (sym (ok-injective h))
  union_sound ts p (Json.bool b) v h = inr (sole-of_union (count_args ts == 1) p v _ h)
  union_sound ts p x v h = inr (sole-of_union (count_args ts == 1) p v _ h)

  mutual
    unfolding from_jsonable HasType typed_defaults

    type_sound :
        (t : Ty) (p : JsonPath) (x : Json) (v : Value)
        → typed_defaults t ≡ true
        → from_jsonable rt t p x ≡ ok v
        → HasType t v
    type_sound any p x v w h = (x, sym (ok-injective h))
    type_sound none_type p x v w h = absurd (cc)
    type_sound Ty.bool p x v w h = bool_sound p x v h
    type_sound Ty.int p x v w h = int_sound p x v h
    type_sound Ty.float p x v w h = float_sound p x v h
    type_sound Ty.str p x v w h = str_sound p x v h
    type_sound (Ty.list t) p x v w h =
        list_sound (from_jsonable rt t) (HasType t) (λ q y u. type_sound t q y u w) p x v h
    type_sound (Ty.dict k t) p x v w h =
        dict_sound (from_jsonable rt t) (HasType t) (λ q y u. type_sound t q y u w) p x v h
    type_sound (union ts) p x v w h =
        let (has, ws) = &&-true (has_none ts) (typed_sole ts) w in
        elim (union_sound ts p x v h) [
          | inl is ↦ inl (has, is)
          | inr sole ↦ inr (sole_sound ts p x v ws sole)
        ]
    type_sound (enum e) p x v w h = enum_sound e p x v h
    type_sound (dataclass c fs) p (Json.dict m) v w h =
        let (ats, e, h1) = bind_returned (load_fields rt c fs p m) _ h in
        (ats, sym (ok-injective h1), fields_sound c fs p m ats w e)
    type_sound (dataclass c fs) p Json.null v w h = absurd (cc)
    type_sound (dataclass c fs) p _ v w h = absurd (cc)
    type_sound (Ty.other t) p x v w h = absurd (cc)

    sole_sound :
        (ts : Types) (p : JsonPath) (x : Json) (v : Value)
        → typed_sole ts ≡ true
        → load_sole rt ts p x ≡ ok v
        → HasSole ts v
    sole_sound Types.nil p x v w h = absurd (cc)
    sole_sound (Types.cons t ts) p x v w h =
        let (wt, ws) = &&-true (typed_defaults t) (typed_sole ts) w in
        choose_sound (is_none_type t) (from_jsonable rt t p x) (load_sole rt ts p x) v
          (sole_sound ts p x v ws) (type_sound t p x v wt) h

    fields_sound :
        (c : String) (fs : Fields) (p : JsonPath) (m : Entries) (ats : Attrs)
        → typed_fields fs ≡ true
        → load_fields rt c fs p m ≡ ok ats
        → HasFields fs ats
    fields_sound c Fields.end p m ats w h = sym (ok-injective h)
    fields_sound c (field n t d fs) p m ats w h =
        let (wd, w1) = &&-true (default_fits t d) (typed_defaults t && typed_fields fs) w in
        let (wt, ws) = &&-true (typed_defaults t) (typed_fields fs) w1 in
        elim (Option-cases (lookup n m)) [
          | inl lacks ↦
              let (v, e, h1) = bind_returned (absent c n t d p) _ (rw lacks at h) in
              let (rest, es, h2) = bind_returned (load_fields rt c fs p m) _ h1 in
              (
                v,
                rest,
                sym (ok-injective h2),
                absent_sound c n t d p v wd e,
                fields_sound c fs p m rest ws es,
              )
          | inr (x, has) ↦
              let (v, e, h1) = bind_returned (from_jsonable rt t (key n ∷ p) x) _ (rw has at h) in
              let (rest, es, h2) = bind_returned (load_fields rt c fs p m) _ h1 in
              (
                v,
                rest,
                sym (ok-injective h2),
                type_sound t (key n ∷ p) x v wt e,
                fields_sound c fs p m rest ws es,
              )
        ]

  -- Whatever decodes has the type that it was decoded at, if the defaults of its classes have the
  -- types of their fields and each of its unions allows `None`.
  pub from_jsonable-HasType :
      (t : Ty) (p : JsonPath) (x : Json) (v : Value)
      → typed_defaults t ≡ true
      → from_jsonable rt t p x ≡ ok v
      → HasType t v
  from_jsonable-HasType = type_sound
