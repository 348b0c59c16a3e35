-- ===== src/Serde/Faults.antt =====
-- The exceptions of `from_jsonable`.
use litharness_contracts.Prelude.{
  ℕ, suc, String, ◌≡◌, refl, sym, ◌∙◌, ap, ◌⊎◌, inl, inr, Bool, true, false, Option, none, some, [],
  ◌∷◌, ◌++◌, append_assoc, ◌==◌, if◌then◌else◌, Bool-cases, Option-cases,
}
use litharness_contracts.Outcome.{
  Error, Problem, Result, ok, err, overflow_error, value_error, at_path, ◌>>=◌, bind_raised,
  JsonPath, Segment, key, index,
}
use litharness_contracts.Json.{Json, Items, Entries, Float, item, entry, lookup}
use litharness_contracts.Value.{Value, Attrs, member}
use litharness_contracts.Types.{
  Ty, Types, Fields, Default, EnumClass, any, none_type, union, enum, dataclass, field, missing,
  default, factory, is_none_type, has_value, count_args, is_optional,
}
use litharness_contracts.Runtime.{Runtime}
use litharness_contracts.Builtins.Repr.{
  has_repr, items_have_repr, entries_have_repr, and_left, and_right, lookup-has_repr,
}
use litharness_contracts.Serde.Decode.{
  from_jsonable, load_sole, load_fields, load_items, load_entries, load_list, load_dict, load_enum,
  absent, load_int, load_float, load_bool, load_str, floated,
}

-- The exception is an overflow, a `ValueError` where the `repr` of the data raises, or a
-- `ContractError` at `p` or further inside.
abbrev pub Blames : JsonPath → Bool → Error → Type 0
Blames p has e =
    (e ≡ overflow_error)
    ⊎ (((e ≡ value_error) × (has ≡ false))
        ⊎ ((q : JsonPath) × (b : Problem) × (e ≡ at_path (q ++ p) b)))

err-eq : {e f : Error} → ◌≡◌ {A = Result Value} (err e) (err f) → f ≡ e
err-eq h = cc

-- an exception at `p` itself
here :
    (p : JsonPath) (b : Problem) {has : Bool} {e : Error}
    → ◌≡◌ {A = Result Value} (err (at_path p b)) (err e)
    → Blames p has e
here p b h = inr (inr ([], b, err-eq h))

-- an exception of a part of the data
Blames-within :
    (p : JsonPath) (part whole : Bool) {e : Error}
    → (part ≡ false → whole ≡ false)
    → Blames p part e
    → Blames p whole e
Blames-within p part whole f (inl o) = inl o
Blames-within p part whole f (inr (inl (is, lacks))) = inr (inl (is, f lacks))
Blames-within p part whole f (inr (inr contract)) = inr (inr contract)

Blames-inside :
    (s : Segment) (p : JsonPath) (part whole : Bool) {e : Error}
    → (part ≡ false → whole ≡ false)
    → Blames (s ∷ p) part e
    → Blames p whole e
Blames-inside s p part whole f (inl o) = inl o
Blames-inside s p part whole f (inr (inl (is, lacks))) = inr (inl (is, f lacks))
Blames-inside s p part whole f (inr (inr (q, b, h))) =
    inr (inr (q ++ s ∷ [], b, h ∙ ap (λ r. at_path r b) (sym (append_assoc q (s ∷ []) p))))

module _ (load : JsonPath → Json → Result Value)
    (each : (p : JsonPath) (x : Json) (e : Error)
      → load p x ≡ err e
      → Blames p (has_repr x) e) where
  items_fault :
      (p : JsonPath) (i : ℕ) (xs : Items) (e : Error)
      → load_items load p i xs ≡ err e
      → Blames p (items_have_repr xs) e
  unfolding load_items has_repr
  items_fault p i Items.nil e h = absurd (cc)
  items_fault p i (item x xs) e h = elim (bind_raised (load (index i ∷ p) x) _ h) [
    | inl first ↦
        Blames-inside (index i) p (has_repr x) _ (and_left (has_repr x) (items_have_repr xs))
          (each (index i ∷ p) x e first)
    | inr (v, _, h1) ↦ elim (bind_raised (load_items load p (suc i) xs) _ h1) [
      | inl later ↦
          Blames-within p (items_have_repr xs) _ (and_right (has_repr x) (items_have_repr xs))
            (items_fault p (suc i) xs e later)
      | inr (vs, _, h2) ↦ absurd (cc)
    ]
  ]

  entries_fault :
      (p : JsonPath) (m : Entries) (e : Error)
      → load_entries load p m ≡ err e
      → Blames p (entries_have_repr m) e
  unfolding load_entries has_repr
  entries_fault p Entries.end e h = absurd (cc)
  entries_fault p (entry k x m) e h = elim (bind_raised (load (key k ∷ p) x) _ h) [
    | inl first ↦
        Blames-inside (key k) p (has_repr x) _ (and_left (has_repr x) (entries_have_repr m))
          (each (key k ∷ p) x e first)
    | inr (v, _, h1) ↦ elim (bind_raised (load_entries load p m) _ h1) [
      | inl later ↦
          Blames-within p (entries_have_repr m) _ (and_right (has_repr x) (entries_have_repr m))
            (entries_fault p m e later)
      | inr (vs, _, h2) ↦ absurd (cc)
    ]
  ]

  list_fault :
      (p : JsonPath) (x : Json) (e : Error) → load_list load p x ≡ err e → Blames p (has_repr x) e
  unfolding load_list has_repr
  list_fault p (Json.list xs) e h = elim (bind_raised (load_items load p 0 xs) _ h) [
    | inl inside ↦ items_fault p 0 xs e inside
    | inr (vs, _, h1) ↦ absurd (cc)
  ]
  list_fault p Json.null e h = here p _ h
  list_fault p _ e h = here p _ h

  dict_fault :
      (p : JsonPath) (x : Json) (e : Error) → load_dict load p x ≡ err e → Blames p (has_repr x) e
  unfolding load_dict has_repr
  dict_fault p (Json.dict m) e h = elim (bind_raised (load_entries load p m) _ h) [
    | inl inside ↦ entries_fault p m e inside
    | inr (vs, _, h1) ↦ absurd (cc)
  ]
  dict_fault p Json.null e h = here p _ h
  dict_fault p _ e h = here p _ h

if_fault :
    (b : Bool) (p : JsonPath) (v : Value) (q : Problem) (has : Bool) (e : Error)
    → (if b then ok v else err (at_path p q)) ≡ err e
    → Blames p has e
if_fault true p v q has e h = absurd (cc)
if_fault false p v q has e h = here p q h

-- The error of an enum, with and without a `repr`.
not_among_fault :
    (has : Bool) (p : JsonPath) (q : Problem) (e : Error)
    → ◌≡◌ {A = Result Value} (err (if has then at_path p q else value_error)) (err e)
    → Blames p has e
not_among_fault true p q e h = here p q h
not_among_fault false p q e h = inr (inl (err-eq h, refl))

other_fault :
    (b : Bool) (p : JsonPath) (v : Value) (q : Problem) (has : Bool) (e : Error)
    → (if b then ok v else err (if has then at_path p q else value_error)) ≡ err e
    → Blames p has e
other_fault true p v q has e h = absurd (cc)
other_fault false p v q has e h = not_among_fault has p q e h

enum_fault :
    (c : EnumClass) (p : JsonPath) (x : Json) (e : Error)
    → load_enum c p x ≡ err e
    → Blames p (has_repr x) e
unfolding load_enum
enum_fault c p (Json.str s) e h = elim (Bool-cases (has_value c s)) [
  | inl has ↦ let bad : ok (member c.name s) ≡ err e = rw has at h in absurd (cc)
  | inr lacks ↦ other_fault (has_value c "unknown") p _ _ (has_repr (Json.str s)) e (rw lacks at h)
]
enum_fault c p Json.null e h = other_fault (has_value c "unknown") p _ _ _ e h
enum_fault c p x e h = other_fault (has_value c "unknown") p _ _ (has_repr x) e h

int_fault : (p : JsonPath) (x : Json) (e : Error) → load_int p x ≡ err e → Blames p (has_repr x) e
unfolding load_int
int_fault p (Json.int n) e h = absurd (cc)
int_fault p Json.null e h = here p _ h
int_fault p _ e h = here p _ h

bool_fault : (p : JsonPath) (x : Json) (e : Error) → load_bool p x ≡ err e → Blames p (has_repr x) e
unfolding load_bool
bool_fault p (Json.bool b) e h = absurd (cc)
bool_fault p Json.null e h = here p _ h
bool_fault p _ e h = here p _ h

str_fault : (p : JsonPath) (x : Json) (e : Error) → load_str p x ≡ err e → Blames p (has_repr x) e
unfolding load_str
str_fault p (Json.str s) e h = absurd (cc)
str_fault p Json.null e h = here p _ h
str_fault p _ e h = here p _ h

floated_fault :
    (o : Option Float) (p : JsonPath) (has : Bool) (e : Error) → floated o ≡ err e → Blames p has e
floated_fault none p has e h = inl (err-eq h)
floated_fault (some x) p has e h = absurd (cc)

absent_fault :
    (c n : String) (t : Ty) (d : Default) (p : JsonPath) (has : Bool) (e : Error)
    → absent c n t d p ≡ err e
    → Blames p has e
unfolding absent
absent_fault c n t missing p has e h = if_fault (is_optional t) p _ _ has e h
absent_fault c n t (default v) p has e h = absurd (cc)
absent_fault c n t (factory v) p has e h = absurd (cc)

choose_fault :
    (b : Bool) (r s : Result Value) (p : JsonPath) (has : Bool) (e : Error)
    → (r ≡ err e → Blames p has e)
    → (s ≡ err e → Blames p has e)
    → (if b then r else s) ≡ err e
    → Blames p has e
choose_fault true r s p has e f g h = f h
choose_fault false r s p has e f g h = g h

attr_fault :
    (n : String) (first : Result Value) (rest : Result Attrs) (p : JsonPath) (has : Bool)
    (e : Error)
    → (first ≡ err e → Blames p has e)
    → (rest ≡ err e → Blames p has e)
    → (first >>= λ v. rest >>= λ ats. ok (Attrs.attr n v ats)) ≡ err e
    → Blames p has e
attr_fault n (err f) rest p has e f1 f2 h = f1 (cc)
attr_fault n (ok v) (err f) p has e f1 f2 h = f2 (cc)
attr_fault n (ok v) (ok ats) p has e f1 f2 h = absurd (cc)

module _ (rt : Runtime) where
  float_fault :
      (p : JsonPath) (x : Json) (e : Error) → load_float rt p x ≡ err e → Blames p (has_repr x) e
  unfolding load_float
  float_fault p (Json.float x) e h = absurd (cc)
  float_fault p (Json.int n) e h = floated_fault (rt.float_of_int n) p _ e h
  float_fault p Json.null e h = here p _ h
  float_fault p _ e h = here p _ h

  mutual
    unfolding from_jsonable has_repr

    type_fault :
        (t : Ty) (p : JsonPath) (x : Json) (e : Error)
        → from_jsonable rt t p x ≡ err e
        → Blames p (has_repr x) e
    type_fault any p x e h = absurd (cc)
    type_fault none_type p x e h = here p _ h
    type_fault Ty.bool p x e h = bool_fault p x e h
    type_fault Ty.int p x e h = int_fault p x e h
    type_fault Ty.float p x e h = float_fault p x e h
    type_fault Ty.str p x e h = str_fault p x e h
    type_fault (Ty.list t) p x e h =
        list_fault (from_jsonable rt t) (λ q y f. type_fault t q y f) p x e h
    type_fault (Ty.dict k t) p x e h =
        dict_fault (from_jsonable rt t) (λ q y f. type_fault t q y f) p x e h
    type_fault (union ts) p Json.null e h = absurd (cc)
    type_fault (union ts) p (Json.bool b) e h =
        choose_fault (count_args ts == 1) (load_sole rt ts p (Json.bool b)) _ p _ e
          (sole_fault ts p (Json.bool b) e) (here p _) h
    type_fault (union ts) p x e h =
        choose_fault (count_args ts == 1) (load_sole rt ts p x) _ p (has_repr x) e
          (sole_fault ts p x e) (here p _) h
    type_fault (enum c) p x e h = enum_fault c p x e h
    type_fault (dataclass c fs) p (Json.dict m) e h =
        elim (bind_raised (load_fields rt c fs p m) _ h) [
          | inl inside ↦ fields_fault c fs p m e inside
          | inr (ats, _, h1) ↦ absurd (cc)
        ]
    type_fault (dataclass c fs) p Json.null e h = here p _ h
    type_fault (dataclass c fs) p _ e h = here p _ h
    type_fault (Ty.other t) p x e h = here p _ h

    sole_fault :
        (ts : Types) (p : JsonPath) (x : Json) (e : Error)
        → load_sole rt ts p x ≡ err e
        → Blames p (has_repr x) e
    sole_fault Types.nil p x e h = here p _ h
    sole_fault (Types.cons t ts) p x e h =
        choose_fault (is_none_type t) (load_sole rt ts p x) (from_jsonable rt t p x) p (has_repr x)
          e (sole_fault ts p x e) (type_fault t p x e) h

    fields_fault :
        (c : String) (fs : Fields) (p : JsonPath) (m : Entries) (e : Error)
        → load_fields rt c fs p m ≡ err e
        → Blames p (entries_have_repr m) e
    fields_fault c Fields.end p m e h = absurd (cc)
    fields_fault c (field n t d fs) p m e h = elim (Option-cases (lookup n m)) [
      | inl lacks ↦
          attr_fault n (absent c n t d p) (load_fields rt c fs p m) p _ e
            (absent_fault c n t d p _ e) (fields_fault c fs p m e) (rw lacks at h)
      | inr (x, has) ↦
          attr_fault n (from_jsonable rt t (key n ∷ p) x) (load_fields rt c fs p m) p _ e
            (λ first.
              Blames-inside (key n) p (has_repr x) _ (lookup-has_repr n m x has)
                (type_fault t (key n ∷ p) x e first))
            (fields_fault c fs p m e) (rw has at h)
    ]

  -- If decoding at a path raises, the exception is the overflow of `float(data)`, a `ValueError`
  -- where an int in the data has more than 4300 digits, so that its `repr` raises, or a
  -- `ContractError` whose path begins with that path.
  pub from_jsonable_faults :
      (t : Ty) (p : JsonPath) (x : Json) (e : Error)
      → from_jsonable rt t p x ≡ err e
      → (e ≡ overflow_error)
        ⊎ (((e ≡ value_error) × (has_repr x ≡ false))
            ⊎ ((q : JsonPath) × (b : Problem) × (e ≡ at_path (q ++ p) b)))
  from_jsonable_faults = type_fault
