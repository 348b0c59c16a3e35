-- ===== src/Serde/Lookup.antt =====
-- What the loops over fields read and write of an object's keys.
use litharness_contracts.Prelude.{
  String, ◌≡◌, refl, ◌≢◌, ◌⊎◌, inl, inr, true, false, List, contains, contains_head, contains_tail,
  str_eq, eq_iff, Bool-cases, arith,
}
use litharness_contracts.Outcome.{ok, JsonPath}
use litharness_contracts.Json.{Json, Entries, entry, lookup}
use litharness_contracts.Value.{Value, Attrs, nothing, attr}
use litharness_contracts.Types.{Fields, field, names}
use litharness_contracts.Runtime.{Runtime}
use litharness_contracts.Serde.Encode.{to_jsonable, dump_attrs}
use litharness_contracts.Serde.Decode.{from_jsonable, load_fields}

pub nothing-cases : (v : Value) → (v ≡ nothing) ⊎ (v ≢ nothing)
nothing-cases nothing = inl refl
nothing-cases (Value.bool b) = inr (λ e. cc)
nothing-cases _ = inr (λ e. cc)

-- An attribute that is not `None` is written.
pub dump_attrs-some :
    (k : String) (v : Value) (ats : Attrs) {x : Json} {m : Entries}
    → v ≢ nothing
    → to_jsonable v ≡ ok x
    → dump_attrs ats ≡ ok m
    → dump_attrs (attr k v ats) ≡ ok (entry k x m)
unfolding to_jsonable
dump_attrs-some k nothing ats h e f = absurd (h refl)
dump_attrs-some k (Value.bool b) ats h e f = ground arith
dump_attrs-some k _ ats h e f = ground arith

-- Only `None` is written as null.
pub nothing-of_null : (v : Value) → to_jsonable v ≡ ok Json.null → v ≡ nothing
unfolding to_jsonable
nothing-of_null nothing h = refl
nothing-of_null (Value.bool b) h = cc
nothing-of_null (Value.list vs) h = ground arith
nothing-of_null (Value.dict ats) h = ground arith
nothing-of_null (Value.instance_of c ats) h = ground arith
nothing-of_null _ h = cc

-- `m` and `m'` have the same values at `ks`.
abbrev pub Agree : List String → Entries → Entries → Type 0
Agree ks m m' = (k : String) → contains k ks ≡ true → lookup k m ≡ lookup k m'

-- A key of another name is passed over.
pub lookup-entry_ne :
    (k j : String) (x : Json) (m : Entries)
    → str_eq j k ≡ false
    → lookup k (entry j x m) ≡ lookup k m
lookup-entry_ne k j x m h = rw h

-- A key that no name of `ks` equals changes nothing at `ks`.
pub Agree-entry :
    (ks : List String) (j : String) (x : Json) (m : Entries)
    → contains j ks ≡ false
    → Agree ks (entry j x m) m
Agree-entry ks j x m h k hk = elim (Bool-cases (str_eq j k)) [
  | inl e ↦ let same : contains j ks ≡ true = rw ((eq_iff j k).0 e) hk in cc (same, h)
  | inr e ↦ lookup-entry_ne k j x m e
]

module _ (rt : Runtime) where
  -- The loop over the fields reads the payload at their names alone.
  pub load_fields-Agree :
      (c : String) (fs : Fields) (p : JsonPath) (m m' : Entries)
      → Agree (names fs) m m'
      → load_fields rt c fs p m ≡ load_fields rt c fs p m'
  unfolding from_jsonable
  load_fields-Agree c Fields.end p m m' h = refl
  load_fields-Agree c (field n t d fs) p m m' h =
      let later : Agree (names fs) m m' = λ k hk. h k (contains_tail k n (names fs) hk) in
      rw (h n (contains_head n (names fs)), load_fields-Agree c fs p m m' later)
