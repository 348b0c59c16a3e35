-- ===== src/Schema/Validate/Accepted.antt =====
-- Data that validates against the schema of a type is decoded.
use litharness_contracts.Prelude.{
  ℕ, suc, String, ◌≡◌, Bool, true, false, List, [], ◌∷◌, map, Option-cases, inl, inr, &&-true,
  arith, contains,
}
use litharness_contracts.Outcome.{
  Result, ok, err, overflow_error, at_path, expected, ◌>>=◌, JsonPath, key, index,
}
use litharness_contracts.Json.{Json, Items, Entries, item, entry}
use litharness_contracts.Value.{Value}
use litharness_contracts.Types.{EnumClass, has_value}
use litharness_contracts.Runtime.{Runtime}
use litharness_contracts.Serde.Decode.{
  load_items, load_entries, load_list, load_dict, load_enum, load_int, load_float, load_bool,
  load_str,
}
use litharness_contracts.Schema.Generate.{texts}
use litharness_contracts.Schema.Validate.Whole.{
  has_whole, items_have_whole, entries_have_whole, or_left, or_right,
}
use litharness_contracts.Schema.Validate.{
  all_items, all_others, among, type_holds, enum_holds, items_hold, others_hold,
}

-- The call returns, or an int is too large for a float, or, where the data has a float with the
-- fraction zero, a float stands for an int.
pub data Accepted {A : Type 0} (whole : Bool) : Result A → Type 0 where
  loads : {a : A} → Accepted whole (ok a)
  overflows : Accepted whole (err overflow_error)
  refuses_float :
      (p : JsonPath) → whole ≡ true → Accepted whole (err (at_path p (expected "integer" "float")))

pub Accepted-bind :
    {S T : Type 0} {whole : Bool} {r : Result S} {next : S → Result T}
    → Accepted whole r
    → ((s : S) → Accepted whole (next s))
    → Accepted whole (r >>= next)
Accepted-bind (loads {a}) k = k a
Accepted-bind overflows k = overflows
Accepted-bind (refuses_float p h) k = refuses_float p h

-- a part of the data
pub Accepted-within :
    {A : Type 0} {part whole : Bool} {r : Result A}
    → (part ≡ true → whole ≡ true)
    → Accepted part r
    → Accepted whole r
Accepted-within f loads = loads
Accepted-within f overflows = overflows
Accepted-within f (refuses_float p h) = refuses_float p (f h)

-- A decoder accepts what a test allows.
abbrev pub Accepts : (JsonPath → Json → Result Value) → (Json → Bool) → Type 0
Accepts load test = (p : JsonPath) (x : Json) → test x ≡ true → Accepted (has_whole x) (load p x)

module _ (load : JsonPath → Json → Result Value) (test : Json → Bool)
    (accepts : Accepts load test) where
  load_items-Accepted :
      (p : JsonPath) (i : ℕ) (xs : Items)
      → all_items test xs ≡ true
      → Accepted (items_have_whole xs) (load_items load p i xs)
  unfolding load_items has_whole
  load_items-Accepted p i Items.nil h = loads
  load_items-Accepted p i (item x xs) h =
      let (hx, hs) = &&-true (test x) (all_items test xs) h in
      Accepted-bind
        (Accepted-within (or_left (has_whole x) (items_have_whole xs)) (accepts (index i ∷ p) x hx))
        λ v.
          Accepted-bind
            (Accepted-within (or_right (has_whole x) (items_have_whole xs))
              (load_items-Accepted p (suc i) xs hs))
            λ vs. loads

  load_entries-Accepted :
      (p : JsonPath) (m : Entries)
      → all_others (λ k. false) test m ≡ true
      → Accepted (entries_have_whole m) (load_entries load p m)
  unfolding load_entries has_whole
  load_entries-Accepted p Entries.end h = loads
  load_entries-Accepted p (entry k x m) h =
      let (hx, hs) = &&-true (test x) (all_others (λ j. false) test m) h in
      Accepted-bind
        (Accepted-within (or_left (has_whole x) (entries_have_whole m)) (accepts (key k ∷ p) x hx))
        λ v.
          Accepted-bind
            (Accepted-within (or_right (has_whole x) (entries_have_whole m))
              (load_entries-Accepted p m hs))
            λ ats. loads

  pub load_list-Accepted :
      (p : JsonPath) (x : Json)
      → type_holds (Json.str "array") x ≡ true
      → items_hold test x ≡ true
      → Accepted (has_whole x) (load_list load p x)
  unfolding load_list has_whole type_holds items_hold
  load_list-Accepted p (Json.list xs) h hs =
      Accepted-bind (load_items-Accepted p 0 xs hs) λ vs. loads
  load_list-Accepted p Json.null h hs = cc
  load_list-Accepted p _ h hs = absurd (cc)

  pub load_dict-Accepted :
      (p : JsonPath) (x : Json)
      → type_holds (Json.str "object") x ≡ true
      → others_hold (λ k. false) test x ≡ true
      → Accepted (has_whole x) (load_dict load p x)
  unfolding load_dict has_whole type_holds others_hold
  load_dict-Accepted p (Json.dict m) h hs =
      Accepted-bind (load_entries-Accepted p m hs) λ ats. loads
  load_dict-Accepted p Json.null h hs = absurd (cc)
  load_dict-Accepted p _ h hs = absurd (cc)

among-contains : (s : String) (l : List String) → among s (texts l) ≡ true → contains s l ≡ true
among-contains s [] h = h
among-contains s (t ∷ l) h = ground (arith, among-contains s l)

pub load_enum-Accepted :
    (e : EnumClass) (p : JsonPath) (x : Json)
    → enum_holds (Json.list (texts (map (λ p. p.1) e.members))) x ≡ true
    → Accepted (has_whole x) (load_enum e p x)
unfolding load_enum enum_holds
load_enum-Accepted e p (Json.str s) h =
    let has : has_value e s ≡ true = among-contains s (map (λ p. p.1) e.members) h in rw has loads
load_enum-Accepted e p Json.null h = absurd (cc)
load_enum-Accepted e p _ h = absurd (cc)

module _ (rt : Runtime) where
  pub load_float-Accepted :
      (p : JsonPath) (x : Json)
      → type_holds (Json.str "number") x ≡ true
      → Accepted (has_whole x) (load_float rt p x)
  unfolding load_float type_holds
  load_float-Accepted p (Json.float x) h = loads
  load_float-Accepted p (Json.int n) h = elim (Option-cases (rt.float_of_int n)) [
    | inl over ↦ rw (over, load_float) overflows
    | inr (x, is) ↦ rw (is, load_float) loads
  ]
  load_float-Accepted p Json.null h = absurd (cc)
  load_float-Accepted p _ h = absurd (cc)

pub load_int-Accepted :
    (p : JsonPath) (x : Json)
    → type_holds (Json.str "integer") x ≡ true
    → Accepted (has_whole x) (load_int p x)
unfolding load_int has_whole type_holds
load_int-Accepted p (Json.int n) h = loads
load_int-Accepted p (Json.float x) h = refuses_float p h
load_int-Accepted p Json.null h = absurd (cc)
load_int-Accepted p _ h = absurd (cc)

pub load_bool-Accepted :
    (p : JsonPath) (x : Json)
    → type_holds (Json.str "boolean") x ≡ true
    → Accepted (has_whole x) (load_bool p x)
unfolding load_bool type_holds
load_bool-Accepted p (Json.bool b) h = loads
load_bool-Accepted p Json.null h = absurd (cc)
load_bool-Accepted p _ h = absurd (cc)

pub load_str-Accepted :
    (p : JsonPath) (x : Json)
    → type_holds (Json.str "string") x ≡ true
    → Accepted (has_whole x) (load_str p x)
unfolding load_str type_holds
load_str-Accepted p (Json.str s) h = loads
load_str-Accepted p Json.null h = absurd (cc)
load_str-Accepted p _ h = absurd (cc)
