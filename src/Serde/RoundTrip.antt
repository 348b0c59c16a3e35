-- ===== src/Serde/RoundTrip.antt =====
-- `from_jsonable` after `to_jsonable`.
use litharness_contracts.Prelude.{
  ℕ, suc, String, ◌≡◌, refl, inl, inr, Bool, true, false, none, some, List, ◌∷◌, contains, str_eq,
  eq_refl, ◌∙◌, arith, ◌||◌, ◌&&◌, not, ◌==◌, &&-true, if◌then◌else◌,
}
use litharness_contracts.Outcome.{Result, ok, JsonPath, key, index}
use litharness_contracts.Json.{Json, Items, Entries, item, entry, lookup}
use litharness_contracts.Value.{Value, Values, Attrs, nothing, attr, cons, member}
use litharness_contracts.Types.{
  Ty, Types, Fields, Default, EnumClass, any, none_type, union, enum, dataclass, field, names,
  missing, default, factory, is_none_type, has_value, count_args,
}
use litharness_contracts.Runtime.{Runtime}
use litharness_contracts.Serde.Encode.{
  to_jsonable, dump_attrs, dump_values, dump_entries, to_jsonable-of_json,
}
use litharness_contracts.Serde.Decode.{
  from_jsonable, load_sole, load_fields, load_items, load_entries, load_list, load_dict, load_enum,
  absent, load_int, load_float, load_bool, load_str,
}
use litharness_contracts.Serde.Typing.{
  AllValues, AllAttrs, HasType, HasSole, HasFields, well_formed, well_formed_sole,
  well_formed_fields, nullable, absent_is_none,
}
use litharness_contracts.Serde.Lookup.{
  nothing-cases, dump_attrs-some, nothing-of_null, lookup-entry_ne, Agree-entry, load_fields-Agree,
}

-- `v` is written, and `load` reads what was written as `v`, whatever the path.
abbrev pub RoundTrips : (JsonPath → Json → Result Value) → Value → Type 0
RoundTrips load v = (x : Json) × (to_jsonable v ≡ ok x) × ((p : JsonPath) → load p x ≡ ok v)

module _ (load : JsonPath → Json → Result Value) (P : Value → Type 0)
    (each : (v : Value) → P v → RoundTrips load v) where
  values-RoundTrips :
      (vs : Values)
      → AllValues P vs
      → (xs : Items) × (dump_values vs ≡ ok xs)
        × ((p : JsonPath) (i : ℕ) → load_items load p i xs ≡ ok vs)
  unfolding to_jsonable load_items
  values-RoundTrips Values.nil h = (Items.nil, refl, λ p i. refl)
  values-RoundTrips (cons v vs) (hv, hvs) =
      let (x, e, d) = each v hv in
      let (xs, es, ds) = values-RoundTrips vs hvs in
      (item x xs, rw (e, es) refl, λ p i. rw (d (index i ∷ p), ds p (suc i)) refl)

  attrs-RoundTrips :
      (ats : Attrs)
      → AllAttrs P ats
      → (m : Entries) × (dump_entries ats ≡ ok m)
        × ((p : JsonPath) → load_entries load p m ≡ ok ats)
  unfolding to_jsonable load_entries
  attrs-RoundTrips Attrs.end h = (Entries.end, refl, λ p. refl)
  attrs-RoundTrips (attr k v ats) (hv, hs) =
      let (x, e, d) = each v hv in
      let (m, es, ds) = attrs-RoundTrips ats hs in
      (entry k x m, rw (e, es) refl, λ p. rw (d (key k ∷ p), ds p) refl)

  list-RoundTrips : (vs : Values) → AllValues P vs → RoundTrips (load_list load) (Value.list vs)
  unfolding to_jsonable load_list
  list-RoundTrips vs h =
      let (xs, es, ds) = values-RoundTrips vs h in (Json.list xs, rw es refl, λ p. rw (ds p 0) refl)

  dict-RoundTrips : (ats : Attrs) → AllAttrs P ats → RoundTrips (load_dict load) (Value.dict ats)
  unfolding to_jsonable load_dict
  dict-RoundTrips ats h =
      let (m, es, ds) = attrs-RoundTrips ats h in (Json.dict m, rw es refl, λ p. rw (ds p) refl)

pub contains-split :
    (k j : String) (ks : List String)
    → contains k (j ∷ ks) ≡ false
    → (str_eq j k ≡ false) × (contains k ks ≡ false)
contains-split k j ks h = ground arith

member-RoundTrips :
    (e : EnumClass) (s : String) → has_value e s ≡ true → RoundTrips (load_enum e) (member e.name s)
unfolding to_jsonable load_enum
member-RoundTrips e s h = (Json.str s, refl, λ p. rw h)

-- A field that can hold `None` is read as `None` where it is absent.
absent-nothing :
    (c n : String) (t : Ty) (d : Default) (p : JsonPath)
    → absent_is_none t d ≡ true
    → absent c n t d p ≡ ok nothing
unfolding absent
absent-nothing c n t missing p h = rw h
absent-nothing c n t (default nothing) p h = refl
absent-nothing c n t (default (Value.bool b)) p h = cc
absent-nothing c n t (default _) p h = cc
absent-nothing c n t (factory nothing) p h = refl
absent-nothing c n t (factory (Value.bool b)) p h = cc
absent-nothing c n t (factory _) p h = cc

pub not-nullable : (t : Ty) → HasType t nothing → nullable t ≡ true
unfolding HasType
not-nullable any h = refl
not-nullable (union ts) h = refl
not-nullable none_type h = absurd h
not-nullable Ty.bool (b, e) = cc
not-nullable Ty.int (b, e) = cc
not-nullable Ty.float (b, e) = cc
not-nullable Ty.str (b, e) = cc
not-nullable (Ty.list t) (b, e, _) = cc
not-nullable (Ty.dict k t) (b, e, _) = cc
not-nullable (enum c) (b, e, _) = cc
not-nullable (dataclass c fs) (b, e, _) = cc
not-nullable (Ty.other t) h = absurd h

pub field_facts :
    (a b c d e : Bool)
    → (not a && ((not b || c) && (d && e))) ≡ true
    → (a ≡ false) × (b ≡ true → c ≡ true) × (d ≡ true) × (e ≡ true)
field_facts true b c d e h = cc
field_facts false true c d e h = ground arith
field_facts false false c d e h = ground arith

choose-RoundTrips :
    (b : Bool) (here later : JsonPath → Json → Result Value) (v : Value) {A B : Type 0}
    → (b ≡ true → B → RoundTrips later v)
    → (b ≡ false → A → RoundTrips here v)
    → (if b then B else A)
    → RoundTrips (λ p x. if b then later p x else here p x) v
choose-RoundTrips true here later v f g h = f refl h
choose-RoundTrips false here later v f g h = g refl h

module _ (rt : Runtime) where
  -- A union reads null as `None`, and other data by its sole argument.
  union-loads :
      (ts : Types) (p : JsonPath) (x : Json) (v : Value)
      → (count_args ts == 1) ≡ true
      → (x ≡ Json.null → v ≡ nothing)
      → load_sole rt ts p x ≡ ok v
      → from_jsonable rt (union ts) p x ≡ ok v
  unfolding from_jsonable
  union-loads ts p Json.null v n h e = rw (h refl) refl
  union-loads ts p (Json.bool b) v n h e = rw n e
  union-loads ts p _ v n h e = rw n e

  load_fields-here :
      (c n : String) (t : Ty) (d : Default) (fs : Fields) (p : JsonPath) (m : Entries) {x : Json}
      {v : Value} {ats : Attrs}
      → lookup n m ≡ some x
      → from_jsonable rt t (key n ∷ p) x ≡ ok v
      → load_fields rt c fs p m ≡ ok ats
      → load_fields rt c (field n t d fs) p m ≡ ok (attr n v ats)
  unfolding from_jsonable
  load_fields-here c n t d fs p m h e es = rw (h, e, es) refl

  load_fields-absent :
      (c n : String) (t : Ty) (d : Default) (fs : Fields) (p : JsonPath) (m : Entries) {v : Value}
      {ats : Attrs}
      → lookup n m ≡ none
      → absent c n t d p ≡ ok v
      → load_fields rt c fs p m ≡ ok ats
      → load_fields rt c (field n t d fs) p m ≡ ok (attr n v ats)
  unfolding from_jsonable
  load_fields-absent c n t d fs p m h e es = rw (h, e, es) refl

  -- One more attribute in front of those that round-trip.
  abbrev FieldsRoundTrip : Fields → Attrs → Type 0
  FieldsRoundTrip fs ats =
      (m : Entries) × (dump_attrs ats ≡ ok m)
      × ((k : String) → contains k (names fs) ≡ false → lookup k m ≡ none)
      × ((c : String) (p : JsonPath) → load_fields rt c fs p m ≡ ok ats)

  field-RoundTrips :
      (n : String) (t : Ty) (d : Default) (fs : Fields) (v : Value) (ats : Attrs)
      → contains n (names fs) ≡ false
      → (v ≡ nothing → absent_is_none t d ≡ true)
      → RoundTrips (from_jsonable rt t) v
      → FieldsRoundTrip fs ats
      → FieldsRoundTrip (field n t d fs) (attr n v ats)
  unfolding to_jsonable
  field-RoundTrips n t d fs v ats fresh drop (x, e, l) (m, es, out, ls) = elim (nothing-cases v) [
    | inl is ↦ (
      m,
      rw is es,
      λ k h. out k (contains-split k n (names fs) h).1,
      λ c p.
          load_fields-absent c n t d fs p m (out n fresh)
            (rw is (absent-nothing c n t d p (drop is))) (ls c p),
    )
    | inr not_none ↦ (
      entry n x m,
      dump_attrs-some n v ats not_none e es,
      λ k h.
          let (other_name, other_names) = contains-split k n (names fs) h in
          lookup-entry_ne k n x m other_name ∙ out k other_names,
      λ c p. load_fields-here c n t d fs p (entry n x m) (rw (eq_refl n) refl) (l (key n ∷ p)) (
          load_fields-Agree rt c fs p (entry n x m) m (Agree-entry (names fs) n x m fresh)
          ∙ ls c p),
    )
  ]

  mutual
    unfolding well_formed HasType to_jsonable from_jsonable load_bool load_int load_float load_str

    type-RoundTrips :
        (t : Ty) (v : Value)
        → well_formed t ≡ true
        → HasType t v
        → RoundTrips (from_jsonable rt t) v
    type-RoundTrips any v w (x, e) = (x, rw e (to_jsonable-of_json x), λ p. rw e refl)
    type-RoundTrips none_type v w h = absurd h
    type-RoundTrips Ty.bool v w (b, e) = (Json.bool b, rw e refl, λ p. rw e refl)
    type-RoundTrips Ty.int v w (n, e) = (Json.int n, rw e refl, λ p. rw e refl)
    type-RoundTrips Ty.float v w (x, e) = (Json.float x, rw e refl, λ p. rw e refl)
    type-RoundTrips Ty.str v w (s, e) = (Json.str s, rw e refl, λ p. rw e refl)
    type-RoundTrips (Ty.list t) v w (vs, e, hs) =
        rw e (list-RoundTrips (from_jsonable rt t) (HasType t) (λ u. type-RoundTrips t u w) vs hs)
    type-RoundTrips (Ty.dict k t) v w (ats, e, hs) =
        rw e (dict-RoundTrips (from_jsonable rt t) (HasType t) (λ u. type-RoundTrips t u w) ats hs)
    type-RoundTrips (union ts) v w (inl (n, e)) = (Json.null, rw e refl, λ p. rw e refl)
    type-RoundTrips (union ts) v w (inr h) =
        let (one, ws) = &&-true (count_args ts == 1) (well_formed_sole ts) w in
        let (x, e, l) = sole-RoundTrips ts v ws h in
        (x, e, λ p. union-loads ts p x v one (λ is. nothing-of_null v (rw is at e)) (l p))
    type-RoundTrips (enum c) v w (s, e, h) = rw e (member-RoundTrips c s h)
    type-RoundTrips (dataclass c fs) v w (ats, e, hs) =
        let (m, es, out, ls) = fields-RoundTrip fs ats w hs in
        (Json.dict m, rw (e, to_jsonable, es) refl, λ p. rw (e, ls c p) refl)
    type-RoundTrips (Ty.other t) v w h = absurd h

    sole-RoundTrips :
        (ts : Types) (v : Value)
        → well_formed_sole ts ≡ true
        → HasSole ts v
        → RoundTrips (load_sole rt ts) v
    sole-RoundTrips Types.nil v w h = absurd h
    sole-RoundTrips (Types.cons t ts) v w h =
        let (wt, ws) = &&-true (is_none_type t || well_formed t) (well_formed_sole ts) w in
        choose-RoundTrips (is_none_type t) (from_jsonable rt t) (load_sole rt ts) v
          (λ is later. sole-RoundTrips ts v ws later)
          (λ is_not here. type-RoundTrips t v (rw is_not at wt) here) h

    fields-RoundTrip :
        (fs : Fields) (ats : Attrs)
        → well_formed_fields fs ≡ true
        → HasFields fs ats
        → FieldsRoundTrip fs ats
    fields-RoundTrip Fields.end ats w e = (Entries.end, rw e refl, λ k h. refl, λ c p. rw e refl)
    fields-RoundTrip (field n t d fs) ats w (v, rest, e, ht, hs) =
        let (fresh, drop, wt, ws) =
          field_facts (contains n (names fs)) (nullable t) (absent_is_none t d) (well_formed t)
            (well_formed_fields fs) w in
        rw e (
          field-RoundTrips n t d fs v rest fresh (λ is. drop (not-nullable t (rw is at ht)))
            (type-RoundTrips t v wt ht) (fields-RoundTrip fs rest ws hs))

  -- An object of a well-formed contract type is written, and what was written decodes, at any path,
  -- to that object.
  pub from_jsonable-to_jsonable :
      (t : Ty) (v : Value) → well_formed t ≡ true → HasType t v → RoundTrips (from_jsonable rt t) v
  from_jsonable-to_jsonable = type-RoundTrips
