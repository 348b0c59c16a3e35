-- ===== src/Schema/Validate/Valid.antt =====
-- What `to_jsonable` writes of an object validates against the schema of its type.
use Prim.Native.String.{◌++◌ as append}
use litharness_contracts.Prelude.{
  ℕ, zero, suc, ◌+◌, ◌≤◌, String, ◌≡◌, refl, ◌≢◌, Bool, true, false, ◌&&◌, ◌||◌, ◌==◌, not, some,
  List, [], ◌∷◌, map, if◌then◌else◌, inl, inr, &&-true, arith, contains,
}
use litharness_contracts.Outcome.{ok}
use litharness_contracts.Json.{Json, Items, Entries, item, entry}
use litharness_contracts.Value.{Value, Values, Attrs, nothing, cons, attr}
use litharness_contracts.Types.{
  Ty, Types, Fields, EnumClass, any, none_type, union, enum, dataclass, field, is_none_type,
  count_args, has_value, names,
}
use litharness_contracts.Serde.Encode.{to_jsonable, dump_values, dump_entries, to_jsonable-of_json}
use litharness_contracts.Serde.Typing.{
  HasType, HasSole, HasFields, AllValues, AllAttrs, well_formed, well_formed_sole,
  well_formed_fields, nullable, absent_is_none,
}
use litharness_contracts.Serde.RoundTrip.{field_facts, not-nullable}
use litharness_contracts.Schema.Generate.{required_names, texts, enum_schema, reference}
use litharness_contracts.Schema.Validate.{
  valid_in, keyword_of, all_items, all_others, among, follow, follow-some, pointed, type_holds,
  enum_holds, items_hold, others_hold,
}
use litharness_contracts.Schema.Validate.Fields.{
  Validates, FieldsValidate, field-Validates, class_schema-valid,
}
use litharness_contracts.Schema.Validate.Shape.{
  shape, shape_sole, class_schema, Defined, DefinedSole, DefinedFields, depth, depth_sole,
  depth_fields, is_union, none_in_fields, none_in_sole, none_in_all,
}

abbrev ValuesValidate : Entries → ℕ → Json → Values → Type 0
ValuesValidate d k s vs =
    (xs : Items) × (dump_values vs ≡ ok xs)
    × ((n : ℕ) → k ≤ n → all_items (valid_in (follow n d) s) xs ≡ true)

values-Validate :
    (d : Entries) (k : ℕ) (s : Json) (P : Value → Type 0)
    → ((v : Value) → P v → Validates d k s v)
    → (vs : Values) → AllValues P vs
    → ValuesValidate d k s vs
unfolding to_jsonable
values-Validate d k s P f Values.nil h = (Items.nil, refl, λ n le. refl)
values-Validate d k s P f (cons v vs) (hv, hvs) =
    let (x, e, ok_x) = f v hv in
    let (xs, es, ok_xs) = values-Validate d k s P f vs hvs in
    (item x xs, rw (e, es) refl, λ n le. rw (ok_x n le) (ok_xs n le))

abbrev EntriesValidate : Entries → ℕ → Json → Attrs → Type 0
EntriesValidate d k s ats =
    (m : Entries) × (dump_entries ats ≡ ok m)
    × ((n : ℕ) → k ≤ n → all_others (λ j. false) (valid_in (follow n d) s) m ≡ true)

entries-Validate :
    (d : Entries) (k : ℕ) (s : Json) (P : Value → Type 0)
    → ((v : Value) → P v → Validates d k s v)
    → (ats : Attrs) → AllAttrs P ats
    → EntriesValidate d k s ats
unfolding to_jsonable
entries-Validate d k s P f Attrs.end h = (Entries.end, refl, λ n le. refl)
entries-Validate d k s P f (attr j v ats) (hv, hvs) =
    let (x, e, ok_x) = f v hv in
    let (m, es, ok_m) = entries-Validate d k s P f ats hvs in
    (entry j x m, rw (e, es) refl, λ n le. rw (ok_x n le) (ok_m n le))

among-texts : (s : String) (l : List String) → contains s l ≡ true → among s (texts l) ≡ true
among-texts s [] h = h
among-texts s (t ∷ l) h = ground (arith, among-texts s l)

-- An enum's member, behind its reference.
member-Validates :
    (d : Entries) (c : EnumClass) (s : String)
    → pointed (append "#/$defs/" c.name) d ≡ some (enum_schema c)
    → has_value c s ≡ true
    → Validates d 1 (reference c.name) (Value.member c.name s)
unfolding to_jsonable valid_in keyword_of reference enum_schema type_holds enum_holds
member-Validates d c s def has = (Json.str s, refl, deep)
  where
    deep : (n : ℕ) → 1 ≤ n → valid_in (follow n d) (reference c.name) (Json.str s) ≡ true
    deep zero le = absurd (omega arith)
    deep (suc n) le =
        let go = follow-some n d (append "#/$defs/" c.name) (enum_schema c) (Json.str s) def in
        rw (go, among-texts s (map (λ p. p.1) c.members) has) refl

choose-Validates :
    (b : Bool) (d : Entries) (k : ℕ) (here later : Json) (v : Value) {A B : Type 0}
    → (b ≡ true → B → Validates d k later v)
    → (b ≡ false → A → Validates d k here v)
    → (if b then B else A)
    → Validates d k (if b then later else here) v
choose-Validates true d k here later v f g h = f refl h
choose-Validates false d k here later v f g h = g refl h

deeper :
    (d : Entries) (k j : ℕ) (s : Json) (v : Value) → k ≤ j → Validates d k s v → Validates d j s v
deeper d k j s v le (x, e, valid) = (x, e, λ n h. valid n (omega arith))

class-Validates :
    (d : Entries) (k : ℕ) (c : String) (fs : Fields) (ats : Attrs)
    → pointed (append "#/$defs/" c) d ≡ some (class_schema fs)
    → FieldsValidate d k fs ats
    → Validates d (suc k) (reference c) (Value.instance_of c ats)
unfolding to_jsonable valid_in keyword_of reference
class-Validates d k c fs ats def (m, es, out, whole) = (Json.dict m, rw es refl, deep)
  where
    deep : (n : ℕ) → suc k ≤ n → valid_in (follow n d) (reference c) (Json.dict m) ≡ true
    deep zero le = absurd (omega arith)
    deep (suc n) le =
        let (required, properties) = whole m (λ j h. refl) in
        let go = follow-some n d (append "#/$defs/" c) (class_schema fs) (Json.dict m) def in
        rw (go, class_schema-valid (follow n d) fs m (properties n (omega arith)) required) refl

mutual
  unfolding well_formed HasType to_jsonable valid_in keyword_of type_holds items_hold others_hold
      shape Defined depth none_in_fields required_names

  type-Validates :
      (d : Entries) (t : Ty) (v : Value)
      → well_formed t ≡ true
      → none_in_fields t ≡ true
      → Defined d t
      → HasType t v
      → (is_union t ≡ true → v ≢ nothing)
      → Validates d (depth t) (shape t) v
  type-Validates d any v w p def (x, e) some_v = (x, rw e (to_jsonable-of_json x), λ n le. refl)
  type-Validates d none_type v w p def h some_v = absurd h
  type-Validates d Ty.bool v w p def (b, e) some_v = (Json.bool b, rw e refl, λ n le. refl)
  type-Validates d Ty.int v w p def (i, e) some_v = (Json.int i, rw e refl, λ n le. refl)
  type-Validates d Ty.float v w p def (x, e) some_v = (Json.float x, rw e refl, λ n le. refl)
  type-Validates d Ty.str v w p def (s, e) some_v = (Json.str s, rw e refl, λ n le. refl)
  type-Validates d (Ty.list t) v w p def (vs, e, hs) some_v =
      let (whole, inside) = &&-true (not (is_union t)) (none_in_fields t) p in
      let (xs, es, valid) =
        values-Validate d (depth t) (shape t) (HasType t)
          (λ u hu. type-Validates d t u w inside def hu (λ is. absurd (cc))) vs hs in
      (Json.list xs, rw (e, es) refl, λ n le. rw (valid n le) refl)
  type-Validates d (Ty.dict k t) v w p def (ats, e, hs) some_v =
      let (whole, inside) = &&-true (not (is_union t)) (none_in_fields t) p in
      let (m, es, valid) =
        entries-Validate d (depth t) (shape t) (HasType t)
          (λ u hu. type-Validates d t u w inside def hu (λ is. absurd (cc))) ats hs in
      (Json.dict m, rw (e, es) refl, λ n le. rw (valid n le) refl)
  type-Validates d (union ts) v w p def (inl (n, e)) some_v = absurd (some_v refl e)
  type-Validates d (union ts) v w p def (inr h) some_v =
      let (one, ws) = &&-true (count_args ts == 1) (well_formed_sole ts) w in
      sole-Validates d ts v ws p def h
  type-Validates d (enum c) v w p def (s, e, h) some_v = rw e (member-Validates d c s def h)
  type-Validates d (dataclass c fs) v w p (def, defs) (ats, e, hs) some_v =
      rw e (class-Validates d (depth_fields fs) c fs ats def (fields-Validate d fs ats w p defs hs))
  type-Validates d (Ty.other t) v w p def h some_v = absurd h

  sole-Validates :
      (d : Entries) (ts : Types) (v : Value)
      → well_formed_sole ts ≡ true
      → none_in_sole ts ≡ true
      → DefinedSole d ts
      → HasSole ts v
      → Validates d (depth_sole ts) (shape_sole ts) v
  sole-Validates d Types.nil v w p def h = absurd h
  sole-Validates d (Types.cons t ts) v w p (def, defs) h =
      let (wt, ws) = &&-true (is_none_type t || well_formed t) (well_formed_sole ts) w in
      let (pt, ps) = &&-true (not (is_union t) && none_in_fields t) (none_in_sole ts) p in
      let (whole, inside) = &&-true (not (is_union t)) (none_in_fields t) pt in
      choose-Validates (is_none_type t) d (depth t + depth_sole ts) (shape t) (shape_sole ts) v
        (λ is later.
          deeper d (depth_sole ts) (depth t + depth_sole ts) (shape_sole ts) v (omega arith)
            (sole-Validates d ts v ws ps defs later))
        (λ is_not here.
          deeper d (depth t) (depth t + depth_sole ts) (shape t) v (omega arith)
            (type-Validates d t v (rw is_not at wt) inside def here (λ is. absurd (cc))))
        h

  fields-Validate :
      (d : Entries) (fs : Fields) (ats : Attrs)
      → well_formed_fields fs ≡ true
      → none_in_all fs ≡ true
      → DefinedFields d fs
      → HasFields fs ats
      → FieldsValidate d (depth_fields fs) fs ats
  fields-Validate d Fields.end ats w p def e =
      (Entries.end, rw e refl, λ k h. refl, λ whole agree. (refl, λ n le. refl))
  fields-Validate d (field n t def fs) ats w p (here, later) (v, rest, e, ht, hs) =
      let (fresh, drop, wt, ws) =
        field_facts (contains n (names fs)) (nullable t) (absent_is_none t def) (well_formed t)
          (well_formed_fields fs) w in
      let (pt, ps) = &&-true (none_in_fields t) (none_in_all fs) p in
      rw e (
        field-Validates d n t def fs v rest (depth t) (depth_fields fs) fresh
          (λ is. drop (not-nullable t (rw is at ht)))
          (λ not_none. type-Validates d t v wt pt here ht (λ _. not_none))
          (fields-Validate d fs rest ws ps later hs))

-- An object of a class that knows where `None` may stand is written, and what is written is an
-- object that the schema of the class allows, with the definitions of the types inside.
pub class-fields-Validate :
    (d : Entries) (fs : Fields) (ats : Attrs)
    → well_formed_fields fs ≡ true
    → none_in_all fs ≡ true
    → DefinedFields d fs
    → HasFields fs ats
    → FieldsValidate d (depth_fields fs) fs ats
class-fields-Validate = fields-Validate
