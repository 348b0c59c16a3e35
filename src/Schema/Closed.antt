-- ===== src/Schema/Closed.antt =====
-- A generated schema names no definition that it lacks, and leaves no definition a placeholder.
use litharness_contracts.Prelude.{
  String, ◌≡◌, refl, ◌≢◌, true, ◌==◌, none, some, List, [], ◌∷◌, map, if◌then◌else◌, str_eq,
  Bool-cases, inl, inr, some-eq,
}
use litharness_contracts.Json.{Json, Entries, lookup}
use litharness_contracts.Types.{
  Ty, Types, Fields, EnumClass, any, none_type, union, enum, dataclass, field, is_none_type,
  count_args,
}
use litharness_contracts.Schema.Generate.{
  put, has_key, texts, reference, enum_schema, class_body, required_names, type_schema, sole_schema,
  properties_schema,
}
use litharness_contracts.Schema.Gives.{Gives, gives, raises, Gives-bind, Gives-if, given}
use litharness_contracts.Schema.Refs.{
  refs_ok, refs_items, refs_entries, is_object, Grows, ClosedDefs, Grows-trans, put-Grows,
  has_key-named, has_key-put, refs_ok-Grows, refs_entries-Grows, refs_entries-entry,
  refs_entries-put, lookup-put,
}

abbrev pub placeholder : Json
placeholder = Json.dict Entries.end

-- The definitions have grown, and stay closed; a definition that is a placeholder now was one.
abbrev pub Extends : Entries → Entries → Type 0
Extends d e =
    Grows d e
    × (ClosedDefs d → ClosedDefs e)
    × ((k : String) → lookup k e ≡ some placeholder → lookup k d ≡ some placeholder)

-- A schema is an object whose references name definitions.
abbrev SchemaOver : Entries → Json × Entries → Type 0
SchemaOver d (x, e) = Extends d e × (is_object x ≡ true) × (refs_ok e x ≡ true)

abbrev pub PropertiesOver : Entries → Entries × Entries → Type 0
PropertiesOver d (m, e) = Extends d e × (refs_entries e m ≡ true)

Extends-refl : (d : Entries) → Extends d d
Extends-refl d = (λ s h. h, λ h. h, λ k h. h)

Extends-trans : (c d e : Entries) → Extends c d → Extends d e → Extends c e
Extends-trans c d e (g, cl, p) (g', cl', p') =
    (Grows-trans c d e g g', λ h. cl' (cl h), λ k h. p k (p' k h))

refs_items-texts : (d : Entries) (names : List String) → refs_items d (texts names) ≡ true
unfolding refs_ok
refs_items-texts d [] = refl
refs_items-texts d (s ∷ names) = refs_items-texts d names

pub refs_entries-class_body :
    (d properties : Entries) (required : List String)
    → refs_entries d properties ≡ true
    → refs_entries d (class_body properties required) ≡ true
unfolding refs_ok class_body
refs_entries-class_body d properties [] h = rw h
refs_entries-class_body d properties (n ∷ required) h = rw (h, refs_items-texts d required)

-- A definition that is no placeholder is put in.
put-Extends :
    (d : Entries) (k : String) (x : Json)
    → is_object x ≡ true
    → (ClosedDefs d → refs_ok (put k x d) x ≡ true)
    → x ≢ placeholder
    → Extends d (put k x d)
put-Extends d k x o h filled = (
  put-Grows k x d,
  λ closed.
      refs_entries-put (put k x d) k x d o (h closed)
        (refs_entries-Grows d (put k x d) d (put-Grows k x d) closed),
  λ i e. elim (Bool-cases (str_eq k i)) [
    | inl same ↦ absurd (filled (some-eq (rw (lookup-put i k x d, same) at e)))
    | inr other ↦ rw (lookup-put i k x d, other) at e
  ],
)

reference-named : (k : String) (d : Entries) → has_key k d ≡ true → refs_ok d (reference k) ≡ true
unfolding refs_ok reference
reference-named k d h = rw (has_key-named k d h)

enum_refs : (d : Entries) (e : EnumClass) → refs_ok d (enum_schema e) ≡ true
unfolding refs_ok enum_schema
enum_refs d e = rw (refs_items-texts d (map (λ p. p.1) e.members))

-- The class is a placeholder while its fields are visited, and is then filled.
class-Extends :
    (d e : Entries) (c : String) (properties : Entries) (required : List String)
    → Extends (put c placeholder d) e
    → refs_entries e properties ≡ true
    → Extends d (put c (Json.dict (class_body properties required)) e)
unfolding refs_ok class_body
class-Extends d e c properties required (g, closed, kept) h =
    let x = Json.dict (class_body properties required) in
    let grows = put-Grows c x e in
    let body = refs_entries-class_body e properties required h in
    (
      Grows-trans d (put c placeholder d) (put c x e) (put-Grows c placeholder d)
          (Grows-trans (put c placeholder d) e (put c x e) g grows),
      λ before.
          let opened =
            refs_entries-Grows d (put c placeholder d) d (put-Grows c placeholder d) before in
          let inside =
            closed (refs_entries-put (put c placeholder d) c placeholder d refl refl opened) in
          refs_entries-put (put c x e) c x e refl (refs_ok-Grows e (put c x e) x grows body)
            (refs_entries-Grows e (put c x e) e grows inside),
      λ k left. elim (Bool-cases (str_eq c k)) [
        | inl same ↦ let bad = some-eq (rw (lookup-put k c x e, same) at left) in absurd (cc)
        | inr other ↦
            rw (lookup-put k c placeholder d, other) at
              (kept k (rw (lookup-put k c x e, other) at left))
      ],
    )

reference-is_object : (k : String) → is_object (reference k) ≡ true
unfolding reference
reference-is_object k = refl

enum_put-Extends : (c : EnumClass) (d : Entries) → Extends d (put c.name (enum_schema c) d)
unfolding enum_schema
enum_put-Extends c d =
    put-Extends d c.name (enum_schema c) refl (λ _. enum_refs (put c.name (enum_schema c) d) c)
      (λ e. cc)

enum-Over :
    (c : EnumClass) (d : Entries)
    → SchemaOver d (reference c.name, if has_key c.name d then d else put c.name (enum_schema c) d)
enum-Over c d = elim (Bool-cases (has_key c.name d)) [
  | inl old ↦ rw old (Extends-refl d, reference-is_object c.name, reference-named c.name d old)
  | inr new ↦ rw new (
    enum_put-Extends c d,
    reference-is_object c.name,
    reference-named c.name (put c.name (enum_schema c) d) (has_key-put c.name (enum_schema c) d),
  )
]

mutual
  unfolding type_schema refs_ok

  type-Over : (t : Ty) (d : Entries) → Gives (SchemaOver d) (type_schema t d)
  type-Over any d = gives (Extends-refl d, refl, refl)
  type-Over none_type d = raises
  type-Over (union ts) d =
      Gives-if (count_args ts == 1) (sole_schema ts d) none (λ _. sole-Over ts d) (λ _. raises)
  type-Over (Ty.list t) d =
      Gives-bind (type-Over t d)
        λ (x, e) (ext, o, h). gives (ext, refl, refs_entries-entry e "items" x Entries.end o h refl)
  type-Over (Ty.dict k t) d = Gives-bind (type-Over t d) λ (x, e) (ext, o, h).
      gives (ext, refl, refs_entries-entry e "additionalProperties" x Entries.end o h refl)
  type-Over (enum c) d = gives (enum-Over c d)
  type-Over (dataclass c fs) d =
      Gives-if (has_key c d) _ _
        (λ old. gives (Extends-refl d, reference-is_object c, reference-named c d old))
        λ new. Gives-bind (fields-Over fs (put c placeholder d)) λ (m, e) (ext, h). gives (
          class-Extends d e c m (required_names fs) ext h,
          reference-is_object c,
          reference-named c (put c (Json.dict (class_body m (required_names fs))) e)
              (has_key-put c (Json.dict (class_body m (required_names fs))) e),
        )
  type-Over Ty.bool d = gives (Extends-refl d, refl, refl)
  type-Over Ty.int d = gives (Extends-refl d, refl, refl)
  type-Over Ty.float d = gives (Extends-refl d, refl, refl)
  type-Over Ty.str d = gives (Extends-refl d, refl, refl)
  type-Over (Ty.other t) d = raises

  sole-Over : (ts : Types) (d : Entries) → Gives (SchemaOver d) (sole_schema ts d)
  sole-Over Types.nil d = raises
  sole-Over (Types.cons t ts) d =
      Gives-if (is_none_type t) (sole_schema ts d) (type_schema t d) (λ _. sole-Over ts d)
        (λ _. type-Over t d)

  fields-Over : (fs : Fields) (d : Entries) → Gives (PropertiesOver d) (properties_schema fs d)
  fields-Over Fields.end d = gives (Extends-refl d, refl)
  fields-Over (field n t def fs) d = Gives-bind (type-Over t d) λ (x, e) (ext, o, h).
      Gives-bind (fields-Over fs e) λ (m, e') (ext', h'). gives (
        Extends-trans d e e' ext ext',
        refs_entries-entry e' n x m o (refs_ok-Grows e e' x ext'.0 h) h',
      )

pub properties_schema-Over :
    (fs : Fields) (d properties e : Entries)
    → properties_schema fs d ≡ some (properties, e)
    → PropertiesOver d (properties, e)
properties_schema-Over fs d properties e h = given (fields-Over fs d) h
