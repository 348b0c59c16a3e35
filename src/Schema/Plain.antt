-- ===== src/Schema/Plain.antt =====
-- A schema has no numbers, so that every schema can be printed.
use Prim.Native.String.{compare}
use litharness_contracts.Prelude.{
  String, ◌≡◌, refl, true, ◌==◌, none, List, [], ◌∷◌, map, if◌then◌else◌, str_eq, &&-true,
  Bool-cases, inl, inr,
}
use litharness_contracts.Json.{Json, Entries, entry}
use litharness_contracts.Types.{
  Ty, Types, Fields, EnumClass, any, none_type, union, enum, dataclass, field, is_none_type,
  count_args,
}
use litharness_contracts.Schema.Generate.{
  put, has_key, texts, reference, enum_schema, class_body, required_names, type_schema, sole_schema,
  properties_schema, sort_entries, insert_sorted, join, defs_entry, json_schema,
}
use litharness_contracts.Schema.Gives.{Gives, gives, raises, Gives-bind, Gives-if}
use litharness_contracts.Builtins.Sorted.{not_after}
use litharness_contracts.Builtins.Printable.{no_numbers, no_numbers_items, no_numbers_entries}

put-Plain :
    (k : String) (x : Json) (d : Entries)
    → no_numbers x ≡ true
    → no_numbers_entries d ≡ true
    → no_numbers_entries (put k x d) ≡ true
unfolding put no_numbers
put-Plain k x Entries.end hx hd = rw hx refl
put-Plain k x (entry j y d) hx hd =
    let (hy, rest) = &&-true (no_numbers y) (no_numbers_entries d) hd in
    elim (Bool-cases (str_eq j k)) [
      | inl same ↦ rw (same, hx) rest
      | inr other ↦ rw (other, hy) (put-Plain k x d hx rest)
    ]

texts-Plain : (l : List String) → no_numbers_items (texts l) ≡ true
unfolding no_numbers
texts-Plain [] = refl
texts-Plain (s ∷ l) = texts-Plain l

class_body-Plain :
    (m : Entries) (required : List String)
    → no_numbers_entries m ≡ true
    → no_numbers_entries (class_body m required) ≡ true
unfolding class_body no_numbers
class_body-Plain m [] h = rw h refl
class_body-Plain m (n ∷ required) h = rw (h, texts-Plain required) refl

-- A schema and the definitions have no numbers.
abbrev Plain : Json × Entries → Type 0
Plain (x, e) = (no_numbers x ≡ true) × (no_numbers_entries e ≡ true)

abbrev PlainEntries : Entries × Entries → Type 0
PlainEntries (m, e) = (no_numbers_entries m ≡ true) × (no_numbers_entries e ≡ true)

reference-Plain : (k : String) → no_numbers (reference k) ≡ true
unfolding reference no_numbers
reference-Plain k = refl

enum-Plain :
    (c : EnumClass) (d : Entries)
    → no_numbers_entries d ≡ true
    → Plain (reference c.name, if has_key c.name d then d else put c.name (enum_schema c) d)
unfolding enum_schema no_numbers
enum-Plain c d h = elim (Bool-cases (has_key c.name d)) [
  | inl old ↦ (reference-Plain c.name, rw old h)
  | inr new ↦ (
    reference-Plain c.name,
    rw new
        (put-Plain c.name (enum_schema c) d (rw (texts-Plain (map (λ p. p.1) c.members)) refl) h),
  )
]

mutual
  unfolding type_schema no_numbers

  type-Plain : (t : Ty) (d : Entries) → no_numbers_entries d ≡ true → Gives Plain (type_schema t d)
  type-Plain any d h = gives (refl, h)
  type-Plain none_type d h = raises
  type-Plain (union ts) d h =
      Gives-if (count_args ts == 1) (sole_schema ts d) none (λ _. sole-Plain ts d h) (λ _. raises)
  type-Plain (Ty.list t) d h =
      Gives-bind (type-Plain t d h) λ (x, e) (hx, he). gives (rw hx refl, he)
  type-Plain (Ty.dict k t) d h =
      Gives-bind (type-Plain t d h) λ (x, e) (hx, he). gives (rw hx refl, he)
  type-Plain (enum c) d h = gives (enum-Plain c d h)
  type-Plain (dataclass c fs) d h =
      Gives-if (has_key c d) _ _ (λ old. gives (reference-Plain c, h))
        λ new.
          Gives-bind
            (fields-Plain fs (put c (Json.dict Entries.end) d)
              (put-Plain c (Json.dict Entries.end) d refl h))
            λ (m, e) (hm, he). gives (
              reference-Plain c,
              put-Plain c (Json.dict (class_body m (required_names fs))) e
                  (class_body-Plain m (required_names fs) hm) he,
            )
  type-Plain Ty.bool d h = gives (refl, h)
  type-Plain Ty.int d h = gives (refl, h)
  type-Plain Ty.float d h = gives (refl, h)
  type-Plain Ty.str d h = gives (refl, h)
  type-Plain (Ty.other t) d h = raises

  sole-Plain :
      (ts : Types) (d : Entries) → no_numbers_entries d ≡ true → Gives Plain (sole_schema ts d)
  sole-Plain Types.nil d h = raises
  sole-Plain (Types.cons t ts) d h =
      Gives-if (is_none_type t) (sole_schema ts d) (type_schema t d) (λ _. sole-Plain ts d h)
        (λ _. type-Plain t d h)

  fields-Plain :
      (fs : Fields) (d : Entries)
      → no_numbers_entries d ≡ true
      → Gives PlainEntries (properties_schema fs d)
  fields-Plain Fields.end d h = gives (refl, h)
  fields-Plain (field n t def fs) d h = Gives-bind (type-Plain t d h) λ (x, e) (hx, he).
      Gives-bind (fields-Plain fs e he) λ (m, e') (hm, he'). gives (rw (hx, hm) refl, he')

insert_sorted-Plain :
    (k : String) (x : Json) (m : Entries)
    → no_numbers x ≡ true
    → no_numbers_entries m ≡ true
    → no_numbers_entries (insert_sorted k x m) ≡ true
unfolding insert_sorted no_numbers
insert_sorted-Plain k x Entries.end hx hm = rw hx refl
insert_sorted-Plain k x (entry j y m) hx hm =
    let (hy, rest) = &&-true (no_numbers y) (no_numbers_entries m) hm in
    elim (Bool-cases (not_after (compare k j))) [
      | inl before ↦ rw (before, hx) hm
      | inr after ↦ rw (after, hy) (insert_sorted-Plain k x m hx rest)
    ]

sort_entries-Plain :
    (m : Entries) → no_numbers_entries m ≡ true → no_numbers_entries (sort_entries m) ≡ true
unfolding sort_entries no_numbers
sort_entries-Plain Entries.end h = refl
sort_entries-Plain (entry k x m) h =
    let (hx, hm) = &&-true (no_numbers x) (no_numbers_entries m) h in
    insert_sorted-Plain k x (sort_entries m) hx (sort_entries-Plain m hm)

join-Plain :
    (l m : Entries)
    → no_numbers_entries l ≡ true
    → no_numbers_entries m ≡ true
    → no_numbers_entries (join l m) ≡ true
unfolding no_numbers
join-Plain Entries.end m hl hm = hm
join-Plain (entry k x l) m hl hm =
    let (hx, hl') = &&-true (no_numbers x) (no_numbers_entries l) hl in
    rw hx (join-Plain l m hl' hm)

defs_entry-Plain :
    (d : Entries) → no_numbers_entries d ≡ true → no_numbers_entries (defs_entry d) ≡ true
unfolding no_numbers
defs_entry-Plain Entries.end h = refl
defs_entry-Plain (entry k x d) h = rw (sort_entries-Plain (entry k x d) h) refl

-- A generated schema has no numbers.
pub json_schema-no_numbers :
    (t : Ty) (schema_id : String) → Gives (λ x. no_numbers x ≡ true) (json_schema t schema_id)
unfolding json_schema no_numbers
json_schema-no_numbers (dataclass c fs) schema_id =
    Gives-bind (fields-Plain fs Entries.end refl) λ (m, e) (hm, he). gives (
      join-Plain (class_body m (required_names fs)) (defs_entry e)
        (class_body-Plain m (required_names fs) hm) (defs_entry-Plain e he))
json_schema-no_numbers any schema_id = raises
json_schema-no_numbers _ schema_id = raises
