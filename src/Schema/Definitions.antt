-- ===== src/Schema/Definitions.antt =====
-- The definitions of a whole schema, at its key `$defs`, sorted by name.
use Prim.Native.String.{◌++◌ as append, compare}
use litharness_contracts.Prelude.{
  String, ◌≡◌, refl, sym, ◌∙◌, ap, ◌≢◌, true, ◌||◌, Option, none, some, List, [], ◌∷◌,
  if◌then◌else◌, str_eq, eq_iff, Bool-cases, inl, inr, arith, some-eq, Option-cases, subst,
}
use litharness_contracts.Json.{Json, Entries, entry, lookup}
use litharness_contracts.Builtins.Sorted.{not_after, after-ne}
use litharness_contracts.Types.{Ty, Fields, any, dataclass}
use litharness_contracts.Schema.Generate.{
  insert_sorted, sort_entries, defs_entry, join, class_body, required_names, properties_schema,
  json_schema,
}
use litharness_contracts.Schema.Refs.{
  named, refs_ok, refs_entries, Grows, ClosedDefs, refs_entries-Grows, split_entry,
}
use litharness_contracts.Schema.Closed.{
  placeholder, properties_schema-Over, refs_entries-class_body,
}

-- `schema.get("$defs", {})`
abbrev pub at_defs : Option Json → Entries
at_defs (some (Json.dict defs)) = defs
at_defs _ = Entries.end

abbrev pub definitions : Json → Entries
definitions (Json.dict m) = at_defs (lookup "$defs" m)
definitions _ = Entries.end

lookup-insert_sorted :
    (i k : String) (x : Json) (m : Entries)
    → lookup i (insert_sorted k x m) ≡ (if str_eq k i then some x else lookup i m)
unfolding insert_sorted
lookup-insert_sorted i k x Entries.end = refl
lookup-insert_sorted i k x (entry j y m) = elim (Bool-cases (not_after (compare k j))) [
  | inl before ↦ rw before refl
  | inr after ↦
      let other = after-ne k j after in
      rw (after) (ground (arith, eq_iff k i, eq_iff j k, eq_iff j i, lookup-insert_sorted i k x m))
]

pub lookup-sort_entries : (i : String) (m : Entries) → lookup i (sort_entries m) ≡ lookup i m
unfolding sort_entries
lookup-sort_entries i Entries.end = refl
lookup-sort_entries i (entry k x m) =
    lookup-insert_sorted i k x (sort_entries m)
    ∙ ap (λ o. if str_eq k i then some x else o) (lookup-sort_entries i m)

named-insert_sorted :
    (s k : String) (x : Json) (m : Entries)
    → named s (insert_sorted k x m) ≡ (str_eq (append "#/$defs/" k) s || named s m)
unfolding named insert_sorted
named-insert_sorted s k x Entries.end = refl
named-insert_sorted s k x (entry j y m) = elim (Bool-cases (not_after (compare k j))) [
  | inl before ↦ rw before refl
  | inr after ↦ rw after (ground (arith, named-insert_sorted s k x m))
]

named-sort_entries : (s : String) (m : Entries) → named s (sort_entries m) ≡ named s m
unfolding named sort_entries
named-sort_entries s Entries.end = refl
named-sort_entries s (entry k x m) =
    named-insert_sorted s k x (sort_entries m)
    ∙ ap (λ b. str_eq (append "#/$defs/" k) s || b) (named-sort_entries s m)

refs_entries-insert_sorted :
    (d : Entries) (k : String) (x : Json) (m : Entries)
    → refs_entries d (entry k x m) ≡ true
    → refs_entries d (insert_sorted k x m) ≡ true
unfolding insert_sorted
refs_entries-insert_sorted d k x Entries.end h = h
refs_entries-insert_sorted d k x (entry j y m) h = elim (Bool-cases (not_after (compare k j))) [
  | inl before ↦ rw before h
  | inr after ↦
      let (rest, with_x) = split_entry d k x (entry j y m) h in
      let (rest', with_y) = split_entry d j y m rest in
      rw after (with_y (insert_sorted k x m) (refs_entries-insert_sorted d k x m (with_x m rest')))
]

refs_entries-sort_entries :
    (d m : Entries) → refs_entries d m ≡ true → refs_entries d (sort_entries m) ≡ true
unfolding sort_entries
refs_entries-sort_entries d Entries.end h = h
refs_entries-sort_entries d (entry k x m) h =
    let (rest, with_x) = split_entry d k x m h in
    refs_entries-insert_sorted d k x (sort_entries m)
      (with_x (sort_entries m) (refs_entries-sort_entries d m rest))

refs_entries-join :
    (d l m : Entries)
    → refs_entries d l ≡ true
    → refs_entries d m ≡ true
    → refs_entries d (join l m) ≡ true
refs_entries-join d Entries.end m hl hm = hm
refs_entries-join d (entry k x l) m hl hm =
    let (rest, with_x) = split_entry d k x l hl in
    with_x (join l m) (refs_entries-join d l m rest hm)

-- Sorting keeps the definitions, and their references.
sorted-Closed : (defs : Entries) → ClosedDefs defs → ClosedDefs (sort_entries defs)
sorted-Closed defs h =
    refs_entries-Grows defs (sort_entries defs) (sort_entries defs)
      (λ s n. named-sort_entries s defs ∙ n) (refs_entries-sort_entries defs defs h)

pub definitions-join :
    (properties : Entries) (required : List String) (defs : Entries)
    → at_defs (lookup "$defs" (join (class_body properties required) (defs_entry defs)))
      ≡ sort_entries defs
unfolding class_body sort_entries
definitions-join properties [] Entries.end = refl
definitions-join properties [] (entry k x m) = refl
definitions-join properties (n ∷ required) Entries.end = refl
definitions-join properties (n ∷ required) (entry k x m) = refl

refs_entries-defs_entry :
    (d defs : Entries)
    → refs_entries d (sort_entries defs) ≡ true
    → refs_entries d (defs_entry defs) ≡ true
unfolding refs_ok
refs_entries-defs_entry d Entries.end h = refl
refs_entries-defs_entry d (entry k x m) h = rw h

-- The schema of a class with these properties and definitions.
abbrev pub root : String → String → List String → Entries × Entries → Json
root c schema_id required (properties, defs) = Json.dict (
    entry "$schema" (Json.str "https://json-schema.org/draft/2020-12/schema") (
      entry "$id" (Json.str schema_id)
        (entry "title" (Json.str c) (join (class_body properties required) (defs_entry defs)))))

root-refs :
    (c schema_id : String) (required : List String) (properties defs : Entries)
    → refs_entries defs properties ≡ true
    → ClosedDefs defs
    → refs_ok (sort_entries defs) (root c schema_id required (properties, defs)) ≡ true
unfolding refs_ok
root-refs c schema_id required properties defs h closed =
    let grows : Grows defs (sort_entries defs) = λ s n. named-sort_entries s defs ∙ n in
    let body =
      refs_entries-Grows defs (sort_entries defs) (class_body properties required) grows
        (refs_entries-class_body defs properties required h) in
    refs_entries-join (sort_entries defs) (class_body properties required) (defs_entry defs) body
      (refs_entries-defs_entry (sort_entries defs) defs (sorted-Closed defs closed))

class-Closed :
    (c schema_id : String) (fs : Fields) (schema : Json)
    → json_schema (dataclass c fs) schema_id ≡ some schema
    → (refs_ok (definitions schema) schema ≡ true)
      × ((k : String) → lookup k (definitions schema) ≢ some placeholder)
unfolding json_schema refs_ok
class-Closed c schema_id fs schema h = elim (Option-cases (properties_schema fs Entries.end)) [
  | inl refused ↦
      let bad : ◌≡◌ {A = Option Json} none (some schema) = rw refused at h in absurd (cc)
  | inr ((properties, defs), e) ↦
      let is : some (root c schema_id (required_names fs) (properties, defs)) ≡ some schema =
        rw e at h in
      let ((grows, closed, kept), refs) = properties_schema-Over fs Entries.end properties defs e in
      let sorted = definitions-join properties (required_names fs) defs in
      subst
        (λ x.
          (refs_ok (definitions x) x ≡ true)
          × ((k : String) → lookup k (definitions x) ≢ some placeholder))
        (some-eq is)
        (
          rw sorted (root-refs c schema_id (required_names fs) properties defs refs (closed refl)),
          λ k left.
              let empty = kept k (sym (lookup-sort_entries k defs) ∙ (rw sorted at left)) in cc,
        )
]

-- In a generated schema each reference names a definition of the schema, and no definition is left
-- the empty placeholder that stands for a class while its fields are visited.
pub json_schema_closed :
    (t : Ty) (schema_id : String) (schema : Json)
    → json_schema t schema_id ≡ some schema
    → (refs_ok (definitions schema) schema ≡ true)
      × ((k : String) → lookup k (definitions schema) ≢ some (Json.dict Entries.end))
unfolding json_schema
json_schema_closed (dataclass c fs) schema_id schema h = class-Closed c schema_id fs schema h
json_schema_closed any schema_id schema h = absurd (cc)
json_schema_closed _ schema_id schema h = absurd (cc)
