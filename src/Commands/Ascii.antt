-- ===== src/Commands/Ascii.antt =====
-- The characters of a schema file.
use Prim.Native.String.{◌++◌}
use Prim.Native.String.{compare}
use litharness_contracts.Prelude.{
  ℕ, suc, String, ◌≡◌, refl, Bool, true, false, Option, none, some, List, [], ◌∷◌, &&-true,
  Bool-cases, Option-cases, inl, inr, some-eq, subst,
}
use litharness_contracts.Json.{Json, Items, Entries, item, entry, Float}
use litharness_contracts.Types.{Ty}
use litharness_contracts.Builtins.Sorted.{not_after, insert_by_name, sort_by_name}
use litharness_contracts.Builtins.Dump.{
  dump_at, dump_items, dump_entries, dumps, members_of, in_order, ◌>>=◌,
}
use litharness_contracts.Builtins.Printable.{no_numbers, no_numbers_items, no_numbers_entries}
use litharness_contracts.Builtins.Printed.{
  printed, all_printed, parts_printed, printed-append, dump_text-printed, bracketed-printed,
  members_of-printed,
}
use litharness_contracts.Schema.Generate.{json_schema}
use litharness_contracts.Schema.Gives.{Gives, given}
use litharness_contracts.Schema.Plain.{json_schema-no_numbers}
use litharness_contracts.Commands.Render.{render_schema, dumped_schema}

bind_some :
    {S T : Type 0} (o : Option S) (next : S → Option T) {t : T}
    → (o >>= next) ≡ some t
    → (s : S) × (o ≡ some s) × (next s ≡ some t)
bind_some none next h = absurd (cc)
bind_some (some s) next h = (s, refl, h)

insert-printed :
    (k s : String) (parts : List (String × String))
    → printed s ≡ true
    → parts_printed parts ≡ true
    → parts_printed (insert_by_name k s parts) ≡ true
unfolding insert_by_name
insert-printed k s [] h hs = rw h refl
insert-printed k s ((j, t) ∷ parts) h hs = elim (Bool-cases (not_after (compare k j))) [
  | inl before ↦ rw (before, h) hs
  | inr after ↦
      let (first, rest) = &&-true (printed t) (parts_printed parts) hs in
      rw (after, first) (insert-printed k s parts h rest)
]

in_order-printed :
    (sort_keys : Bool) (parts : List (String × String))
    → parts_printed parts ≡ true
    → parts_printed (in_order sort_keys parts) ≡ true
unfolding sort_by_name
in_order-printed false parts h = h
in_order-printed true [] h = refl
in_order-printed true ((k, s) ∷ parts) h =
    let (first, rest) = &&-true (printed s) (parts_printed parts) h in
    insert-printed k s (sort_by_name parts) first (in_order-printed true parts rest)

module _ (sort_keys : Bool) (dump_float : Float → String) where
  mutual
    unfolding dump_at no_numbers printed

    dump_at-printed :
        (level : ℕ) (x : Json) (text : String)
        → no_numbers x ≡ true
        → dump_at true sort_keys dump_float level x ≡ some text
        → printed text ≡ true
    dump_at-printed level Json.null text h e = subst (λ s. printed s ≡ true) (some-eq e) refl
    dump_at-printed level (Json.bool true) text h e = subst (λ s. printed s ≡ true) (some-eq e) refl
    dump_at-printed level (Json.bool false) text h e =
        subst (λ s. printed s ≡ true) (some-eq e) refl
    dump_at-printed level (Json.int n) text h e = absurd (cc)
    dump_at-printed level (Json.float x) text h e = absurd (cc)
    dump_at-printed level (Json.str s) text h e =
        subst (λ s. printed s ≡ true) (some-eq e) (dump_text-printed s)
    dump_at-printed level (Json.list xs) text h e =
        let (parts, is, same) =
          bind_some (dump_items true sort_keys dump_float (suc level) xs) _ e in
        subst (λ s. printed s ≡ true) (some-eq same)
          (bracketed-printed level "[" "]" parts refl refl
            (dump_items-printed (suc level) xs parts h is))
    dump_at-printed level (Json.dict m) text h e =
        let (parts, is, same) =
          bind_some (dump_entries true sort_keys dump_float (suc level) m) _ e in
        subst (λ s. printed s ≡ true) (some-eq same)
          (bracketed-printed level "{" "}" (members_of true (in_order sort_keys parts)) refl refl (
            members_of-printed (in_order sort_keys parts)
              (in_order-printed sort_keys parts (dump_entries-printed (suc level) m parts h is))))

    dump_items-printed :
        (level : ℕ) (xs : Items) (parts : List String)
        → no_numbers_items xs ≡ true
        → dump_items true sort_keys dump_float level xs ≡ some parts
        → all_printed parts ≡ true
    dump_items-printed level Items.nil parts h e =
        subst (λ l. all_printed l ≡ true) (some-eq e) refl
    dump_items-printed level (item x xs) parts h e =
        let (hx, hxs) = &&-true (no_numbers x) (no_numbers_items xs) h in
        let (s, is, e1) = bind_some (dump_at true sort_keys dump_float level x) _ e in
        let (more, are, e2) = bind_some (dump_items true sort_keys dump_float level xs) _ e1 in
        subst (λ l. all_printed l ≡ true) (some-eq e2)
          (rw (dump_at-printed level x s hx is) (dump_items-printed level xs more hxs are))

    dump_entries-printed :
        (level : ℕ) (m : Entries) (parts : List (String × String))
        → no_numbers_entries m ≡ true
        → dump_entries true sort_keys dump_float level m ≡ some parts
        → parts_printed parts ≡ true
    dump_entries-printed level Entries.end parts h e =
        subst (λ l. parts_printed l ≡ true) (some-eq e) refl
    dump_entries-printed level (entry k x m) parts h e =
        let (hx, hm) = &&-true (no_numbers x) (no_numbers_entries m) h in
        let (s, is, e1) = bind_some (dump_at true sort_keys dump_float level x) _ e in
        let (more, are, e2) = bind_some (dump_entries true sort_keys dump_float level m) _ e1 in
        subst (λ l. parts_printed l ≡ true) (some-eq e2)
          (rw (dump_at-printed level x s hx is) (dump_entries-printed level m more hm are))

dumped-printed :
    (dump_float : Float → String) (o : Option Json) (text : String)
    → Gives (λ x. no_numbers x ≡ true) o
    → dumped_schema dump_float o ≡ some text
    → printed text ≡ true
unfolding dumped_schema dumps printed
dumped-printed dump_float none text h e = absurd (cc)
dumped-printed dump_float (some schema) text h e =
    elim (Option-cases (dump_at true true dump_float 0 schema)) [
      | inl refused ↦
          let bad : ◌≡◌ {A = Option String} none (some text) = rw refused at e in absurd (cc)
      | inr (s, is) ↦
          let same : some (s ++ "\n") ≡ some text = rw is at e in
          subst (λ s. printed s ≡ true) (some-eq same)
            (printed-append s "\n" (dump_at-printed true dump_float 0 schema s (given h refl) is)
              refl)
    ]

-- The text of a schema that is rendered has no characters but line breaks and those from the space
-- to the tilde.
pub render_schema-printed :
    (dump_float : Float → String) (t : Ty) (schema_id text : String)
    → render_schema dump_float t schema_id ≡ some text
    → printed text ≡ true
unfolding render_schema
render_schema-printed dump_float t schema_id text h =
    dumped-printed dump_float (json_schema t schema_id) text (json_schema-no_numbers t schema_id) h
