-- ===== src/Builtins/Printable.antt =====
-- Data that `json.dumps` always prints.
use litharness_contracts.Prelude.{
  ℕ, suc, String, ◌≡◌, refl, Bool, true, false, ◌&&◌, some, List, [], ◌∷◌, &&-true,
}
use litharness_contracts.Json.{Json, Items, Entries, item, entry, Float}
use litharness_contracts.Builtins.Dump.{
  dump_at, dump_items, dump_entries, bracketed, members_of, in_order,
}

-- no ints and no floats
unfoldable mutual
  pub no_numbers : Json → Bool
  no_numbers (Json.int n) = false
  no_numbers (Json.float x) = false
  no_numbers (Json.list xs) = no_numbers_items xs
  no_numbers (Json.dict m) = no_numbers_entries m
  no_numbers _ = true

  pub no_numbers_items : Items → Bool
  no_numbers_items Items.nil = true
  no_numbers_items (item x xs) = no_numbers x && no_numbers_items xs

  pub no_numbers_entries : Entries → Bool
  no_numbers_entries Entries.end = true
  no_numbers_entries (entry k x m) = no_numbers x && no_numbers_entries m

module _ (ensure_ascii sort_keys : Bool) (dump_float : Float → String) where
  mutual
    unfolding no_numbers dump_at

    -- Data without numbers is printed.
    pub dump_at-no_numbers :
        (level : ℕ) (x : Json)
        → no_numbers x ≡ true
        → (text : String) × (dump_at ensure_ascii sort_keys dump_float level x ≡ some text)
    dump_at-no_numbers level Json.null h = (_, refl)
    dump_at-no_numbers level (Json.bool true) h = (_, refl)
    dump_at-no_numbers level (Json.bool false) h = (_, refl)
    dump_at-no_numbers level (Json.int n) h = absurd (cc)
    dump_at-no_numbers level (Json.float x) h = absurd (cc)
    dump_at-no_numbers level (Json.str s) h = (_, refl)
    dump_at-no_numbers level (Json.list xs) h =
        let (parts, e) = dump_items-no_numbers (suc level) xs h in
        (bracketed level "[" "]" parts, rw e refl)
    dump_at-no_numbers level (Json.dict m) h =
        let (parts, e) = dump_entries-no_numbers (suc level) m h in
        (bracketed level "{" "}" (members_of ensure_ascii (in_order sort_keys parts)), rw e refl)

    dump_items-no_numbers :
        (level : ℕ) (xs : Items)
        → no_numbers_items xs ≡ true
        → (parts : List String) × (dump_items ensure_ascii sort_keys dump_float level xs
            ≡ some parts)
    dump_items-no_numbers level Items.nil h = ([], refl)
    dump_items-no_numbers level (item x xs) h =
        let (hx, hxs) = &&-true (no_numbers x) (no_numbers_items xs) h in
        let (text, e) = dump_at-no_numbers level x hx in
        let (parts, es) = dump_items-no_numbers level xs hxs in (text ∷ parts, rw (e, es) refl)

    dump_entries-no_numbers :
        (level : ℕ) (m : Entries)
        → no_numbers_entries m ≡ true
        → (parts : List (String × String)) × (dump_entries ensure_ascii sort_keys dump_float level m
            ≡ some parts)
    dump_entries-no_numbers level Entries.end h = ([], refl)
    dump_entries-no_numbers level (entry k x m) h =
        let (hx, hm) = &&-true (no_numbers x) (no_numbers_entries m) h in
        let (text, e) = dump_at-no_numbers level x hx in
        let (parts, es) = dump_entries-no_numbers level m hm in ((k, text) ∷ parts, rw (e, es) refl)
