-- ===== src/Builtins/Loaded.antt =====
-- What `json.loads` reads of what `json.dumps` writes.
use Prim.Native.String.{[] as empty, ◌∷◌ as push, ◌++◌ as join}
use litharness_contracts.Prelude.{
  ℕ, suc, String, ◌≡◌, refl, subst, ◌∙◌, ap, true, false, Option, none, some, List, [], str_eq,
  &&-true, some-eq, distinct,
}
use litharness_contracts.Prelude.Int.{ℤ}
use litharness_contracts.Json.{Json, Items, Entries, Float, item, entry}
use litharness_contracts.Builtins.Dump.{
  ◌>>=◌, dump_at, dump_items, dump_entries, dumps, bracketed, members_of, new_line,
}
use litharness_contracts.Builtins.Lex.{act, outside, lex}
use litharness_contracts.Builtins.Pieces.{new_line-Ends, IsWord}
use litharness_contracts.Builtins.Load.{read_word, run, run_tokens, loads, is_int}
use litharness_contracts.Builtins.Numbers.{Read, print_int-Read}
use litharness_contracts.Builtins.Keys.{
  keys, is_number, unambiguous, unambiguous_items, unambiguous_entries,
}
use litharness_contracts.Builtins.Containers.{
  Reads, ReadsItems, ReadsEntries, word_Reads, text_Reads, no_items, more_items, empty_list,
  list_Reads, no_entries, more_entries, empty_dict, dict_Reads,
}

bind_some :
    {A B : Type 0} (o : Option A) (next : A → Option B) (b : B)
    → (o >>= next) ≡ some b
    → (a : A) × (o ≡ some a) × (next a ≡ some b)
bind_some none next b h = absurd (cc)
bind_some (some a) next b h = (a, refl, h)

-- The text of a float: a word that is no int and no constant.
abbrev pub IsFloatText : String → Type 0
IsFloatText s =
    IsWord s
    × (is_int s ≡ false)
    × (str_eq s "null" ≡ false)
    × (str_eq s "true" ≡ false)
    × (str_eq s "false" ≡ false)

module _ (dump_float : Float → String) (load_float : String → Option Float) where
  -- What is documented of floats: the text of a float that is not NaN reads back as the float, and
  -- nothing is no float.
  abbrev pub FloatsBack : Type 0
  FloatsBack =
      (load_float "" ≡ none)
      × ((x : Float)
          → is_number x ≡ true
          → IsFloatText (dump_float x) × (load_float (dump_float x) ≡ some x))

  read_word-float :
      (s : String) (x : Float)
      → IsFloatText s
      → load_float s ≡ some x
      → read_word load_float s ≡ some (Json.float x)
  unfolding read_word
  read_word-float s x (_, h, h1, h2, h3) e = rw (h, h1, h2, h3, e) refl

  float_Reads :
      (s : String) (x : Float)
      → load_float "" ≡ none
      → IsFloatText s
      → load_float s ≡ some x
      → Reads load_float s (Json.float x)
  float_Reads empty x nothing h e = absurd (cc)
  float_Reads (push c s) x nothing h e =
      word_Reads load_float c s (Json.float x) h.0 (read_word-float (push c s) x h e)

  int_word : (s : String) (n : ℤ) → Read load_float n s → Reads load_float s (Json.int n)
  int_word empty n (h, _, _) = absurd (cc)
  int_word (push c s) n (_, h, e) = word_Reads load_float c s (Json.int n) h e

  null_Reads : Reads load_float "null" Json.null
  unfolding read_word act
  null_Reads = word_Reads load_float "n" "ull" Json.null (refl, (refl, (refl, (refl, tt)))) refl

  true_Reads : Reads load_float "true" (Json.bool true)
  unfolding read_word act
  true_Reads =
      word_Reads load_float "t" "rue" (Json.bool true) (refl, (refl, (refl, (refl, tt)))) refl

  false_Reads : Reads load_float "false" (Json.bool false)
  unfolding read_word act
  false_Reads =
      word_Reads load_float "f" "alse" (Json.bool false) (refl, (refl, (refl, (refl, (refl, tt)))))
        refl

  module _ (floats : FloatsBack) where
    mutual
      unfolding dump_at unambiguous

      dump_at-Reads :
          (level : ℕ) (x : Json) (text : String)
          → unambiguous x ≡ true
          → dump_at false false dump_float level x ≡ some text
          → Reads load_float text x
      dump_at-Reads level Json.null text h e =
          subst (λ s. Reads load_float s Json.null) (some-eq e) null_Reads
      dump_at-Reads level (Json.bool true) text h e =
          subst (λ s. Reads load_float s (Json.bool true)) (some-eq e) true_Reads
      dump_at-Reads level (Json.bool false) text h e =
          subst (λ s. Reads load_float s (Json.bool false)) (some-eq e) false_Reads
      dump_at-Reads level (Json.int n) text h e =
          int_word text n (print_int-Read load_float n text e)
      dump_at-Reads level (Json.float x) text h e =
          let (is, back) = floats.1 x h in
          subst (λ s. Reads load_float s (Json.float x)) (some-eq e)
            (float_Reads (dump_float x) x floats.0 is back)
      dump_at-Reads level (Json.str s) text h e =
          subst (λ t. Reads load_float t (Json.str s)) (some-eq e) (text_Reads load_float s)
      dump_at-Reads level (Json.list Items.nil) text h e =
          subst (λ t. Reads load_float t (Json.list Items.nil)) (some-eq e)
            (empty_list load_float level)
      dump_at-Reads level (Json.list (item x xs)) text h e =
          let (hx, hxs) = &&-true (unambiguous x) (unambiguous_items xs) h in
          let (parts, ep, e1) =
            bind_some (dump_items false false dump_float (suc level) (item x xs)) _ text e in
          let (s, es, e2) = bind_some (dump_at false false dump_float (suc level) x) _ parts ep in
          let (more, em, e3) =
            bind_some (dump_items false false dump_float (suc level) xs) _ parts e2 in
          subst (λ t. Reads load_float t (Json.list (item x xs)))
            (ap (bracketed level "[" "]") (some-eq e3) ∙ some-eq e1)
            (list_Reads load_float level s more x xs (dump_at-Reads (suc level) x s hx es)
              (dump_items-Reads level xs more hxs em))
      dump_at-Reads level (Json.dict Entries.end) text h e =
          subst (λ t. Reads load_float t (Json.dict Entries.end)) (some-eq e)
            (empty_dict load_float level)
      dump_at-Reads level (Json.dict (entry k x m)) text h e =
          let (apart, each) =
            &&-true (distinct (keys (entry k x m))) (unambiguous_entries (entry k x m)) h in
          let (hx, hm) = &&-true (unambiguous x) (unambiguous_entries m) each in
          let (parts, ep, e1) =
            bind_some (dump_entries false false dump_float (suc level) (entry k x m)) _ text e in
          let (s, es, e2) = bind_some (dump_at false false dump_float (suc level) x) _ parts ep in
          let (more, em, e3) =
            bind_some (dump_entries false false dump_float (suc level) m) _ parts e2 in
          subst (λ t. Reads load_float t (Json.dict (entry k x m)))
            (ap (λ ps. bracketed level "{" "}" (members_of false ps)) (some-eq e3) ∙ some-eq e1)
            (dict_Reads load_float level k s more x m apart (dump_at-Reads (suc level) x s hx es)
              (dump_entries-Reads level m more hm em))

      dump_items-Reads :
          (level : ℕ) (xs : Items) (parts : List String)
          → unambiguous_items xs ≡ true
          → dump_items false false dump_float (suc level) xs ≡ some parts
          → ReadsItems load_float (new_line (suc level)) parts xs
      dump_items-Reads level Items.nil parts h e =
          subst (λ ps. ReadsItems load_float (new_line (suc level)) ps Items.nil) (some-eq e)
            (no_items load_float (new_line (suc level)))
      dump_items-Reads level (item x xs) parts h e =
          let (hx, hxs) = &&-true (unambiguous x) (unambiguous_items xs) h in
          let (s, es, e2) = bind_some (dump_at false false dump_float (suc level) x) _ parts e in
          let (more, em, e3) =
            bind_some (dump_items false false dump_float (suc level) xs) _ parts e2 in
          subst (λ ps. ReadsItems load_float (new_line (suc level)) ps (item x xs)) (some-eq e3)
            (more_items load_float (new_line (suc level)) s more x xs (new_line-Ends (suc level))
              (dump_at-Reads (suc level) x s hx es) (dump_items-Reads level xs more hxs em))

      dump_entries-Reads :
          (level : ℕ) (m : Entries) (parts : List (String × String))
          → unambiguous_entries m ≡ true
          → dump_entries false false dump_float (suc level) m ≡ some parts
          → ReadsEntries load_float (new_line (suc level)) parts m
      dump_entries-Reads level Entries.end parts h e =
          subst (λ ps. ReadsEntries load_float (new_line (suc level)) ps Entries.end) (some-eq e)
            (no_entries load_float (new_line (suc level)))
      dump_entries-Reads level (entry k x m) parts h e =
          let (hx, hm) = &&-true (unambiguous x) (unambiguous_entries m) h in
          let (s, es, e2) = bind_some (dump_at false false dump_float (suc level) x) _ parts e in
          let (more, em, e3) =
            bind_some (dump_entries false false dump_float (suc level) m) _ parts e2 in
          subst (λ ps. ReadsEntries load_float (new_line (suc level)) ps (entry k x m)) (some-eq e3)
            (more_entries load_float (new_line (suc level)) k s more x m (new_line-Ends (suc level))
              (dump_at-Reads (suc level) x s hx es) (dump_entries-Reads level m more hm em))

    -- With blank text behind it.
    pub loads-dumps :
        (x : Json) (text rest : String)
        → unambiguous x ≡ true
        → dumps false false dump_float x ≡ some text
        → lex outside rest ≡ some (empty, [])
        → loads load_float (join text rest) ≡ some x
    unfolding dumps loads run
    loads-dumps x text rest h e blank =
        let (ts, stands, reads, _) = dump_at-Reads 0 x text h e in
        ap (run_tokens load_float) (stands rest [] blank) ∙ reads [] []
