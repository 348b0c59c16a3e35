-- ===== src/Builtins/Containers.antt =====
-- How `json.loads` reads the values that `json.dumps` writes.
use Prim.Native.String.{◌∷◌ as push, ◌++◌ as join}
use litharness_contracts.Prelude.{
  ℕ, suc, Char, String, ◌≡◌, refl, ◌∙◌, ap, true, false, Option, none, some, List, [], ◌∷◌, ◌++◌,
  append_assoc, distinct,
}
use litharness_contracts.Json.{Json, Items, Entries, Float, item, entry}
use litharness_contracts.Schema.Generate.{put}
use litharness_contracts.Builtins.Dump.{bracketed, members_of, new_line, dump_text}
use litharness_contracts.Builtins.Lex.{
  Token, open_list, close_list, open_dict, close_dict, comma, colon, string, word, punctuates,
  outside, act,
}
use litharness_contracts.Builtins.Pieces.{
  Ends, Stands, Ends-Stands, dump_text-Ends, IsWord, word-Stands,
}
use litharness_contracts.Builtins.Bracketed.{
  Follow, no_more, one_more, empty-Stands, bracketed-Stands, member-Stands, inner_assoc,
}
use litharness_contracts.Builtins.Load.{
  Frame, list_frame, dict_frame, Place, value, first_item, after, restore, read_word, after_word,
  run,
}
use litharness_contracts.Builtins.Keys.{put_all, put_all-distinct, keys}

opening_list : act outside "[" ≡ punctuates open_list
unfolding act
opening_list = refl

closing_list : act outside "]" ≡ punctuates close_list
unfolding act
closing_list = refl

opening_dict : act outside "{" ≡ punctuates open_dict
unfolding act
opening_dict = refl

closing_dict : act outside "}" ≡ punctuates close_dict
unfolding act
closing_dict = refl

module _ (load_float : String → Option Float) where
  abbrev go_on : List Token → Option (List Frame × Place) → Option Json
  go_on ts none = none
  go_on ts (some (frames, place)) = run load_float frames place ts

  -- The text has tokens from which the reader reads `x`, wherever it waits for a value.
  abbrev pub Reads : String → Json → Type 0
  Reads text x =
      (ts : List Token) × Stands text ts
      × ((frames : List Frame) (rest : List Token)
          → run load_float frames value (ts ++ rest) ≡ run load_float frames (after x) rest)
      × ((frames : List Frame) (rest : List Token)
          → run load_float frames first_item (ts ++ rest)
            ≡ run load_float (list_frame Items.nil ∷ frames) value (ts ++ rest))

  pub word_Reads :
      (c : Char) (s : String) (x : Json)
      → IsWord (push c s)
      → read_word load_float (push c s) ≡ some x
      → Reads (push c s) x
  unfolding run
  word_Reads c s x h e = (
    word (push c s) ∷ [],
    word-Stands c s h,
    λ frames rest. ap (λ o. go_on rest (after_word load_float frames o)) e,
    λ frames rest. refl,
  )

  pub text_Reads : (s : String) → Reads (dump_text false s) (Json.str s)
  unfolding run
  text_Reads s = (
    string s ∷ [],
    Ends-Stands (dump_text false s) (string s ∷ []) (dump_text-Ends s),
    λ frames rest. refl,
    λ frames rest. refl,
  )

  -- The further items of a list, in front of its end.
  abbrev pub ReadsItems : String → List String → Items → Type 0
  ReadsItems line parts xs =
      (ts : List Token) × Follow line parts ts
      × ((acc : Items) (x : Json) (frames : List Frame) (rest : List Token)
          → run load_float (list_frame acc ∷ frames) (after x) (ts ++ (close_list ∷ rest))
            ≡ run load_float frames (after (Json.list (restore acc (item x xs)))) rest)

  pub no_items : (line : String) → ReadsItems line [] Items.nil
  unfolding run
  no_items line = ([], no_more line, λ acc x frames rest. refl)

  pub more_items :
      (line s : String) (parts : List String) (y : Json) (ys : Items)
      → Ends line []
      → Reads s y
      → ReadsItems line parts ys
      → ReadsItems line (s ∷ parts) (item y ys)
  unfolding run
  more_items line s parts y ys hl (ts, stands, reads, _) (us, ends, reads_more) = (
    comma ∷ (ts ++ us),
    one_more line s parts ts us hl stands ends,
    λ acc x frames rest.
        ap (run load_float (list_frame (item x acc) ∷ frames) value)
          (append_assoc ts us (close_list ∷ rest))
        ∙ reads (list_frame (item x acc) ∷ frames) (us ++ (close_list ∷ rest))
        ∙ reads_more (item x acc) y frames rest,
  )

  pub empty_list : (level : ℕ) → Reads (bracketed level "[" "]" []) (Json.list Items.nil)
  unfolding run
  empty_list level = (
    open_list ∷ close_list ∷ [],
    empty-Stands level "[" "]" open_list close_list opening_list closing_list,
    λ frames rest. refl,
    λ frames rest. refl,
  )

  pub list_Reads :
      (level : ℕ) (s : String) (parts : List String) (x : Json) (xs : Items)
      → Reads s x
      → ReadsItems (new_line (suc level)) parts xs
      → Reads (bracketed level "[" "]" (s ∷ parts)) (Json.list (item x xs))
  unfolding run
  list_Reads level s parts x xs (ts, stands, reads, first) (us, ends, reads_more) = (
    open_list ∷ (ts ++ (us ++ (close_list ∷ []))),
    bracketed-Stands level "[" "]" open_list close_list opening_list closing_list s parts ts us
        stands ends,
    λ frames rest.
        ap (run load_float frames first_item) (inner_assoc ts us close_list rest)
        ∙ first frames (us ++ (close_list ∷ rest))
        ∙ reads (list_frame Items.nil ∷ frames) (us ++ (close_list ∷ rest))
        ∙ reads_more Items.nil x frames rest,
    λ frames rest. refl,
  )

  -- The further pairs of an object, in front of its end.
  abbrev pub ReadsEntries : String → List (String × String) → Entries → Type 0
  ReadsEntries line parts m =
      (ts : List Token) × Follow line (members_of false parts) ts
      × ((acc : Entries) (k : String) (x : Json) (frames : List Frame) (rest : List Token)
          → run load_float (dict_frame acc k ∷ frames) (after x) (ts ++ (close_dict ∷ rest))
            ≡ run load_float frames (after (Json.dict (put_all (put k x acc) m))) rest)

  pub no_entries : (line : String) → ReadsEntries line [] Entries.end
  unfolding run
  no_entries line = ([], no_more line, λ acc k x frames rest. refl)

  pub more_entries :
      (line k s : String) (parts : List (String × String)) (x : Json) (m : Entries)
      → Ends line []
      → Reads s x
      → ReadsEntries line parts m
      → ReadsEntries line ((k, s) ∷ parts) (entry k x m)
  unfolding run
  more_entries line k s parts x m hl (ts, stands, reads, _) (us, ends, reads_more) = (
    comma ∷ ((string k ∷ colon ∷ ts) ++ us),
    one_more line (join (dump_text false k) (join ": " s)) (members_of false parts)
        (string k ∷ colon ∷ ts) us hl (member-Stands k s ts stands) ends,
    λ acc j y frames rest.
        ap (run load_float (dict_frame (put j y acc) k ∷ frames) value)
          (append_assoc ts us (close_dict ∷ rest))
        ∙ reads (dict_frame (put j y acc) k ∷ frames) (us ++ (close_dict ∷ rest))
        ∙ reads_more (put j y acc) k x frames rest,
  )

  pub empty_dict : (level : ℕ) → Reads (bracketed level "{" "}" []) (Json.dict Entries.end)
  unfolding run
  empty_dict level = (
    open_dict ∷ close_dict ∷ [],
    empty-Stands level "{" "}" open_dict close_dict opening_dict closing_dict,
    λ frames rest. refl,
    λ frames rest. refl,
  )

  pub dict_Reads :
      (level : ℕ) (k s : String) (parts : List (String × String)) (x : Json) (m : Entries)
      → distinct (keys (entry k x m)) ≡ true
      → Reads s x
      → ReadsEntries (new_line (suc level)) parts m
      → Reads
          (bracketed level "{" "}" (members_of false ((k, s) ∷ parts)))
          (Json.dict (entry k x m))
  unfolding run
  dict_Reads level k s parts x m apart (ts, stands, reads, _) (us, ends, reads_more) = (
    open_dict ∷ ((string k ∷ colon ∷ ts) ++ (us ++ (close_dict ∷ []))),
    bracketed-Stands level "{" "}" open_dict close_dict opening_dict closing_dict
        (join (dump_text false k) (join ": " s)) (members_of false parts) (string k ∷ colon ∷ ts) us
        (member-Stands k s ts stands) ends,
    λ frames rest.
        ap (run load_float (dict_frame Entries.end k ∷ frames) value)
          (inner_assoc ts us close_dict rest)
        ∙ reads (dict_frame Entries.end k ∷ frames) (us ++ (close_dict ∷ rest))
        ∙ reads_more Entries.end k x frames rest
        ∙ ap (λ l. run load_float frames (after (Json.dict l)) rest)
            (put_all-distinct (entry k x m) apart),
    λ frames rest. refl,
  )
