-- ===== src/Builtins/Load.antt =====
-- `json.loads`, as the constructor of `FixtureBuilder` (src/litharness_contracts/fixture_build.py)
-- calls it. The reader keeps the lists and objects that it stands in, the innermost first. What float
-- the text of a number denotes is a parameter.
use litharness_contracts.Prelude.{
  ℕ, String, Bool, true, false, ◌&&◌, Option, none, some, List, [], ◌∷◌, all, leb, ◌==◌, str_eq,
  if◌then◌else◌,
}
use litharness_contracts.Prelude.Int.{ℤ}
use litharness_contracts.Json.{Json, Items, Entries, Float, item}
use litharness_contracts.Schema.Generate.{put}
use litharness_contracts.Builtins.Parse.{codes, parse_ascii}
use litharness_contracts.Builtins.Lex.{
  Token, open_list, close_list, open_dict, close_dict, comma, colon, string, word, tokens,
}

abbrev pub is_digit : ℕ → Bool
is_digit n = leb b'0' n && leb n b'9'

-- no digits, or further digits
abbrev zero_alone : List ℕ → Bool
zero_alone [] = true
zero_alone (d ∷ ds) = false

abbrev pub is_whole : List ℕ → Bool
is_whole [] = false
is_whole (d ∷ ds) = if d == b'0' then zero_alone ds else is_digit d && all is_digit ds

abbrev pub is_signed : List ℕ → Bool
is_signed [] = false
is_signed (c ∷ cs) = if c == b'-' then is_whole cs else is_whole (c ∷ cs)

-- The text of an int in JSON: a sign, and decimal digits without a zero in front.
abbrev pub is_int : String → Bool
is_int s = is_signed (codes s)

abbrev int_read : Option ℤ → Option Json
int_read none = none
int_read (some n) = some (Json.int n)

abbrev pub float_read : Option Float → Option Json
float_read none = none
float_read (some x) = some (Json.float x)

-- A list with what it holds so far, the last first; an object with its pairs so far, and the key whose
-- value is read.
pub data Frame : Type 0 where
  list_frame : Items → Frame
  dict_frame : Entries → String → Frame

-- Where the reader stands: before a value, behind the bracket of a list or an object, before a further
-- key, behind a key, or behind a value.
pub data Place : Type 0 where
  value first_item first_key : Place
  key : Entries → Place
  after_key : Entries → String → Place
  after : Json → Place

-- The items of a list in front of others.
abbrev pub restore : Items → Items → Items
restore Items.nil xs = xs
restore (item x acc) xs = restore acc (item x xs)

module _ (load_float : String → Option Float) where
  unfoldable pub read_word : String → Option Json
  read_word s =
      if is_int s
      then int_read (parse_ascii s)
      else if str_eq s "null"
      then some Json.null
      else if str_eq s "true"
      then some (Json.bool true)
      else if str_eq s "false"
      then some (Json.bool false)
      else float_read (load_float s)

  abbrev pub after_word : List Frame → Option Json → Option (List Frame × Place)
  after_word frames none = none
  after_word frames (some x) = some (frames, after x)

  abbrev begin : List Frame → Token → Option (List Frame × Place)
  begin frames open_list = some (frames, first_item)
  begin frames open_dict = some (frames, first_key)
  begin frames (string s) = some (frames, after (Json.str s))
  begin frames (word s) = after_word frames (read_word s)
  begin frames close_list = none
  begin frames close_dict = none
  begin frames comma = none
  begin frames colon = none

  abbrev close : List Frame → Json → Token → Option (List Frame × Place)
  close (list_frame acc ∷ frames) x comma = some (list_frame (item x acc) ∷ frames, value)
  close (list_frame acc ∷ frames) x close_list =
      some (frames, after (Json.list (restore acc (item x Items.nil))))
  close (dict_frame m k ∷ frames) x comma = some (frames, key (put k x m))
  close (dict_frame m k ∷ frames) x close_dict = some (frames, after (Json.dict (put k x m)))
  close frames x t = none

  unfoldable pub step : List Frame → Place → Token → Option (List Frame × Place)
  unfolding read_word put
  step frames value t = begin frames t
  step frames first_item close_list = some (frames, after (Json.list Items.nil))
  step frames first_item t = begin (list_frame Items.nil ∷ frames) t
  step frames first_key close_dict = some (frames, after (Json.dict Entries.end))
  step frames first_key (string k) = some (frames, after_key Entries.end k)
  step frames first_key t = none
  step frames (key m) (string k) = some (frames, after_key m k)
  step frames (key m) t = none
  step frames (after_key m k) colon = some (dict_frame m k ∷ frames, value)
  step frames (after_key m k) t = none
  step frames (after x) t = close frames x t

  unfoldable pub run : List Frame → Place → List Token → Option Json
  unfolding step
  run [] (after x) [] = some x
  run frames place [] = none
  run frames place (t ∷ ts) = elim (step frames place t) [
    | none ↦ none
    | some (deeper, next) ↦ run deeper next ts
  ]

  abbrev pub run_tokens : Option (List Token) → Option Json
  run_tokens none = none
  run_tokens (some ts) = run [] value ts

  -- none is a `ValueError`
  unfoldable pub loads : String → Option Json
  unfolding run tokens
  loads s = run_tokens (tokens s)
