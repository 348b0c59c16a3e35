-- ===== src/Builtins/Lex.antt =====
-- The tokens of a JSON text, as `json.loads` reads it. A word is the characters between other tokens,
-- such as a number; an escaped surrogate without its other half, which a `String` cannot have, is
-- taken as an error.
use Prim.Native.Char.{char, IsLt}
use Prim.Native.Nat.{Ordering, compare}
use Prim.Native.String.{[] as empty, ◌∷◌ as push}
use litharness_contracts.Prelude.{
  ℕ, zero, suc, ◌+◌, ◌-◌, ◌*◌, Char, code, String, ◌≡◌, refl, Bool, ◌&&◌, ◌||◌, Option, none, some,
  List, [], ◌∷◌, ◌++◌, leb, ltb, ◌==◌, if◌then◌else◌,
}

-- The cases of `IsScalar`.
abbrev BothLt : Ordering → Ordering → Type 0
BothLt Ordering.lt o = IsLt o
BothLt Ordering.eq _ = ⊥
BothLt Ordering.gt _ = ⊥

abbrev Scalar : Ordering → Ordering → Ordering → Type 0
Scalar Ordering.lt _ _ = Unit
Scalar Ordering.eq o p = BothLt o p
Scalar Ordering.gt o p = BothLt o p

abbrev second_range : (o p : Ordering) → (BothLt o p → Char) → Option Char
second_range Ordering.lt Ordering.lt make = some (make tt)
second_range Ordering.lt Ordering.eq make = none
second_range Ordering.lt Ordering.gt make = none
second_range Ordering.eq p make = none
second_range Ordering.gt p make = none

abbrev in_range : (o p q : Ordering) → (Scalar o p q → Char) → Option Char
in_range Ordering.lt p q make = some (make tt)
in_range Ordering.eq p q make = second_range p q make
in_range Ordering.gt p q make = second_range p q make

-- `chr(n)`, of a number that is a character
unfoldable pub char_of : ℕ → Option Char
char_of n = in_range (compare n 55296) (compare 57343 n) (compare n 1114112) (char n)

second_range-made :
    (o p : Ordering) (make : BothLt o p → Char) (h : BothLt o p)
    → second_range o p make ≡ some (make h)
second_range-made Ordering.lt Ordering.lt make h = refl
second_range-made Ordering.lt Ordering.eq make h = absurd h
second_range-made Ordering.lt Ordering.gt make h = absurd h
second_range-made Ordering.eq p make h = absurd h
second_range-made Ordering.gt p make h = absurd h

in_range-made :
    (o p q : Ordering) (make : Scalar o p q → Char) (h : Scalar o p q)
    → in_range o p q make ≡ some (make h)
in_range-made Ordering.lt p q make h = refl
in_range-made Ordering.eq p q make h = second_range-made p q make h
in_range-made Ordering.gt p q make h = second_range-made p q make h

pub char_of-code : (c : Char) → char_of (code c) ≡ some c
unfolding char_of
char_of-code (char n h) =
    in_range-made (compare n 55296) (compare 57343 n) (compare n 1114112) (char n) h

pub data Token : Type 0 where
  open_list close_list open_dict close_dict comma colon : Token
  string word : String → Token

-- Where the reader stands: between tokens, in a text, behind a backslash, before the last of some
-- hexadecimal digits, or behind the first half of a pair of surrogates.
pub data Mode : Type 0 where
  outside inside escape : Mode
  hex : (left value : ℕ) → Option ℕ → Mode
  half half_escape : ℕ → Mode

-- What the reader does with a character.
pub data Action : Type 0 where
  rejects blank opens closes keeps : Action
  punctuates : Token → Action
  writes : Char → Action
  goes : Mode → Action

abbrev pub hex_value : ℕ → Option ℕ
hex_value n =
    if leb b'0' n && leb n b'9'
    then some (n - b'0')
    else if leb b'a' n && leb n b'f'
    then some (n - 87)
    else if leb b'A' n && leb n b'F'
    then some (n - 55)
    else none

abbrev written : Option Char → Action
written none = rejects
written (some c) = writes c

abbrev hex_done : ℕ → Option ℕ → Action
hex_done n none = if leb 55296 n && ltb n 56320 then goes (half n) else written (char_of n)
hex_done n (some high) =
    if leb 56320 n && ltb n 57344
    then written (char_of (65536 + (high - 55296) * 1024 + (n - 56320)))
    else rejects

abbrev after_hex : ℕ → ℕ → Option ℕ → Option ℕ → Action
after_hex left value high none = rejects
after_hex zero value high (some d) = hex_done (value * 16 + d) high
after_hex (suc left) value high (some d) = goes (hex left (value * 16 + d) high)

abbrev is_blank : ℕ → Bool
is_blank n = (n == b' ') || ((n == b'\t') || ((n == b'\n') || (n == b'\r')))

unfoldable pub act : Mode → Char → Action
unfolding char_of
act outside c =
    let n = code c in
    if n == b'"'
    then opens
    else if is_blank n
    then blank
    else if n == b'['
    then punctuates open_list
    else if n == b']'
    then punctuates close_list
    else if n == b'{'
    then punctuates open_dict
    else if n == b'}'
    then punctuates close_dict
    else if n == b','
    then punctuates comma
    else if n == b':'
    then punctuates colon
    else keeps
act inside c =
    let n = code c in
    if n == b'"'
    then closes
    else if n == b'\\'
    then goes escape
    else if ltb n 32
    then rejects
    else writes c
act escape c =
    let n = code c in
    if n == b'"'
    then writes "\""
    else if n == b'\\'
    then writes "\\"
    else if n == b'/'
    then writes "/"
    else if n == b'b'
    then written (char_of 8)
    else if n == b'f'
    then written (char_of 12)
    else if n == b'n'
    then writes "\n"
    else if n == b'r'
    then writes "\r"
    else if n == b't'
    then writes "\t"
    else if n == b'u'
    then goes (hex 3 0 none)
    else rejects
act (hex left value high) c = after_hex left value high (hex_value (code c))
act (half high) c = if code c == b'\\' then goes (half_escape high) else rejects
act (half_escape high) c = if code c == b'u' then goes (hex 3 0 (some high)) else rejects

-- The characters up to the end of the token in which the text begins, and the tokens behind it.
abbrev pub Lexed : Type 0
Lexed = Option (String × List Token)

abbrev pub end_word : String → List Token → List Token
end_word empty ts = ts
end_word (push c s) ts = word (push c s) ∷ ts

abbrev pub before : List Token → Lexed → Lexed
before front none = none
before front (some (s, ts)) = some (empty, front ++ end_word s ts)

abbrev pub keep : Char → Lexed → Lexed
keep c none = none
keep c (some (s, ts)) = some (push c s, ts)

abbrev pub begin_text : Lexed → Lexed
begin_text none = none
begin_text (some (s, ts)) = some (empty, string s ∷ ts)

unfoldable pub lex : Mode → String → Lexed
unfolding act
lex outside empty = some (empty, [])
lex inside empty = none
lex escape empty = none
lex (hex left value high) empty = none
lex (half high) empty = none
lex (half_escape high) empty = none
lex mode (push c s) = elim (act mode c) [
  | rejects ↦ none
  | blank ↦ before [] (lex outside s)
  | opens ↦ begin_text (lex inside s)
  | closes ↦ before [] (lex outside s)
  | keeps ↦ keep c (lex outside s)
  | punctuates t ↦ before (t ∷ []) (lex outside s)
  | writes d ↦ keep d (lex inside s)
  | goes next ↦ lex next s
]

abbrev pub tokens_of : Lexed → Option (List Token)
tokens_of none = none
tokens_of (some (s, ts)) = some (end_word s ts)

-- none is a `JSONDecodeError`
unfoldable pub tokens : String → Option (List Token)
unfolding lex
tokens s = tokens_of (lex outside s)
