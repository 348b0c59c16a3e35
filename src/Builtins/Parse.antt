-- ===== src/Builtins/Parse.antt =====
-- `s.split(".")[0]`, and `int(s)` of an ASCII text: spaces around, a sign, and decimal digits with
-- single underscores between them, up to the interpreter's limit of 4300 digits.
use Prim.Native.String.{[] as empty, ◌∷◌ as push}
use litharness_contracts.Prelude.{
  ℕ, suc, ◌+◌, ◌-◌, ◌*◌, code, String, ◌≡◌, refl, Bool, true, false, ◌&&◌, ◌||◌, Option, none, some,
  List, [], ◌∷◌, all, leb, ltb, ◌==◌, if◌then◌else◌,
}
use litharness_contracts.Prelude.Int.{ℤ, pos, negate}
use litharness_contracts.Builtins.Print.{max_digits}

abbrev pub codes : String → List ℕ
codes empty = []
codes (push c s) = code c ∷ codes s

unfoldable pub before_dot : String → String
before_dot empty = empty
before_dot (push c s) = if code c == b'.' then empty else push c (before_dot s)

abbrev pub is_ascii : String → Bool
is_ascii s = all (λ c. ltb c 128) (codes s)

-- The spaces that `int` strips of an ASCII text: tab to carriage return, and the blank.
abbrev pub is_space : ℕ → Bool
is_space c = (leb 9 c && leb c 13) || c == 32

pub data CharClass : Type 0 where
  digit : ℕ → CharClass
  underscore space bad : CharClass

unfoldable pub classify : ℕ → CharClass
classify c =
    if leb b'0' c && leb c b'9'
    then digit (c - b'0')
    else if c == b'_'
    then underscore
    else if is_space c
    then space
    else bad

unfoldable pub finish : ℕ → ℕ → Bool → Option ℕ
unfolding max_digits
finish acc count after_digit = if after_digit && leb count max_digits then some acc else none

-- The digits from the left: their value, their count, and whether the last character was one.
unfoldable pub parse_digits : ℕ → ℕ → Bool → List ℕ → Option ℕ
unfolding classify finish
parse_digits acc count after_digit [] = finish acc count after_digit
parse_digits acc count after_digit (c ∷ cs) = elim (classify c) [
  | digit d ↦ parse_digits (acc * 10 + d) (suc count) true cs
  | underscore ↦ elim after_digit [ true ↦ parse_digits acc count false cs | false ↦ none ]
  | space ↦ if all is_space cs then finish acc count after_digit else none
  | bad ↦ none
]

unfoldable pub signed : (ℕ → ℤ) → Option ℕ → Option ℤ
signed sign none = none
signed sign (some n) = some (sign n)

unfoldable pub parse_sign : List ℕ → Option ℤ
unfolding parse_digits signed
parse_sign [] = none
parse_sign (c ∷ cs) =
    if c == b'-'
    then signed negate (parse_digits 0 0 false cs)
    else if c == b'+'
    then signed pos (parse_digits 0 0 false cs)
    else signed pos (parse_digits 0 0 false (c ∷ cs))

unfoldable pub strip_left : List ℕ → List ℕ
strip_left [] = []
strip_left (c ∷ cs) = let rest = strip_left cs in if is_space c then rest else c ∷ cs

unfoldable pub parse_ascii : String → Option ℤ
parse_ascii s = parse_sign (strip_left (codes s))

parses : parse_ascii " +1_204\n" ≡ some (pos 1204)
unfolding parse_ascii parse_sign strip_left
parses = refl

refuses : parse_ascii "1__2" ≡ none
unfolding parse_ascii parse_sign strip_left
refuses = refl

splits : before_dot "1.2.0" ≡ "1"
unfolding before_dot
splits = refl
