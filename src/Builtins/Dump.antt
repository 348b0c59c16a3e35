-- ===== src/Builtins/Dump.antt =====
-- `json.dumps` with `indent=2`, as `render_golden` (src/litharness_contracts/fixture_build.py) and
-- `render_schema` (src/litharness_contracts/_schema.py) call it.
use Prim.Native.String.{[], ◌∷◌, ◌++◌ as append}
use litharness_contracts.Prelude.{
  ℕ, zero, suc, ◌+◌, ◌-◌, ◌/◌, ◌%◌, Char, code, String, Bool, true, false, ◌&&◌, not, Option, none,
  some, List, [], ◌∷◌, ltb, ◌==◌, if◌then◌else◌,
}
use litharness_contracts.Json.{Json, Items, Entries, Float, item, entry}
use litharness_contracts.Builtins.Print.{digit_char, print_int}
use litharness_contracts.Builtins.Sorted.{sort_by_name}

-- none is the `ValueError` of an int with too many digits
infixl 5 ◌>>=◌
abbrev pub ◌>>=◌ : {S T : Type 0} → Option S → (S → Option T) → Option T
none >>= next = none
some value >>= next = next value

-- A hexadecimal digit, below sixteen.
unfoldable pub hex_char : ℕ → Char
unfolding digit_char
hex_char n =
    if ltb n 10
    then digit_char n
    else if n == 10
    then "a"
    else if n == 11
    then "b"
    else if n == 12
    then "c"
    else if n == 13
    then "d"
    else if n == 14
    then "e"
    else "f"

-- `"\\u{0:04x}".format(n)`
unfoldable pub unicode_escape : ℕ → String → String
unfolding hex_char
unicode_escape n rest = append "\\u" (
    hex_char (n / 4096)
    ∷ hex_char ((n / 256) % 16)
    ∷ hex_char ((n / 16) % 16)
    ∷ hex_char (n % 16)
    ∷ rest)

-- A character above U+FFFF is written as a pair of surrogates.
unfoldable pub ascii_escape : ℕ → String → String
unfolding unicode_escape
ascii_escape n rest =
    if ltb n 65536
    then unicode_escape n rest
    else unicode_escape (55296 + ((n - 65536) / 1024) % 1024)
        (unicode_escape (56320 + n % 1024) rest)

-- A character inside a text, in front of `rest`.
unfoldable pub dump_char : Bool → Char → String → String
unfolding unicode_escape ascii_escape
dump_char ensure_ascii c rest =
    let n = code c in
    if n == b'"'
    then append "\\\"" rest
    else if n == b'\\'
    then append "\\\\" rest
    else if n == b'\n'
    then append "\\n" rest
    else if n == b'\r'
    then append "\\r" rest
    else if n == b'\t'
    then append "\\t" rest
    else if n == 12
    then append "\\f" rest
    else if n == 8
    then append "\\b" rest
    else if ltb n 32
    then unicode_escape n rest
    else if ensure_ascii && not (ltb n 127)
    then ascii_escape n rest
    else c ∷ rest

unfoldable pub dump_text_then : Bool → String → String → String
unfolding dump_char
dump_text_then ensure_ascii [] rest = rest
dump_text_then ensure_ascii (c ∷ s) rest =
    dump_char ensure_ascii c (dump_text_then ensure_ascii s rest)

unfoldable pub dump_text : Bool → String → String
unfolding dump_text_then
dump_text ensure_ascii s = append "\"" (dump_text_then ensure_ascii s "\"")

-- A line break and the indentation of a level.
unfoldable pub new_line : ℕ → String
new_line zero = "\n"
new_line (suc level) = append (new_line level) "  "

abbrev pub separated : String → List String → String
separated separator [] = ""
separated separator (s ∷ parts) = append separator (append s (separated separator parts))

-- The parts of a list or an object on lines of their own, between brackets.
unfoldable pub bracketed : ℕ → String → String → List String → String
unfolding new_line
bracketed level opening closing [] = append opening closing
bracketed level opening closing (s ∷ parts) =
    let line = new_line (suc level) in
    append opening (
      append line
        (append s (append (separated (append "," line) parts) (append (new_line level) closing))))

abbrev pub members_of : Bool → List (String × String) → List String
members_of ensure_ascii [] = []
members_of ensure_ascii ((k, s) ∷ parts) =
    append (dump_text ensure_ascii k) (append ": " s) ∷ members_of ensure_ascii parts

abbrev pub in_order : Bool → List (String × String) → List (String × String)
in_order true parts = sort_by_name parts
in_order false parts = parts

-- The options `ensure_ascii` and `sort_keys`, and how json.dumps writes a float.
module _ (ensure_ascii sort_keys : Bool) (dump_float : Float → String) where
  unfoldable mutual
    pub dump_at : ℕ → Json → Option String
    dump_at level Json.null = some "null"
    dump_at level (Json.bool true) = some "true"
    dump_at level (Json.bool false) = some "false"
    dump_at level (Json.int n) = print_int n
    dump_at level (Json.float x) = some (dump_float x)
    dump_at level (Json.str s) = some (dump_text ensure_ascii s)
    dump_at level (Json.list xs) = do
      parts ← dump_items (suc level) xs
      some (bracketed level "[" "]" parts)
    dump_at level (Json.dict m) = do
      parts ← dump_entries (suc level) m
      some (bracketed level "{" "}" (members_of ensure_ascii (in_order sort_keys parts)))

    pub dump_items : ℕ → Items → Option (List String)
    dump_items level Items.nil = some []
    dump_items level (item x xs) = do
      s ← dump_at level x
      parts ← dump_items level xs
      some (s ∷ parts)

    pub dump_entries : ℕ → Entries → Option (List (String × String))
    dump_entries level Entries.end = some []
    dump_entries level (entry k x m) = do
      s ← dump_at level x
      parts ← dump_entries level m
      some ((k, s) ∷ parts)

  unfoldable pub dumps : Json → Option String
  unfolding dump_at
  dumps x = dump_at 0 x
