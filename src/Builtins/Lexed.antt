-- ===== src/Builtins/Lexed.antt =====
-- The tokens of the pieces that `json.dumps` writes, without `ensure_ascii`.
use Prim.Native.Char.{char}
use Prim.Native.String.{[] as empty, ◌∷◌ as push, ◌++◌ as join}
use text.Mathlib.TextLemmas.{nil-append, cons-append, append_assoc as join_assoc}
use text.Mathlib.TextEquality.{Char-path}
use litharness_contracts.Prelude.{
  ℕ, zero, suc, ◌+◌, ◌-◌, ◌*◌, ◌/◌, ◌%◌, ◌<◌, Char, code, String, ◌≡◌, refl, sym, subst, ◌∙◌, ap,
  Bool, true, false, none, some, inl, inr, ltb, leb, ◌==◌, if◌then◌else◌, Bool-cases, ltb→lt, arith,
}
use litharness_contracts.Builtins.Decimal.{code-digit_char}
use litharness_contracts.Builtins.Dump.{unicode_escape, hex_char, dump_char}
use litharness_contracts.Builtins.Lex.{
  Lexed, Mode, half, half_escape, outside, inside, escape, hex, act, lex, keep, char_of,
  char_of-code, hex_value, writes, goes,
}

-- `front` read inside a text is the characters `s`.
abbrev Writes : String → (Lexed → Lexed) → Type 0
Writes front f = (rest : String) → lex inside (join front rest) ≡ f (lex inside rest)

-- A character as it is dumped: a front of what follows, which reads as the character.
abbrev DumpsAs : (String → String) → Char → Type 0
DumpsAs dump c =
    (front : String) × ((rest : String) → dump rest ≡ join front rest) × Writes front (keep c)

if_dumped :
    (b : Bool) (x y : String → String) (c : Char)
    → (b ≡ true → DumpsAs x c)
    → (b ≡ false → DumpsAs y c)
    → DumpsAs (λ rest. if b then x rest else y rest) c
if_dumped true x y c f g = f refl
if_dumped false x y c f g = g refl

-- One character.
lex-writes :
    (c d : Char) (rest : String)
    → act inside c ≡ writes d
    → lex inside (push c rest) ≡ keep d (lex inside rest)
unfolding lex
lex-writes c d rest h = rw (lex, h) refl

lex-goes :
    (mode next : Mode) (c : Char) (rest : String)
    → act mode c ≡ goes next
    → lex mode (push c rest) ≡ lex next rest
unfolding lex
lex-goes outside next c rest h = rw (lex, h) refl
lex-goes inside next c rest h = rw (lex, h) refl
lex-goes escape next c rest h = rw (lex, h) refl
lex-goes (hex left n high) next c rest h = rw (lex, h) refl
lex-goes (half high) next c rest h = rw (lex, h) refl
lex-goes (half_escape high) next c rest h = rw (lex, h) refl

escape_writes :
    (c d : Char) (rest : String)
    → act escape c ≡ writes d
    → lex escape (push c rest) ≡ keep d (lex inside rest)
unfolding lex
escape_writes c d rest h = rw (lex, h) refl

hex_writes :
    (n : ℕ) (c d : Char) (rest : String)
    → act (hex 0 n none) c ≡ writes d
    → lex (hex 0 n none) (push c rest) ≡ keep d (lex inside rest)
unfolding lex
hex_writes n c d rest h = rw (lex, h) refl

backslash : act inside "\\" ≡ goes escape
unfolding act
backslash = refl

-- A backslash and a letter.
short_dumped :
    (c d : Char)
    → act escape d ≡ writes c
    → DumpsAs (λ rest. join (push "\\" (push d empty)) rest) c
short_dumped c d h = (
  push "\\" (push d empty),
  λ rest. refl,
  λ rest.
      rw (cons-append "\\" (push d empty) rest, cons-append d empty rest, nil-append rest)
        (lex-goes inside escape "\\" _ backslash ∙ escape_writes d c rest h),
)

letter_value : (e : ℕ) → e < 6 → hex_value (code (hex_char (10 + e))) ≡ some (10 + e)
unfolding hex_char
letter_value zero h = refl
letter_value (suc zero) h = refl
letter_value (suc (suc zero)) h = refl
letter_value (suc (suc (suc zero))) h = refl
letter_value (suc (suc (suc (suc zero)))) h = refl
letter_value (suc (suc (suc (suc (suc zero))))) h = refl
letter_value (suc (suc (suc (suc (suc (suc e)))))) h = absurd (omega arith)

hex_value-hex_char : (d : ℕ) → d < 16 → hex_value (code (hex_char d)) ≡ some d
unfolding hex_char
hex_value-hex_char d h = elim (Bool-cases (ltb d 10)) [
  | inl small ↦ rw (small, code-digit_char d (ltb→lt d 10 small)) (ground arith)
  | inr large ↦
      let high : d ≡ 10 + (d - 10) = ground arith in
      subst (λ n. hex_value (code (hex_char n)) ≡ some n) (sym high)
        (letter_value (d - 10) (ground arith))
]

-- A control character, by its code.
hex_digit_read :
    (left n d : ℕ) (rest : String)
    → d < 16
    → lex (hex (suc left) n none) (push (hex_char d) rest) ≡ lex (hex left (n * 16 + d) none) rest
hex_digit_read left n d rest h =
    lex-goes _ _ (hex_char d) rest (unfold act in rw (hex_value-hex_char d h) refl)

hex_done_act :
    (c : Char) (n d : ℕ)
    → d < 16
    → n * 16 + d ≡ code c
    → code c < 32
    → act (hex 0 n none) (hex_char d) ≡ writes c
unfolding act
hex_done_act c n d h sum small =
    let low : leb 55296 (code c) ≡ false = ground arith in
    rw (hex_value-hex_char d h, sum, low, char_of-code c) refl

escape_goes : act escape "u" ≡ goes (hex 3 0 none)
unfolding act
escape_goes = refl

code_read :
    (c : Char) (rest : String)
    → code c < 32
    → lex inside (unicode_escape (code c) rest) ≡ keep c (lex inside rest)
unfolding unicode_escape
code_read c rest h =
    let n = code c in
    rw (cons-append, cons-append, nil-append)
      (lex-goes inside escape "\\" _ backslash
        ∙ lex-goes escape (hex 3 0 none) "u" _ escape_goes
        ∙ hex_digit_read 2 0 (n / 4096) _ (omega arith)
        ∙ hex_digit_read 1 (0 * 16 + n / 4096) ((n / 256) % 16) _ (omega arith)
        ∙ hex_digit_read 0 ((0 * 16 + n / 4096) * 16 + (n / 256) % 16) ((n / 16) % 16) _
            (omega arith)
        ∙ hex_writes _ _ c rest (hex_done_act c _ (n % 16) (omega arith) (omega arith) h))

four_append :
    (a b c d : Char) (rest : String)
    → join (push a (push b (push c (push d empty)))) rest ≡ push a (push b (push c (push d rest)))
four_append a b c d rest =
    rw
      (
        cons-append a (push b (push c (push d empty))) rest,
        cons-append b (push c (push d empty)) rest,
        cons-append c (push d empty) rest,
        cons-append d empty rest,
        nil-append rest,
      )
      refl

unicode_escape-join :
    (n : ℕ) (rest : String) → unicode_escape n rest ≡ join (unicode_escape n empty) rest
unfolding unicode_escape
unicode_escape-join n rest =
    ap (join "\\u") (sym (four_append _ _ _ _ rest)) ∙ sym (join_assoc "\\u" _ rest)

code_dumped : (c : Char) → code c < 32 → DumpsAs (unicode_escape (code c)) c
code_dumped c h = (
  unicode_escape (code c) empty,
  unicode_escape-join (code c),
  λ rest. ap (lex inside) (sym (unicode_escape-join (code c) rest)) ∙ code_read c rest h,
)

pub push_append : (c : Char) (rest : String) → join (push c empty) rest ≡ push c rest
push_append c rest = cons-append c empty rest ∙ ap (push c) (nil-append rest)

-- A character that is kept.
self_dumped : (c : Char) → act inside c ≡ writes c → DumpsAs (push c) c
self_dumped c h = (
  push c empty,
  λ rest. sym (push_append c rest),
  λ rest. ap (lex inside) (push_append c rest) ∙ lex-writes c c rest h,
)

escaped :
    (c d e : Char)
    → (code c == code d) ≡ true
    → act escape e ≡ writes d
    → DumpsAs (λ rest. join (push "\\" (push e empty)) rest) c
escaped c d e same h =
    subst (DumpsAs (λ rest. join (push "\\" (push e empty)) rest)) (Char-path d c (ground arith))
      (short_dumped d e h)

pub dump_char-DumpsAs : (c : Char) → DumpsAs (dump_char false c) c
unfolding dump_char act char_of
dump_char-DumpsAs c =
    let n = code c in
    if_dumped (n == b'"') _ _ c (λ h. escaped c "\"" "\"" h refl)
      λ quote.
        if_dumped (n == b'\\') _ _ c (λ h. escaped c "\\" "\\" h refl)
          λ slash.
            if_dumped (n == b'\n') _ _ c (λ h. escaped c "\n" "n" h refl)
              λ _.
                if_dumped (n == b'\r') _ _ c (λ h. escaped c "\r" "r" h refl)
                  λ _.
                    if_dumped (n == b'\t') _ _ c (λ h. escaped c "\t" "t" h refl)
                      λ _.
                        if_dumped (n == 12) _ _ c (λ h. escaped c (char 12 tt) "f" h refl)
                          λ _.
                            if_dumped (n == 8) _ _ c (λ h. escaped c (char 8 tt) "b" h refl)
                              λ _.
                                if_dumped (ltb n 32) _ _ c
                                  (λ h. code_dumped c (ltb→lt (code c) 32 h))
                                  λ high. self_dumped c (rw (quote, slash, high) refl)
