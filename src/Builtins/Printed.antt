-- ===== src/Builtins/Printed.antt =====
-- The characters that `json.dumps` writes with `ensure_ascii`.
use Prim.Native.String.append
use Prim.Native.String.{[], ◌∷◌, ◌++◌}
use litharness_contracts.Prelude.{
  ℕ, zero, suc, ◌+◌, ◌-◌, ◌/◌, ◌%◌, Char, code, String, ◌≡◌, refl, Bool, true, false, ◌&&◌, ◌||◌,
  not, List, [], ◌∷◌, ltb, leb, ◌==◌, if◌then◌else◌, &&-true, all, arith,
}
use litharness_contracts.Builtins.Print.{digit_char, print_digits}
use litharness_contracts.Builtins.Dump.{
  hex_char, unicode_escape, ascii_escape, dump_char, dump_text_then, dump_text, new_line, separated,
  bracketed, members_of,
}

-- a line break, or a character from the space to the tilde
abbrev pub printed_char : Char → Bool
printed_char c = (code c == 10) || (leb 32 (code c) && ltb (code c) 127)

unfoldable pub printed : String → Bool
printed [] = true
printed (c ∷ s) = printed_char c && printed s

pub printed-append : (s t : String) → printed s ≡ true → printed t ≡ true → printed (s ++ t) ≡ true
unfolding printed
printed-append [] t hs ht = rw (append.nil t) ht
printed-append (c ∷ s) t hs ht =
    let (hc, hr) = &&-true (printed_char c) (printed s) hs in
    rw (append.cons c s t, hc) (printed-append s t hr ht)

if_printed :
    (c : Bool) (x y : String)
    → (c ≡ true → printed x ≡ true)
    → (c ≡ false → printed y ≡ true)
    → printed (if c then x else y) ≡ true
if_printed true x y f g = f refl
if_printed false x y f g = g refl

if_printed_char :
    (c : Bool) (x y : Char)
    → printed_char x ≡ true
    → printed_char y ≡ true
    → printed_char (if c then x else y) ≡ true
if_printed_char true x y hx hy = hx
if_printed_char false x y hx hy = hy

digit_char-printed : (n : ℕ) → printed_char (digit_char n) ≡ true
unfolding digit_char
digit_char-printed zero = refl
digit_char-printed (suc zero) = refl
digit_char-printed (suc (suc zero)) = refl
digit_char-printed (suc (suc (suc zero))) = refl
digit_char-printed (suc (suc (suc (suc zero)))) = refl
digit_char-printed (suc (suc (suc (suc (suc zero))))) = refl
digit_char-printed (suc (suc (suc (suc (suc (suc zero)))))) = refl
digit_char-printed (suc (suc (suc (suc (suc (suc (suc zero))))))) = refl
digit_char-printed (suc (suc (suc (suc (suc (suc (suc (suc zero)))))))) = refl
digit_char-printed (suc (suc (suc (suc (suc (suc (suc (suc (suc n))))))))) = refl

hex_char-printed : (n : ℕ) → printed_char (hex_char n) ≡ true
unfolding hex_char
hex_char-printed n = if_printed_char (ltb n 10) _ _ (digit_char-printed n) (
    if_printed_char (n == 10) _ _ refl (
      if_printed_char (n == 11) _ _ refl (
        if_printed_char (n == 12) _ _ refl
          (if_printed_char (n == 13) _ _ refl (if_printed_char (n == 14) _ _ refl refl)))))

print_digits-printed :
    (fuel n : ℕ) (rest : String) → printed rest ≡ true → printed (print_digits fuel n rest) ≡ true
unfolding print_digits printed
print_digits-printed zero n rest h = h
print_digits-printed (suc fuel) n rest h =
    if_printed (ltb n 10) _ _ (λ _. rw (digit_char-printed n) h)
      (λ _. print_digits-printed fuel (n / 10) _ (rw (digit_char-printed (n % 10)) h))

unicode_escape-printed :
    (n : ℕ) (rest : String) → printed rest ≡ true → printed (unicode_escape n rest) ≡ true
unfolding unicode_escape printed
unicode_escape-printed n rest h =
    printed-append "\\u"
      (hex_char (n / 4096)
        ∷ hex_char ((n / 256) % 16)
        ∷ hex_char ((n / 16) % 16)
        ∷ hex_char (n % 16)
        ∷ rest)
      refl
      (rw
        (
          hex_char-printed (n / 4096),
          hex_char-printed ((n / 256) % 16),
          hex_char-printed ((n / 16) % 16),
          hex_char-printed (n % 16),
        )
        h)

ascii_escape-printed :
    (n : ℕ) (rest : String) → printed rest ≡ true → printed (ascii_escape n rest) ≡ true
unfolding ascii_escape
ascii_escape-printed n rest h =
    if_printed (ltb n 65536) _ _ (λ _. unicode_escape-printed n rest h)
      (λ _.
        unicode_escape-printed (55296 + ((n - 65536) / 1024) % 1024) _
          (unicode_escape-printed (56320 + n % 1024) rest h))

dump_char-printed :
    (c : Char) (rest : String) → printed rest ≡ true → printed (dump_char true c rest) ≡ true
unfolding dump_char printed
dump_char-printed c rest h =
    let n = code c in
    if_printed (n == b'"') _ _ (λ _. printed-append "\\\"" rest refl h)
      λ _.
        if_printed (n == b'\\') _ _ (λ _. printed-append "\\\\" rest refl h)
          λ _.
            if_printed (n == b'\n') _ _ (λ _. printed-append "\\n" rest refl h)
              λ _.
                if_printed (n == b'\r') _ _ (λ _. printed-append "\\r" rest refl h)
                  λ _.
                    if_printed (n == b'\t') _ _ (λ _. printed-append "\\t" rest refl h)
                      λ _.
                        if_printed (n == 12) _ _ (λ _. printed-append "\\f" rest refl h)
                          λ _.
                            if_printed (n == 8) _ _ (λ _. printed-append "\\b" rest refl h)
                              λ _.
                                if_printed (ltb n 32) _ _ (λ _. unicode_escape-printed n rest h)
                                  λ high.
                                    if_printed (not (ltb n 127)) _ _
                                      (λ _. ascii_escape-printed n rest h)
                                      λ low.
                                        let kept : printed_char c ≡ true = ground arith in rw kept h

dump_text_then-printed :
    (s rest : String) → printed rest ≡ true → printed (dump_text_then true s rest) ≡ true
unfolding dump_text_then
dump_text_then-printed [] rest h = h
dump_text_then-printed (c ∷ s) rest h = dump_char-printed c _ (dump_text_then-printed s rest h)

pub dump_text-printed : (s : String) → printed (dump_text true s) ≡ true
unfolding dump_text printed
dump_text-printed s =
    printed-append "\"" (dump_text_then true s "\"") refl (dump_text_then-printed s "\"" refl)

new_line-printed : (level : ℕ) → printed (new_line level) ≡ true
unfolding new_line printed
new_line-printed zero = refl
new_line-printed (suc level) = printed-append (new_line level) "  " (new_line-printed level) refl

abbrev pub all_printed : List String → Bool
all_printed parts = all printed parts

separated-printed :
    (separator : String) (parts : List String)
    → printed separator ≡ true
    → all_printed parts ≡ true
    → printed (separated separator parts) ≡ true
unfolding printed
separated-printed separator [] h hs = refl
separated-printed separator (s ∷ parts) h hs =
    let (first, rest) = &&-true (printed s) (all_printed parts) hs in
    printed-append separator (s ++ separated separator parts) h (
      printed-append s (separated separator parts) first (separated-printed separator parts h rest))

pub bracketed-printed :
    (level : ℕ) (opening closing : String) (parts : List String)
    → printed opening ≡ true
    → printed closing ≡ true
    → all_printed parts ≡ true
    → printed (bracketed level opening closing parts) ≡ true
unfolding bracketed printed
bracketed-printed level opening closing [] ho hc hs = printed-append opening closing ho hc
bracketed-printed level opening closing (s ∷ parts) ho hc hs =
    let (first, rest) = &&-true (printed s) (all_printed parts) hs in
    let line = new_line (suc level) in
    let comma = "," ++ line in
    let more = separated comma parts in
    let close = new_line level ++ closing in
    let line_ok = new_line-printed (suc level) in
    printed-append opening (line ++ (s ++ (more ++ close))) ho (
      printed-append line (s ++ (more ++ close)) line_ok (
        printed-append s (more ++ close) first (
          printed-append more close
            (separated-printed comma parts (printed-append "," line refl line_ok) rest)
            (printed-append (new_line level) closing (new_line-printed level) hc))))

abbrev pub parts_printed : List (String × String) → Bool
parts_printed parts = all (λ p. printed p.1) parts

pub members_of-printed :
    (parts : List (String × String))
    → parts_printed parts ≡ true
    → all_printed (members_of true parts) ≡ true
unfolding printed
members_of-printed [] h = refl
members_of-printed ((k, s) ∷ parts) h =
    let (first, rest) = &&-true (printed s) (parts_printed parts) h in
    rw
      (printed-append (dump_text true k) (": " ++ s) (dump_text-printed k)
        (printed-append ": " s refl first))
      (members_of-printed parts rest)
