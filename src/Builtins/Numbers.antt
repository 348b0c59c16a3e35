-- ===== src/Builtins/Numbers.antt =====
-- A printed int is a word, which reads as the int.
use Prim.Native.String.{[] as empty, ◌∷◌ as push}
use litharness_contracts.Prelude.{
  ℕ, zero, suc, ◌/◌, ◌%◌, ◌^◌, ◌<◌, code, String, ◌≡◌, refl, sym, subst, ◌∙◌, ap, Bool, true, false,
  Option, some, List, [], ◌∷◌, inl, inr, all, ltb, ◌==◌, Bool-cases, ltb→lt, arith, some-eq,
}
use litharness_contracts.Prelude.Int.{ℤ, pos, negsuc, negate}
use litharness_contracts.Json.{Json, Float}
use litharness_contracts.Builtins.Print.{
  max_digits, digit_char, print_digits, print_nat, print_int, print_sized,
}
use litharness_contracts.Builtins.Parse.{codes, parse_ascii, parse_sign, strip_left, signed}
use litharness_contracts.Builtins.Decimal.{
  code-digit_char, parse_digits-print_nat, parse_ascii-print_nat,
}
use litharness_contracts.Builtins.Lex.{outside, act, keeps}
use litharness_contracts.Builtins.Pieces.{IsWord}
use litharness_contracts.Builtins.Load.{is_digit, is_whole, is_signed, is_int, read_word}

digit_keeps : (d : ℕ) → d < 10 → act outside (digit_char d) ≡ keeps
unfolding act
digit_keeps d h = rw (code-digit_char d h) (ground arith)

print_digits-IsWord : (fuel n : ℕ) (s : String) → IsWord s → IsWord (print_digits fuel n s)
unfolding print_digits
print_digits-IsWord zero n s h = h
print_digits-IsWord (suc fuel) n s h = elim (Bool-cases (ltb n 10)) [
  | inl small ↦ rw small (digit_keeps n (ltb→lt n 10 small), h)
  | inr large ↦ rw large (
      print_digits-IsWord fuel (n / 10) (push (digit_char (n % 10)) s)
        (digit_keeps (n % 10) (omega arith), h))
]

abbrev all_digits : String → Bool
all_digits s = all is_digit (codes s)

digit_is_digit : (d : ℕ) → d < 10 → is_digit (code (digit_char d)) ≡ true
digit_is_digit d h = rw (code-digit_char d h) (ground arith)

print_digits-all :
    (fuel n : ℕ) (s : String) → all_digits s ≡ true → all_digits (print_digits fuel n s) ≡ true
unfolding print_digits
print_digits-all zero n s h = h
print_digits-all (suc fuel) n s h = elim (Bool-cases (ltb n 10)) [
  | inl small ↦ rw (small, digit_is_digit n (ltb→lt n 10 small)) h
  | inr large ↦ rw large (
      print_digits-all fuel (n / 10) (push (digit_char (n % 10)) s)
        (rw (digit_is_digit (n % 10) (omega arith)) h))
]

-- The first digit of a number above zero is not zero.
print_digits-first :
    (fuel n : ℕ) (s : String)
    → 0 < n
    → n < fuel
    → (d : ℕ) × (t : String) × (0 < d) × (d < 10) × (print_digits fuel n s ≡ push (digit_char d) t)
unfolding print_digits
print_digits-first zero n s n_pos h = absurd (omega arith)
print_digits-first (suc fuel) n s n_pos h = elim (Bool-cases (ltb n 10)) [
  | inl small ↦ (n, s, n_pos, ltb→lt n 10 small, rw small refl)
  | inr large ↦
      let (d, t, d_pos, hd, e) =
        print_digits-first fuel (n / 10) (push (digit_char (n % 10)) s) (ground arith)
          (ground arith) in
      (d, t, d_pos, hd, rw large e)
]

first_whole :
    (d : ℕ) (t : String)
    → 0 < d
    → d < 10
    → all_digits (push (digit_char d) t) ≡ true
    → is_whole (codes (push (digit_char d) t)) ≡ true
first_whole d t d_pos hd h =
    let other : (code (digit_char d) == 48) ≡ false = rw (code-digit_char d hd) (ground arith) in
    rw other h

zero_whole : is_whole (codes (print_nat 0)) ≡ true
unfolding print_nat print_digits
zero_whole = refl

print_nat-whole : (n : ℕ) → is_whole (codes (print_nat n)) ≡ true
unfolding print_nat
print_nat-whole zero = zero_whole
print_nat-whole (suc n) =
    let (d, t, d_pos, hd, e) =
      print_digits-first (suc (suc n)) (suc n) empty (omega arith) (omega arith) in
    let digits = print_digits-all (suc (suc n)) (suc n) empty refl in
    ap (λ s. is_whole (codes s)) e ∙ first_whole d t d_pos hd (ap all_digits (sym e) ∙ digits)

whole_signed : (cs : List ℕ) → is_whole cs ≡ true → is_signed cs ≡ true
whole_signed [] h = h
whole_signed (c ∷ cs) h = ground arith

pub print_nat-IsWord : (n : ℕ) → IsWord (print_nat n)
unfolding print_nat
print_nat-IsWord n = print_digits-IsWord (suc n) n empty tt

print_sized-fits :
    (n : ℕ) (t s : String) → print_sized n t ≡ some s → (n < 10 ^ max_digits) × (t ≡ s)
unfolding print_sized
print_sized-fits n t s h = elim (Bool-cases (ltb n (10 ^ max_digits))) [
  | inl small ↦ (ltb→lt n (10 ^ max_digits) small, some-eq (rw small at h))
  | inr large ↦ absurd (cc)
]

parse_ascii-negative :
    (n : ℕ) → suc n < 10 ^ max_digits → parse_ascii (push "-" (print_nat (suc n))) ≡ some (negsuc n)
unfolding parse_ascii print_nat parse_sign strip_left signed
parse_ascii-negative n h = ap (signed negate) (parse_digits-print_nat (suc n) h)

minus_keeps : act outside "-" ≡ keeps
unfolding act
minus_keeps = refl

module _ (load_float : String → Option Float) where
  read_word-int :
      (s : String) (n : ℤ)
      → is_int s ≡ true
      → parse_ascii s ≡ some n
      → read_word load_float s ≡ some (Json.int n)
  unfolding read_word
  read_word-int s n h parses = rw (h, parses) refl

  abbrev pub Read : ℤ → String → Type 0
  Read n s = (is_int s ≡ true) × IsWord s × (read_word load_float s ≡ some (Json.int n))

  pub print_int-Read : (n : ℤ) (s : String) → print_int n ≡ some s → Read n s
  unfolding print_int
  print_int-Read (pos n) s h =
      let (small, e) = print_sized-fits n (print_nat n) s h in
      subst (Read (pos n)) e (
        whole_signed (codes (print_nat n)) (print_nat-whole n),
        print_nat-IsWord n,
        read_word-int (print_nat n) (pos n) (whole_signed (codes (print_nat n)) (print_nat-whole n))
            (parse_ascii-print_nat n small),
      )
  print_int-Read (negsuc n) s h =
      let (small, e) = print_sized-fits (suc n) (push "-" (print_nat (suc n))) s h in
      subst (Read (negsuc n)) e (
        print_nat-whole (suc n),
        (minus_keeps, print_nat-IsWord (suc n)),
        read_word-int (push "-" (print_nat (suc n))) (negsuc n) (print_nat-whole (suc n))
            (parse_ascii-negative n small),
      )
