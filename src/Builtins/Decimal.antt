-- ===== src/Builtins/Decimal.antt =====
-- The print of a number reads back, and holds no dot.
use Prim.Native.String.{[] as empty, ◌∷◌ as push, ◌++◌ as append}
use text.Mathlib.TextLemmas.{nil-append, cons-append}
use native.Mathlib.Nat.{pow-suc, zero-add}
use litharness_contracts.Prelude.{
  ℕ, zero, suc, ◌+◌, ◌*◌, ◌/◌, ◌%◌, ◌^◌, ◌≤◌, ◌<◌, code, String, ◌≡◌, refl, sym, ◌∙◌, ap, Bool,
  true, false, some, List, ◌∷◌, inl, inr, all, ltb, ◌==◌, if◌then◌else◌, Bool-cases, ltb→lt, arith,
  not,
}
use litharness_contracts.Prelude.Int.{pos}
use litharness_contracts.Builtins.Print.{max_digits, digit_char, print_digits, print_nat}
use litharness_contracts.Builtins.Parse.{
  codes, before_dot, is_ascii, digit, classify, finish, parse_digits, parse_sign, strip_left,
  parse_ascii, signed,
}

-- The codes of the digits.
pub code-digit_char : (d : ℕ) → d < 10 → code (digit_char d) ≡ d + 48
unfolding digit_char
code-digit_char zero h = refl
code-digit_char (suc zero) h = refl
code-digit_char (suc (suc zero)) h = refl
code-digit_char (suc (suc (suc zero))) h = refl
code-digit_char (suc (suc (suc (suc zero)))) h = refl
code-digit_char (suc (suc (suc (suc (suc zero))))) h = refl
code-digit_char (suc (suc (suc (suc (suc (suc zero)))))) h = refl
code-digit_char (suc (suc (suc (suc (suc (suc (suc zero))))))) h = refl
code-digit_char (suc (suc (suc (suc (suc (suc (suc (suc zero)))))))) h = refl
code-digit_char (suc (suc (suc (suc (suc (suc (suc (suc (suc zero))))))))) h = refl
code-digit_char (suc (suc (suc (suc (suc (suc (suc (suc (suc (suc n)))))))))) h =
    absurd (omega arith)

classify-digit : (d : ℕ) → d < 10 → classify (d + 48) ≡ digit d
unfolding classify
classify-digit d h = ground arith

parse_digits-digit :
    (acc count d : ℕ) (b : Bool) (cs : List ℕ)
    → d < 10
    → parse_digits acc count b (code (digit_char d) ∷ cs)
      ≡ parse_digits (acc * 10 + d) (suc count) true cs
unfolding parse_digits
parse_digits-digit acc count d b cs h =
    rw (code-digit_char d h, classify-digit d h, parse_digits) refl

-- How many digits `n` has, with the fuel of `print_digits`.
count_digits : ℕ → ℕ → ℕ
count_digits zero n = 0
count_digits (suc fuel) n =
    let more = suc (count_digits fuel (n / 10)) in if ltb n 10 then 1 else more

count_digits-le : (fuel n k : ℕ) → n < 10 ^ suc k → count_digits fuel n ≤ suc k
unfolding count_digits
count_digits-le zero n k h = omega arith
count_digits-le (suc fuel) n zero h = ground arith
count_digits-le (suc fuel) n (suc k) h =
    ground (arith, count_digits-le fuel (n / 10) k (omega (arith, pow-suc 10 (suc k))))

parse-print_digits :
    (fuel n : ℕ) (s : String)
    → n < fuel
    → parse_digits 0 0 false (codes (print_digits fuel n s))
      ≡ parse_digits n (count_digits fuel n) true (codes s)
unfolding print_digits count_digits
parse-print_digits zero n s h = absurd (omega arith)
parse-print_digits (suc fuel) n s h = elim (Bool-cases (ltb n 10)) [
  | inl small ↦
      rw small (parse_digits-digit 0 0 n false (codes s) (ltb→lt n 10 small) ∙ rw (zero-add n) refl)
  | inr large ↦ rw large (
      parse-print_digits fuel (n / 10) (push (digit_char (n % 10)) s) (ground arith)
      ∙ parse_digits-digit (n / 10) (count_digits fuel (n / 10)) (n % 10) true (codes s)
          (omega arith)
      ∙ ap (λ (m : ℕ). parse_digits m (suc (count_digits fuel (n / 10))) true (codes s))
          (omega arith))
]

-- A print begins with a digit.
print_digits-head :
    (fuel n : ℕ) (s : String)
    → n < fuel
    → (d : ℕ) × (t : String) × (d < 10) × (print_digits fuel n s ≡ push (digit_char d) t)
unfolding print_digits
print_digits-head zero n s h = absurd (omega arith)
print_digits-head (suc fuel) n s h = elim (Bool-cases (ltb n 10)) [
  | inl small ↦ (n, s, ltb→lt n 10 small, rw small refl)
  | inr large ↦
      let (d, t, hd, e) =
        print_digits-head fuel (n / 10) (push (digit_char (n % 10)) s) (ground arith) in
      (d, t, hd, rw large e)
]

-- A sign or a space is no digit, so the digits are read from the first character on.
parse_sign-digit :
    (d : ℕ) (cs : List ℕ)
    → d < 10
    → parse_sign (strip_left (code (digit_char d) ∷ cs))
      ≡ signed pos (parse_digits 0 0 false (code (digit_char d) ∷ cs))
unfolding parse_sign strip_left
parse_sign-digit d cs h = rw (code-digit_char d h) (ground arith)

count_digits-le_size : (fuel n k : ℕ) → 0 < k → n < 10 ^ k → count_digits fuel n ≤ k
count_digits-le_size fuel n zero k_pos h = absurd (omega arith)
count_digits-le_size fuel n (suc k) k_pos h = count_digits-le fuel n k h

finish-digits : (n count : ℕ) → count ≤ max_digits → finish n count true ≡ some n
unfolding finish
finish-digits n count h = ground arith

max_digits_pos : 0 < max_digits
unfolding max_digits
max_digits_pos = omega arith

pub parse_digits-print_nat :
    (n : ℕ)
    → n < 10 ^ max_digits
    → parse_digits 0 0 false (codes (print_digits (suc n) n empty)) ≡ some n
parse_digits-print_nat n h =
    parse-print_digits (suc n) n empty (omega arith)
    ∙ (unfold parse_digits in
        finish-digits n (count_digits (suc n) n)
          (count_digits-le_size (suc n) n max_digits max_digits_pos h))

-- What `str` prints of a number within the limit on digits, `int` reads.
pub parse_ascii-print_nat : (n : ℕ) → n < 10 ^ max_digits → parse_ascii (print_nat n) ≡ some (pos n)
unfolding parse_ascii print_nat signed
parse_ascii-print_nat n h =
    let (d, t, hd, e) = print_digits-head (suc n) n empty (omega arith) in
    rw e (parse_sign-digit d (codes t) hd)
    ∙ ap (signed pos)
        (ap (λ (s : String). parse_digits 0 0 false (codes s)) (sym e) ∙ parse_digits-print_nat n h)

ascii_print :
    (fuel n : ℕ) (s : String) → is_ascii s ≡ true → is_ascii (print_digits fuel n s) ≡ true
unfolding print_digits
ascii_print zero n s h = h
ascii_print (suc fuel) n s h = elim (Bool-cases (ltb n 10)) [
  | inl small ↦ rw (small, code-digit_char n (ltb→lt n 10 small)) (ground arith)
  | inr large ↦ rw large (
      ascii_print fuel (n / 10) (push (digit_char (n % 10)) s)
        (rw (code-digit_char (n % 10) (omega arith)) (ground arith)))
]

-- No character of `s` is a dot.
abbrev pub no_dot : String → Bool
no_dot s = all (λ c. not (c == b'.')) (codes s)

no_dot_print : (fuel n : ℕ) (s : String) → no_dot s ≡ true → no_dot (print_digits fuel n s) ≡ true
unfolding print_digits
no_dot_print zero n s h = h
no_dot_print (suc fuel) n s h = elim (Bool-cases (ltb n 10)) [
  | inl small ↦ rw (small, code-digit_char n (ltb→lt n 10 small)) (ground arith)
  | inr large ↦ rw large (
      no_dot_print fuel (n / 10) (push (digit_char (n % 10)) s)
        (rw (code-digit_char (n % 10) (omega arith)) (ground arith)))
]

-- What stands before the first dot.
pub before_dot-append :
    (s rest : String) → no_dot s ≡ true → before_dot (append s (push "." rest)) ≡ s
unfolding before_dot
before_dot-append empty rest h = rw (nil-append (push "." rest), before_dot) refl
before_dot-append (push c s) rest h =
    rw (cons-append c s (push "." rest)) (ground (arith, before_dot-append s rest))

pub is_ascii-print_nat : (n : ℕ) → is_ascii (print_nat n) ≡ true
unfolding print_nat
is_ascii-print_nat n = ascii_print (suc n) n empty refl

pub no_dot-print_nat : (n : ℕ) → no_dot (print_nat n) ≡ true
unfolding print_nat
no_dot-print_nat n = no_dot_print (suc n) n empty refl
