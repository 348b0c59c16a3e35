-- ===== src/Builtins/Print.antt =====
-- `str(n)` of an int: decimal digits, up to the interpreter's limit of 4300 digits.
use Prim.Native.String.{[], ◌∷◌}
use litharness_contracts.Prelude.{
  ℕ, zero, suc, ◌/◌, ◌%◌, ◌^◌, Char, String, ◌≡◌, refl, Option, none, some, ltb, if◌then◌else◌,
}
use litharness_contracts.Prelude.Int.{ℤ, pos, negsuc}

-- The character of a digit below ten.
unfoldable pub digit_char : ℕ → Char
digit_char zero = "0"
digit_char (suc zero) = "1"
digit_char (suc (suc zero)) = "2"
digit_char (suc (suc (suc zero))) = "3"
digit_char (suc (suc (suc (suc zero)))) = "4"
digit_char (suc (suc (suc (suc (suc zero))))) = "5"
digit_char (suc (suc (suc (suc (suc (suc zero)))))) = "6"
digit_char (suc (suc (suc (suc (suc (suc (suc zero))))))) = "7"
digit_char (suc (suc (suc (suc (suc (suc (suc (suc zero)))))))) = "8"
digit_char (suc (suc (suc (suc (suc (suc (suc (suc (suc n))))))))) = "9"

-- The digits of `n` in front of `rest`, the last first; `suc n` rounds are enough.
unfoldable pub print_digits : ℕ → ℕ → String → String
unfolding digit_char
print_digits zero n rest = rest
print_digits (suc fuel) n rest =
    let more = print_digits fuel (n / 10) (digit_char (n % 10) ∷ rest) in
    if ltb n 10 then digit_char n ∷ rest else more

unfoldable pub print_nat : ℕ → String
print_nat n = print_digits (suc n) n []

-- `sys.set_int_max_str_digits`
unfoldable pub max_digits : ℕ
max_digits = 4300

unfoldable pub print_sized : ℕ → String → Option String
unfolding max_digits
print_sized n s = if ltb n (10 ^ max_digits) then some s else none

-- none is the `ValueError` of an int with too many digits
unfoldable pub print_int : ℤ → Option String
unfolding print_nat print_sized
print_int (pos n) = print_sized n (print_nat n)
print_int (negsuc n) = print_sized (suc n) ("-" ∷ print_nat (suc n))

prints : print_int (negsuc 1203) ≡ some "-1204"
unfolding print_int print_digits
prints = refl
