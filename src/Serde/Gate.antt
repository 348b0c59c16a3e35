-- ===== src/Serde/Gate.antt =====
-- Which payloads `parse_artifact` lets through.
use Prim.Native.String.{◌∷◌ as push, ◌++◌ as append}
use text.Mathlib.TextLemmas.{nil-append, cons-append}
use litharness_contracts.Prelude.{
  ℕ, ◌^◌, ◌<◌, String, ◌≡◌, refl, sym, ap, ◌∙◌, some, [], if◌then◌else◌, ◌==◌, arith,
}
use litharness_contracts.Prelude.Int.{ℤ, pos, int_eq}
use litharness_contracts.Outcome.{ok, err, incompatible_version}
use litharness_contracts.Json.{Json}
use litharness_contracts.Types.{Ty}
use litharness_contracts.Runtime.{Runtime}
use litharness_contracts.Builtins.Print.{print_nat, print_digits, max_digits}
use litharness_contracts.Builtins.Parse.{before_dot, parse_ascii, parse_sign, strip_left}
use litharness_contracts.Builtins.Decimal.{
  parse_ascii-print_nat, before_dot-append, is_ascii-print_nat, no_dot-print_nat,
}
use litharness_contracts.Serde.Decode.{from_jsonable}
use litharness_contracts.Serde.Version.{
  schema_version, int_of, schema_major, declared_schema_version, parse_artifact,
}

module _ (rt : Runtime) where
  int_of-print_nat : (n : ℕ) → n < 10 ^ max_digits → int_of rt (print_nat n) ≡ some (pos n)
  unfolding int_of
  int_of-print_nat n h = rw (is_ascii-print_nat n) (parse_ascii-print_nat n h)

  -- Of a version that is a number, a dot and any text, the major version is that number, if it has
  -- at most 4300 digits.
  pub schema_major-dotted :
      (n : ℕ) (rest : String)
      → n < 10 ^ max_digits
      → schema_major rt (append (print_nat n) (push "." rest)) ≡ ok (pos n)
  unfolding schema_major
  schema_major-dotted n rest h =
      rw (before_dot-append (print_nat n) rest (no_dot-print_nat n), int_of-print_nat n h) refl

  schema_major-library : schema_major rt schema_version ≡ ok (pos 1)
  unfolding schema_major before_dot int_of parse_ascii parse_sign strip_left
  schema_major-library = refl

  -- A payload goes through exactly when the major version that it declares is 1.
  gate :
      (t : Ty) (x : Json) (s : String) (n : ℤ)
      → declared_schema_version rt x ≡ ok s
      → schema_major rt s ≡ ok n
      → parse_artifact rt t x
        ≡ (if int_eq n (pos 1) then from_jsonable rt t [] x else err (incompatible_version s))
  unfolding parse_artifact
  gate t x s n d m = rw (d, m, schema_major-library) refl

  -- A payload that declares the version `1.` and any minor version and patch is decoded, and one
  -- that declares another major version of at most 4300 digits is refused as incompatible.
  pub parse_artifact_gate :
      (t : Ty) (x : Json) (n : ℕ) (rest : String)
      → n < 10 ^ max_digits
      → declared_schema_version rt x ≡ ok (append (print_nat n) (push "." rest))
      → parse_artifact rt t x ≡ (
          if n == 1
          then from_jsonable rt t [] x
          else err (incompatible_version (append (print_nat n) (push "." rest))))
  parse_artifact_gate t x n rest h d =
      gate t x (append (print_nat n) (push "." rest)) (pos n) d (schema_major-dotted n rest h)

  one_fits : 1 < 10 ^ max_digits
  unfolding max_digits
  one_fits = omega arith

  dotted_one : (rest : String) → append (print_nat 1) (push "." rest) ≡ append "1." rest
  unfolding print_nat print_digits
  dotted_one rest =
      cons-append "1" "" (push "." rest)
      ∙ ap (push "1") (nil-append (push "." rest))
      ∙ sym (
          cons-append "1" "." rest
          ∙ ap (push "1") (cons-append "." "" rest ∙ ap (push ".") (nil-append rest)))

  -- A payload that declares `1.` and any rest is decoded.
  pub major_one :
      (t : Ty) (x : Json) (rest : String)
      → declared_schema_version rt x ≡ ok (append "1." rest)
      → parse_artifact rt t x ≡ from_jsonable rt t [] x
  major_one t x rest d =
      parse_artifact_gate t x 1 rest one_fits (d ∙ ap (λ s. ok s) (sym (dotted_one rest)))
