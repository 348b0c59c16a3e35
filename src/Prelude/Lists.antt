-- ===== src/Prelude/Lists.antt =====
-- Lists over the native numbers.
use Prim.Native.Nat.{ℕ, suc, ◌+◌}
use Prim.Native.String.{String}
use mathlib.Core.Path.{◌≡◌, refl}
use mathlib.Core.Bool.{Bool, true, false, ◌&&◌, ◌||◌, not}
use mathlib.Core.Option.{Option, none, some}
use mathlib.Core.List.{List, [], ◌∷◌, ◌++◌}
use native.Mathlib.Omega.{arith}
use text.Mathlib.Text.{◌==◌ as str_eq}
use text.Mathlib.TextPositions.{eq_refl}
use package.litharness_contracts.Prelude.Tests.{if◌then◌else◌}

module _ {ℓ} {A : Type ℓ} where
  abbrev pub length : List A → ℕ
  length [] = 0
  length (_ ∷ xs) = suc (length xs)

  abbrev pub all : (A → Bool) → List A → Bool
  all p [] = true
  all p (x ∷ xs) = p x && all p xs

  pub length-append : (xs ys : List A) → length (xs ++ ys) ≡ length xs + length ys
  length-append [] ys = omega arith
  length-append (_ ∷ xs) ys = omega (arith, length-append xs ys)

-- `k in names`
abbrev pub contains : String → List String → Bool
contains k [] = false
contains k (j ∷ names) = str_eq j k || contains k names

pub contains_head : (k : String) (ks : List String) → contains k (k ∷ ks) ≡ true
contains_head k ks = rw (eq_refl k)

pub contains_tail :
    (k j : String) (ks : List String) → contains k ks ≡ true → contains k (j ∷ ks) ≡ true
contains_tail k j ks h = ground arith

pub contains-append :
    (k : String) (xs ys : List String) → contains k (xs ++ ys) ≡ (contains k xs || contains k ys)
contains-append k [] ys = refl
contains-append k (x ∷ xs) ys = ground (arith, contains-append k xs ys)

-- No name is twice among them.
abbrev pub distinct : List String → Bool
distinct [] = true
distinct (k ∷ names) = not (contains k names) && distinct names

-- `registry[name]`
unfoldable pub find {ℓ} : {A : Type ℓ} → String → List (String × A) → Option A
find k [] = none
find k ((j, a) ∷ l) = if str_eq j k then some a else find k l
