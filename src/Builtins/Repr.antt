-- ===== src/Builtins/Repr.antt =====
-- When `repr` of JSON data returns: an int in it may have too many digits.
use litharness_contracts.Prelude.{
  String, ◌≡◌, sym, Bool, true, false, ◌&&◌, Option, none, some, some-eq, str_eq, Bool-cases, inl,
  inr, subst, arith,
}
use litharness_contracts.Json.{Json, Items, Entries, item, entry, lookup}
use litharness_contracts.Builtins.Print.{print_int}

abbrev is_there : Option String → Bool
is_there none = false
is_there (some s) = true

unfoldable mutual
  pub has_repr : Json → Bool
  has_repr (Json.int n) = is_there (print_int n)
  has_repr (Json.list xs) = items_have_repr xs
  has_repr (Json.dict m) = entries_have_repr m
  has_repr _ = true

  pub items_have_repr : Items → Bool
  items_have_repr Items.nil = true
  items_have_repr (item x xs) = has_repr x && items_have_repr xs

  pub entries_have_repr : Entries → Bool
  entries_have_repr Entries.end = true
  entries_have_repr (entry k x m) = has_repr x && entries_have_repr m

pub and_left : (a b : Bool) → a ≡ false → (a && b) ≡ false
and_left a b h = ground arith

pub and_right : (a b : Bool) → b ≡ false → (a && b) ≡ false
and_right a b h = ground arith

-- A value without a `repr` is in an object without one.
pub lookup-has_repr :
    (k : String) (m : Entries) (x : Json)
    → lookup k m ≡ some x
    → has_repr x ≡ false
    → entries_have_repr m ≡ false
unfolding has_repr
lookup-has_repr k Entries.end x h lacks = absurd (cc)
lookup-has_repr k (entry j y m) x h lacks = elim (Bool-cases (str_eq j k)) [
  | inl same ↦
      and_left (has_repr y) (entries_have_repr m)
        (subst (λ z. has_repr z ≡ false) (sym (some-eq (rw same at h))) lacks)
  | inr other ↦
      and_right (has_repr y) (entries_have_repr m) (lookup-has_repr k m x (rw other at h) lacks)
]
