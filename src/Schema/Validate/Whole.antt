-- ===== src/Schema/Validate/Whole.antt =====
-- Data that has a float with the fraction zero, which JSON Schema counts as an integer.
use litharness_contracts.Prelude.{
  String, ◌≡◌, sym, Bool, true, false, ◌||◌, some, some-eq, str_eq, Bool-cases, inl, inr, subst,
  arith,
}
use litharness_contracts.Json.{Json, Items, Entries, item, entry, lookup, is_integer}

unfoldable mutual
  pub has_whole : Json → Bool
  has_whole (Json.float x) = is_integer x
  has_whole (Json.list xs) = items_have_whole xs
  has_whole (Json.dict m) = entries_have_whole m
  has_whole _ = false

  pub items_have_whole : Items → Bool
  items_have_whole Items.nil = false
  items_have_whole (item x xs) = has_whole x || items_have_whole xs

  pub entries_have_whole : Entries → Bool
  entries_have_whole Entries.end = false
  entries_have_whole (entry k x m) = has_whole x || entries_have_whole m

pub or_left : (a b : Bool) → a ≡ true → (a || b) ≡ true
or_left a b h = ground arith

pub or_right : (a b : Bool) → b ≡ true → (a || b) ≡ true
or_right a b h = ground arith

-- Such a float in a value of an object is in the object.
pub lookup-has_whole :
    (k : String) (m : Entries) (x : Json)
    → lookup k m ≡ some x
    → has_whole x ≡ true
    → entries_have_whole m ≡ true
unfolding has_whole
lookup-has_whole k Entries.end x h has = absurd (cc)
lookup-has_whole k (entry j y m) x h has = elim (Bool-cases (str_eq j k)) [
  | inl same ↦
      or_left (has_whole y) (entries_have_whole m)
        (subst (λ z. has_whole z ≡ true) (sym (some-eq (rw same at h))) has)
  | inr other ↦
      or_right (has_whole y) (entries_have_whole m) (lookup-has_whole k m x (rw other at h) has)
]
