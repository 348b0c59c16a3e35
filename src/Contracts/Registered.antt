-- ===== src/Contracts/Registered.antt =====
-- The registered contract types meet what the serializer relies on.
use litharness_contracts.Prelude.{
  ℕ, zero, suc, String, ◌≡◌, refl, Bool, true, Option, none, some, List, [], ◌∷◌, &&-true, all,
  str_eq, Bool-cases, subst, inl, inr, some-eq, find,
}
use litharness_contracts.Types.{Ty, EnumClass, has_value}
use litharness_contracts.Serde.Typing.{well_formed}
use litharness_contracts.Serde.Defaults.{typed_defaults, fits}
use litharness_contracts.Contracts.Registry.{all_schema_types, contract_enums}

module _ {ℓ} {A : Type ℓ} where
  unfoldable pub nth : ℕ → List A → Option A
  nth i [] = none
  nth zero (a ∷ l) = some a
  nth (suc i) (a ∷ l) = nth i l

  pub all-find :
      (test : A → Bool) (k : String) (l : List (String × A)) (a : A)
      → all (λ p. test p.1) l ≡ true
      → find k l ≡ some a
      → test a ≡ true
  unfolding find
  all-find test k [] a h e = cc
  all-find test k ((j, b) ∷ l) a h e =
      let (hb, hl) = &&-true (test b) (all (λ p. test p.1) l) h in
      elim (Bool-cases (str_eq j k)) [
        | inl same ↦ subst (λ c. test c ≡ true) (some-eq (rw same at e)) hb
        | inr other ↦ all-find test k l a hl (rw other at e)
      ]

  all-nth :
      (test : A → Bool) (i : ℕ) (l : List A) (a : A)
      → all test l ≡ true
      → nth i l ≡ some a
      → test a ≡ true
  unfolding nth
  all-nth test i [] a h e = cc
  all-nth test zero (b ∷ l) a h e =
      subst (λ c. test c ≡ true) (some-eq e) (&&-true (test b) (all test l) h).0
  all-nth test (suc i) (b ∷ l) a h e = all-nth test i l a (&&-true (test b) (all test l) h).1 e

all-well_formed : all (λ p. well_formed p.1) all_schema_types ≡ true
unfolding well_formed
all-well_formed = refl

all-typed_defaults : all (λ p. typed_defaults p.1) all_schema_types ≡ true
unfolding typed_defaults fits
all-typed_defaults = refl

all_tolerant : all (λ e. has_value e "unknown") contract_enums ≡ true
all_tolerant = refl

pub registered-well_formed :
    (n : String) (t : Ty) → find n all_schema_types ≡ some t → well_formed t ≡ true
registered-well_formed n t h = all-find well_formed n all_schema_types t all-well_formed h

pub registered-typed_defaults :
    (n : String) (t : Ty) → find n all_schema_types ≡ some t → typed_defaults t ≡ true
registered-typed_defaults n t h = all-find typed_defaults n all_schema_types t all-typed_defaults h

pub exported-unknown :
    (i : ℕ) (e : EnumClass) → nth i contract_enums ≡ some e → has_value e "unknown" ≡ true
exported-unknown i e h = all-nth (λ e. has_value e "unknown") i contract_enums e all_tolerant h
