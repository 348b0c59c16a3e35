-- ===== src/Builtins/Sorted.antt =====
-- `sorted` of pairs by their names. The names are apart, so the second parts are never compared.
use Prim.Native.String.{compare}
use Prim.Native.Nat.{Ordering}
use text.Mathlib.TextPositions.{compare_refl}
use litharness_contracts.Prelude.{
  String, ◌≡◌, refl, ◌∙◌, ap, Bool, true, false, not, ◌||◌, some, List, [], ◌∷◌, map, contains,
  if◌then◌else◌, str_eq, eq_iff, Bool-cases, inl, inr, arith, find, &&-true, distinct,
}

abbrev pub not_after : Ordering → Bool
not_after Ordering.gt = false
not_after _ = true

pub after-ne : (k j : String) → not_after (compare k j) ≡ false → str_eq j k ≡ false
after-ne k j h = elim (Bool-cases (str_eq j k)) [
  | inr other ↦ other
  | inl same ↦
      let here : not_after (compare k k) ≡ false = rw ((eq_iff j k).0 same) at h in
      let bad : true ≡ false = rw (compare_refl k) at here in absurd (cc)
]

module _ {ℓ} {A : Type ℓ} where
  unfoldable pub insert_by_name : String → A → List (String × A) → List (String × A)
  insert_by_name k a [] = (k, a) ∷ []
  insert_by_name k a ((j, b) ∷ l) =
      if not_after (compare k j) then (k, a) ∷ (j, b) ∷ l else (j, b) ∷ insert_by_name k a l

  unfoldable pub sort_by_name : List (String × A) → List (String × A)
  unfolding insert_by_name
  sort_by_name [] = []
  sort_by_name ((k, a) ∷ l) = insert_by_name k a (sort_by_name l)

  find-insert_by_name :
      (i k : String) (a : A) (l : List (String × A))
      → find i (insert_by_name k a l) ≡ (if str_eq k i then some a else find i l)
  unfolding insert_by_name find
  find-insert_by_name i k a [] = refl
  find-insert_by_name i k a ((j, b) ∷ l) = elim (Bool-cases (not_after (compare k j))) [
    | inl before ↦ rw before refl
    | inr after ↦
        let other = after-ne k j after in
        rw (after) (ground (arith, eq_iff k i, eq_iff j k, eq_iff j i, find-insert_by_name i k a l))
  ]

  -- Sorting keeps what is found under a name.
  pub find-sort_by_name : (i : String) (l : List (String × A)) → find i (sort_by_name l) ≡ find i l
  unfolding sort_by_name find
  find-sort_by_name i [] = refl
  find-sort_by_name i ((k, a) ∷ l) =
      find-insert_by_name i k a (sort_by_name l)
      ∙ ap (λ o. if str_eq k i then some a else o) (find-sort_by_name i l)

  abbrev pub names_of : List (String × A) → List String
  names_of l = map (λ p. p.0) l

  contains-insert_by_name :
      (i k : String) (a : A) (l : List (String × A))
      → contains i (names_of (insert_by_name k a l)) ≡ (str_eq k i || contains i (names_of l))
  unfolding insert_by_name
  contains-insert_by_name i k a [] = refl
  contains-insert_by_name i k a ((j, b) ∷ l) = elim (Bool-cases (not_after (compare k j))) [
    | inl before ↦ rw before refl
    | inr after ↦ rw after (ground (arith, contains-insert_by_name i k a l))
  ]

  pub contains-sort_by_name :
      (i : String) (l : List (String × A))
      → contains i (names_of (sort_by_name l)) ≡ contains i (names_of l)
  unfolding sort_by_name
  contains-sort_by_name i [] = refl
  contains-sort_by_name i ((k, a) ∷ l) =
      contains-insert_by_name i k a (sort_by_name l)
      ∙ ap (λ b. str_eq k i || b) (contains-sort_by_name i l)

  distinct-insert_by_name :
      (k : String) (a : A) (l : List (String × A))
      → contains k (names_of l) ≡ false
      → distinct (names_of l) ≡ true
      → distinct (names_of (insert_by_name k a l)) ≡ true
  unfolding insert_by_name
  distinct-insert_by_name k a [] new h = refl
  distinct-insert_by_name k a ((j, b) ∷ l) new h = elim (Bool-cases (not_after (compare k j))) [
    | inl before ↦ rw (before, new) h
    | inr after ↦
        let others = contains-insert_by_name j k a l in
        let rest = distinct-insert_by_name k a l in
        rw after (ground (arith, others, rest, eq_iff j k, eq_iff k j))
  ]

  -- Sorting keeps the names apart.
  pub sort_by_name-distinct :
      (l : List (String × A))
      → distinct (names_of l) ≡ true
      → distinct (names_of (sort_by_name l)) ≡ true
  unfolding sort_by_name
  sort_by_name-distinct [] h = refl
  sort_by_name-distinct ((k, a) ∷ l) h =
      let (new, rest) = &&-true (not (contains k (names_of l))) (distinct (names_of l)) h in
      distinct-insert_by_name k a (sort_by_name l) (contains-sort_by_name k l ∙ ground arith)
        (sort_by_name-distinct l rest)
