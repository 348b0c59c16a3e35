-- ===== src/Fixture/Occurrences.antt =====
-- What `count` and `index` say about where a quote occurs.
use Prim.Native.String.{[], ◌∷◌}
use text.Mathlib.TextEquality.{Char-path}
use native.Mathlib.Decide.{dec_lt}
use litharness_contracts.Prelude.{
  ℕ, zero, suc, ◌+◌, ◌-◌, ◌≤◌, ◌<◌, Char, code, String, ◌≡◌, refl, ◌⊎◌, inl, inr, true, false,
  &&-true, none, some, some-eq, ◌==◌, Bool-cases, Option-cases, arith,
}
use litharness_contracts.Fixture.Text.{
  count_chars, is_prefix, drop, take, count_after, count, index_from, index,
}

-- The quote stands in the text at the position.
abbrev pub OccursAt : String → String → ℕ → Type 0
OccursAt text quote i = (is_prefix quote (drop i text) ≡ true) × (i ≤ count_chars text)

code-eq : (c d : Char) → (code c == code d) ≡ true → c ≡ d
code-eq c d h = Char-path c d (ground arith)

pub take-is_prefix :
    (quote text : String) → is_prefix quote text ≡ true → take (count_chars quote) text ≡ quote
unfolding is_prefix take
take-is_prefix [] text h = refl
take-is_prefix (c ∷ quote) [] h = cc
take-is_prefix (c ∷ quote) (d ∷ text) h =
    let (same, rest) = &&-true (code c == code d) (is_prefix quote text) h in
    rw (code-eq c d same, take-is_prefix quote text rest)

-- The position is the first at which the quote stands.
abbrev pub IsFirst : String → String → ℕ → Type 0
IsFirst text quote j = OccursAt text quote j × ((n : ℕ) → OccursAt text quote n → j ≤ n)

-- One more character in front, where the quote does not stand.
later_occurs :
    (c : Char) (text quote : String) (n : ℕ)
    → is_prefix quote (c ∷ text) ≡ false
    → OccursAt (c ∷ text) quote n
    → (m : ℕ) × (n ≡ suc m) × OccursAt text quote m
unfolding drop
later_occurs c text quote zero miss (h, le) = absurd (cc)
later_occurs c text quote (suc m) miss (h, le) = (m, refl, (h, omega arith))

later-IsFirst :
    (c : Char) (text quote : String) (j : ℕ)
    → is_prefix quote (c ∷ text) ≡ false
    → IsFirst text quote j
    → IsFirst (c ∷ text) quote (suc j)
unfolding drop
later-IsFirst c text quote j miss ((h, le), least) = ((h, omega arith), λ n occurs. after n occurs)
  where
    after : (n : ℕ) → OccursAt (c ∷ text) quote n → suc j ≤ n
    after n occurs =
        let (m, e, o) = later_occurs c text quote n miss occurs in
        let le' = least m o in omega arith

index_from-IsFirst :
    (i : ℕ) (quote text : String) (k : ℕ)
    → index_from i quote text ≡ some k
    → (j : ℕ) × (k ≡ i + j) × IsFirst text quote j
unfolding index_from drop
index_from-IsFirst i quote [] k h = elim (Bool-cases (is_prefix quote [])) [
  | inl hit ↦
      let e : i ≡ k = some-eq (rw hit at h) in
      (0, omega arith, ((hit, omega arith), λ n o. omega arith))
  | inr miss ↦ let bad : none ≡ some k = rw miss at h in absurd (cc)
]
index_from-IsFirst i quote (c ∷ text) k h = elim (Bool-cases (is_prefix quote (c ∷ text))) [
  | inl hit ↦
      let e : i ≡ k = some-eq (rw hit at h) in
      (0, omega arith, ((hit, omega arith), λ n o. omega arith))
  | inr miss ↦
      let (j, e, first) = index_from-IsFirst (suc i) quote text k (rw miss at h) in
      (suc j, omega arith, later-IsFirst c text quote j miss first)
]

-- `index` gives the first position at which the quote stands.
pub index-IsFirst : (text quote : String) (k : ℕ) → index text quote ≡ some k → IsFirst text quote k
unfolding index
index-IsFirst text quote k h =
    let (j, e, first) = index_from-IsFirst 0 quote text k h in
    let same : j ≡ k = omega arith in rw (← same) first

-- Where `index` raises, no match is counted.
count_after-none :
    (i skip : ℕ) (quote text : String)
    → index_from i quote text ≡ none
    → count_after quote skip text ≡ 0
unfolding index_from count_after
count_after-none i zero quote [] h = ground arith
count_after-none i (suc skip) quote [] h = refl
count_after-none i zero quote (c ∷ text) h = ground (arith, count_after-none (suc i) 0 quote text)
count_after-none i (suc skip) quote (c ∷ text) h = elim (Bool-cases (is_prefix quote (c ∷ text))) [
  | inl hit ↦ let bad : some i ≡ none = rw hit at h in absurd (cc)
  | inr miss ↦ count_after-none (suc i) skip quote text (rw miss at h)
]

-- A quote that stands behind the skipped characters is counted.
count_after_pos :
    (skip j : ℕ) (quote text : String)
    → OccursAt text quote j
    → skip ≤ j
    → 1 ≤ count_after quote skip text
unfolding count_after drop
count_after_pos zero zero quote [] (h, le) s = rw h (omega arith)
count_after_pos zero (suc j) quote [] (h, le) s = absurd (omega arith)
count_after_pos (suc skip) j quote [] (h, le) s = absurd (omega arith)
count_after_pos (suc skip) zero quote (c ∷ text) (h, le) s = absurd (omega arith)
count_after_pos (suc skip) (suc j) quote (c ∷ text) (h, le) s =
    count_after_pos skip j quote text (h, omega arith) (omega arith)
count_after_pos zero j quote (c ∷ text) (h, le) s = elim (Bool-cases (is_prefix quote (c ∷ text))) [
  | inl hit ↦ rw hit (omega arith)
  | inr miss ↦
      let (m, e, o) = later_occurs c text quote j miss (h, le) in
      rw miss (omega (arith, count_after_pos 0 m quote text o (omega arith)))
]

-- Behind its first place, a quote that stands clear of it is counted once more.
count_after_twice :
    (s j : ℕ) (quote text : String)
    → IsFirst text quote s
    → OccursAt text quote j
    → s < j
    → s + count_chars quote ≤ j
    → 2 ≤ count_after quote 0 text
unfolding count_after drop
count_after_twice s j quote [] first (h, le) behind clear = absurd (omega arith)
count_after_twice zero zero quote (c ∷ text) first occurs behind clear = absurd (omega arith)
count_after_twice zero (suc j) quote (c ∷ text) first (h, le) behind clear = rw first.0.0 (
    omega
      (arith, count_after_pos (count_chars quote - 1) j quote text (h, omega arith) (omega arith)))
count_after_twice (suc s) j quote (c ∷ text) ((h, le), least) occurs behind clear =
    elim (Bool-cases (is_prefix quote (c ∷ text))) [
      | inl hit ↦ let early = least 0 (hit, omega arith) in absurd (omega arith)
      | inr miss ↦
          let (m, e, o) = later_occurs c text quote j miss occurs in
          let first : IsFirst text quote s = (
            (h, omega arith),
            λ n (hn, len). let le' = least (suc n) (hn, omega arith) in omega arith,
          ) in
          rw miss
            (omega (arith, count_after_twice s m quote text first o (omega arith) (omega arith)))
    ]

count-none : (text quote : String) → index text quote ≡ none → count text quote ≡ 0
unfolding count index
count-none text quote h = count_after-none 0 0 quote text h

-- If one match is counted, `index` finds a place at which the quote stands.
pub index_of_count_one :
    (text quote : String)
    → count text quote ≡ 1
    → (k : ℕ) × (index text quote ≡ some k) × OccursAt text quote k
unfolding count
index_of_count_one text quote h = elim (Option-cases (index text quote)) [
  | inl lacks ↦ let zero_matches = count-none text quote lacks in absurd (omega arith)
  | inr (k, has) ↦ (k, has, (index-IsFirst text quote k has).0)
]

-- If one match is counted, the quote stands at no place but the one that `index` gives, unless it
-- overlaps the quote there.
pub count_one_unique :
    (text quote : String) (k j : ℕ)
    → count text quote ≡ 1
    → index text quote ≡ some k
    → OccursAt text quote j
    → (j ≡ k) ⊎ ((k < j) × (j < k + count_chars quote))
unfolding count
count_one_unique text quote k j one has occurs =
    let first = index-IsFirst text quote k has in
    let least = first.1 j occurs in
    elim (dec_lt k j) [
      | yes behind ↦ elim (dec_lt j (k + count_chars quote)) [
        | yes near ↦ inr (behind, near)
        | no far ↦
            let two = count_after_twice k j quote text first occurs behind (omega arith) in
            absurd (omega arith)
      ]
      | no not_behind ↦ inl (omega arith)
    ]
