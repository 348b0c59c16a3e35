-- ===== src/Fixture/Wheel.antt =====
-- `main` of tools/check_wheel_fixtures.py. A wheel is the list of its members' names; the wheels are
-- given in the order of their file names, as `sorted` of the files in `dist` gives them.
use Prim.Native.String.{◌++◌ as append}
use litharness_contracts.Prelude.{
  ℕ, String, ◌≡◌, ◌↔◌, refl, true, Option, none, some, List, [], ◌∷◌, ◌++◌, map, if◌then◌else◌,
  str_eq, eq_iff, contains, arith, Bool-cases, inl, inr, subst, eq_refl, contains_head,
  contains_tail, contains-append, sym, some-eq,
}
use litharness_contracts.Fixture.Accessor.{fixture_ids, golden_filenames}

-- the tool's own two lists
abbrev pub wheel_fixture_ids : List String
wheel_fixture_ids = "mystery" ∷ "litrpg" ∷ []

abbrev pub wheel_filenames : List String
wheel_filenames =
    "manuscript.json" ∷ "plans.json" ∷ "state.json" ∷ "findings.json" ∷ "context_gold.json"
    ∷ "impact_gold.json" ∷ []

unfoldable pub member_name : String → String → String
member_name fixture_id filename =
    append "litharness_contracts/fixtures/golden/" (append fixture_id (append "/" filename))

unfoldable pub expected_of : List String → List String → List String
unfolding member_name
expected_of [] filenames = []
expected_of (fixture_id ∷ ids) filenames =
    map (member_name fixture_id) filenames ++ expected_of ids filenames

-- `expected - members`
unfoldable pub missing_from : List String → List String → List String
missing_from members [] = []
missing_from members (name ∷ names) =
    let rest = missing_from members names in if contains name members then rest else name ∷ rest

abbrev pub exit_code : List String → ℕ
exit_code [] = 0
exit_code (name ∷ names) = 1

-- `wheels[-1]`
abbrev pub last_wheel : List (List String) → Option (List String)
last_wheel [] = none
last_wheel (wheel ∷ []) = some wheel
last_wheel (wheel ∷ next ∷ rest) = last_wheel (next ∷ rest)

unfoldable pub exit_of : Option (List String) → ℕ
unfolding expected_of missing_from
exit_of none = 2
exit_of (some members) =
    exit_code (missing_from members (expected_of wheel_fixture_ids wheel_filenames))

unfoldable pub main : List (List String) → ℕ
unfolding exit_of
main wheels = exit_of (last_wheel wheels)

contains-map :
    (f : String → String) (k : String) (xs : List String)
    → contains k xs ≡ true
    → contains (f k) (map f xs) ≡ true
contains-map f k [] h = cc
contains-map f k (x ∷ xs) h = elim (Bool-cases (str_eq x k)) [
  | inl same ↦ rw ((eq_iff x k).0 same, eq_refl (f k)) refl
  | inr other ↦ let later = contains-map f k xs (rw other at h) in ground arith
]

contains-expected_of :
    (f n : String) (ids filenames : List String)
    → contains f ids ≡ true
    → contains n filenames ≡ true
    → contains (member_name f n) (expected_of ids filenames) ≡ true
unfolding expected_of
contains-expected_of f n [] filenames hf hn = cc
contains-expected_of f n (id ∷ ids) filenames hf hn =
    let split =
      contains-append (member_name f n) (map (member_name id) filenames)
        (expected_of ids filenames) in
    elim (Bool-cases (str_eq id f)) [
      | inl same ↦
          let here = contains-map (member_name f) n filenames hn in
          rw (split, (eq_iff id f).0 same, here) refl
      | inr other ↦
          let later = contains-expected_of f n ids filenames (rw other at hf) hn in ground arith
    ]

-- Where nothing is missing, every expected name is a member.
missing_from-none :
    (members names : List String) (name : String)
    → exit_code (missing_from members names) ≡ 0
    → contains name names ≡ true
    → contains name members ≡ true
unfolding missing_from
missing_from-none members [] name h k = cc
missing_from-none members (n ∷ names) name h k = elim (Bool-cases (contains n members)) [
  | inr lacks ↦ let bad : ◌≡◌ {A = ℕ} 1 0 = rw lacks at h in absurd (omega arith)
  | inl has ↦ elim (Bool-cases (str_eq n name)) [
    | inl same ↦ subst (λ s. contains s members ≡ true) ((eq_iff n name).0 same) has
    | inr other ↦ missing_from-none members names name (rw has at h) (rw other at k)
  ]
]

-- Where every expected name is a member, nothing is missing.
none-missing_from :
    (members names : List String)
    → ((name : String) → contains name names ≡ true → contains name members ≡ true)
    → exit_code (missing_from members names) ≡ 0
unfolding missing_from
none-missing_from members [] h = refl
none-missing_from members (n ∷ names) h =
    rw (h n (contains_head n names))
      (none-missing_from members names (λ name k. h name (contains_tail name n names k)))

map-source :
    (f : String → String) (k : String) (xs : List String)
    → contains k (map f xs) ≡ true
    → (x : String) × (contains x xs ≡ true) × (k ≡ f x)
map-source f k [] h = absurd (cc)
map-source f k (x ∷ xs) h = elim (Bool-cases (str_eq (f x) k)) [
  | inl same ↦ (x, contains_head x xs, sym ((eq_iff (f x) k).0 same))
  | inr other ↦
      let (y, among, is) = map-source f k xs (rw other at h) in (y, contains_tail y x xs among, is)
]

expected_of-source :
    (name : String) (ids filenames : List String)
    → contains name (expected_of ids filenames) ≡ true
    → (f n : String) × (contains f ids ≡ true)
      × (contains n filenames ≡ true)
      × (name ≡ member_name f n)
unfolding expected_of
expected_of-source name [] filenames h = absurd (cc)
expected_of-source name (id ∷ ids) filenames h =
    elim (Bool-cases (contains name (map (member_name id) filenames))) [
      | inl here ↦
          let (n, among, is) = map-source (member_name id) name filenames here in
          (id, n, contains_head id ids, among, is)
      | inr later ↦
          let split =
            contains-append name (map (member_name id) filenames) (expected_of ids filenames) in
          let (f, n, known, among, is) =
            expected_of-source name ids filenames (rw (split, later) at h) in
          (f, n, contains_tail f id ids known, among, is)
    ]

-- The wheel holds every file that `golden_path` knows: that of each golden book and each artifact.
abbrev pub Complete : List String → Type 0
Complete members =
    (fixture_id filename : String)
    → contains fixture_id fixture_ids ≡ true
    → contains filename golden_filenames ≡ true
    → contains (member_name fixture_id filename) members ≡ true

exit_code-Complete :
    (members : List String)
    → (exit_code (missing_from members (expected_of wheel_fixture_ids wheel_filenames)) ≡ 0)
      ↔ Complete members
exit_code-Complete members = (
  λ h f n known ships.
      missing_from-none members _ _ h
        (contains-expected_of f n wheel_fixture_ids wheel_filenames known ships),
  λ complete. none-missing_from members _ λ name among.
      let (f, n, known, ships, is) =
        expected_of-source name wheel_fixture_ids wheel_filenames among in
      rw is (complete f n known ships),
)

exit_of-Complete :
    (wheel : Option (List String))
    → (exit_of wheel ≡ 0) ↔ ((members : List String) × (wheel ≡ some members) × Complete members)
unfolding exit_of
exit_of-Complete none = (λ h. absurd (omega arith), λ (members, wheel, _). absurd (cc))
exit_of-Complete (some members) = (
  λ h. (members, refl, (exit_code-Complete members).0 h),
  λ (others, same, complete).
      (exit_code-Complete members).1 (subst Complete (sym (some-eq same)) complete),
)

-- The tool exits with 0 exactly where there is a wheel and the last one holds, for each book and
-- each artifact that `golden_path` knows, the file of that artifact of that book.
pub main-golden :
    (wheels : List (List String))
    → (main wheels ≡ 0) ↔ (
        (members : List String) × (last_wheel wheels ≡ some members)
        × ((fixture_id filename : String)
            → contains fixture_id fixture_ids ≡ true
            → contains filename golden_filenames ≡ true
            → contains (member_name fixture_id filename) members ≡ true))
unfolding main
main-golden wheels = exit_of-Complete (last_wheel wheels)
