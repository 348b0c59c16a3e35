-- ===== src/Fixture/Accessor.antt =====
-- `FIXTURE_IDS`, `GOLDEN_FILENAMES`, `golden_root` and `golden_path`.
use litharness_contracts.Prelude.{
  String, ◌≡◌, refl, sym, ap, ◌↔◌, Bool, true, false, Option, none, some, List, [], ◌∷◌,
  if◌then◌else◌, contains, Bool-cases, inl, inr,
}

-- The golden books, and the artifacts of each.
abbrev pub fixture_ids : List String
fixture_ids = "mystery" ∷ "litrpg" ∷ []

abbrev pub golden_filenames : List String
golden_filenames =
    "manuscript.json" ∷ "plans.json" ∷ "state.json" ∷ "findings.json" ∷ "context_gold.json"
    ∷ "impact_gold.json" ∷ []

-- A path below the package's directory.
pub record GoldenPath : Type 0 where
  pub root : String
  pub fixture_id : String
  pub filename : String

-- `FileNotFoundError`, by its four messages
pub data NotFound : Type 0 where
  unknown_fixture : String → NotFound
  unknown_artifact : String → String → NotFound
  not_a_filesystem : NotFound
  missing_file : String → String → NotFound

pub data Located : Type 0 where
  found : GoldenPath → Located
  not_found : NotFound → Located

if_found :
    (c : Bool) (x : Located) (e : NotFound) (path : GoldenPath)
    → ((if c then x else not_found e) ≡ found path) ↔ ((c ≡ true) × (x ≡ found path))
if_found true x e path = (λ h. (refl, h), λ h. h.1)
if_found false x e path = (λ h. absurd (cc), λ h. absurd (cc))

same_path :
    (root fixture_id filename : String) (path : GoldenPath)
    → some root ≡ some path.root
    → path.fixture_id ≡ fixture_id
    → path.filename ≡ filename
    → record { root = root; fixture_id = fixture_id; filename = filename } ≡ path
same_path root fixture_id filename path r f n = cc

-- The place of the package's `golden` directory, where it is one of the file system, and whether
-- there is a file at a path.
module _ (resource_root : Option String) (is_file : GoldenPath → Bool) where
  unfoldable pub checked_path : GoldenPath → Located
  checked_path path =
      if is_file path then found path else not_found (missing_file path.fixture_id path.filename)

  unfoldable pub below_root : Option String → String → String → Located
  below_root none fixture_id filename = not_found not_a_filesystem
  below_root (some root) fixture_id filename =
      checked_path (record { root = root; fixture_id = fixture_id; filename = filename })

  unfoldable pub golden_path : String → String → Located
  golden_path fixture_id filename =
      if contains fixture_id fixture_ids
      then (if contains filename golden_filenames
          then below_root resource_root fixture_id filename
          else not_found (unknown_artifact filename fixture_id))
      else not_found (unknown_fixture fixture_id)

  checked_path-found :
      (p path : GoldenPath) → (checked_path p ≡ found path) ↔ ((p ≡ path) × (is_file path ≡ true))
  unfolding checked_path
  checked_path-found p path = elim (Bool-cases (is_file p)) [
    | inl there ↦ rw there (λ h. (cc, cc), λ (same, _). cc)
    | inr none_there ↦ rw none_there (λ h. absurd (cc), λ (same, file). absurd (cc))
  ]

  below_root-found :
      (o : Option String) (fixture_id filename : String) (path : GoldenPath)
      → (below_root o fixture_id filename ≡ found path) ↔ (
          (o ≡ some path.root)
          × (path.fixture_id ≡ fixture_id)
          × (path.filename ≡ filename)
          × (is_file path ≡ true))
  unfolding below_root
  below_root-found none fixture_id filename path = (λ h. absurd (cc), λ h. absurd (cc))
  below_root-found (some root) fixture_id filename path = (
    λ h.
        let (same, there) = (checked_path-found _ path).0 h in
        (
          ap (λ p. some p.root) same,
          sym (ap (λ p. p.fixture_id) same),
          sym (ap (λ p. p.filename) same),
          there,
        ),
    λ (r, f, n, there). (checked_path-found _ path).1 (same_path root _ _ path r f n, there),
  )

  -- `golden_path` gives a path exactly when the book and the artifact are among those that ship,
  -- the package lies in the file system, the path is that artifact's of that book, and there is a
  -- file.
  pub golden_path-found :
      (fixture_id filename : String) (path : GoldenPath)
      → (golden_path fixture_id filename ≡ found path) ↔ (
          (contains fixture_id fixture_ids ≡ true)
          × (contains filename golden_filenames ≡ true)
          × (resource_root ≡ some path.root)
          × (path.fixture_id ≡ fixture_id)
          × (path.filename ≡ filename)
          × (is_file path ≡ true))
  unfolding golden_path
  golden_path-found fixture_id filename path = (
    λ h.
        let (known, h1) = (if_found (contains fixture_id fixture_ids) _ _ path).0 h in
        let (ships, h2) = (if_found (contains filename golden_filenames) _ _ path).0 h1 in
        let (r, f, n, i) = (below_root-found resource_root fixture_id filename path).0 h2 in
        (known, ships, r, f, n, i),
    λ (known, ships, r, f, n, i).
        rw (known, ships)
          ((below_root-found resource_root fixture_id filename path).1 (r, f, n, i)),
  )
