-- ===== src/Commands/Shipped.antt =====
-- What `golden_path` finds behind a run of tools/build_fixtures.py.
use litharness_contracts.Prelude.{
  String, ◌≡◌, refl, ◌∙◌, subst, Bool, true, false, Option, none, some, List, [], ◌∷◌, map, str_eq,
  Bool-cases, inl, inr, contains, distinct, find, some-eq,
}
use litharness_contracts.Json.{Json, Float}
use litharness_contracts.Builtins.Sorted.{sort_by_name, find-sort_by_name, names_of}
use litharness_contracts.Fixture.Spec.{Spec}
use litharness_contracts.Fixture.Errors.{Built, built, failed}
use litharness_contracts.Fixture.Builder.{Digests}
use litharness_contracts.Fixture.Build.{build_fixture, build_fixture-names}
use litharness_contracts.Fixture.Accessor.{
  GoldenPath, golden_filenames, fixture_ids, golden_path, golden_path-found, found,
}
use litharness_contracts.Commands.Files.{Files, read, World, ended, bind_ended}
use litharness_contracts.Commands.Each.{write_each-renders, text_at}
use litharness_contracts.Commands.Render.{render_golden}
use litharness_contracts.Commands.Fixtures.{
  write_built, write_books, main, render_payload, payload_text, golden_text,
}
use litharness_contracts.Commands.Rebuild.{main-read, map-id}

abbrev is_there : Option String → Bool
is_there none = false
is_there (some text) = true

-- `path.is_file()`, in what a run left below the `golden` directory
abbrev pub is_golden : Files → GoldenPath → Bool
is_golden files path = is_there (read path.fixture_id path.filename files)

module _ (dg : Digests) (dump_float : Float → String) where
  -- The payload of the book's file `filename`, and the text that is rendered of it.
  abbrev pub Rendered : Spec → String → String → Type 0
  Rendered spec filename text =
      (outputs : List (String × Json)) × (payload : Json) × (build_fixture dg spec ≡ built outputs)
      × (find filename outputs ≡ some payload)
      × (render_golden dump_float payload ≡ some text)

  payload-found :
      (m text : String) (outputs : List (String × Json))
      → text_at (λ s. s) (render_payload dg dump_float) m outputs ≡ some text
      → (payload : Json) × (find m outputs ≡ some payload)
        × (render_golden dump_float payload ≡ some text)
  unfolding text_at find
  payload-found m text [] h = absurd (cc)
  payload-found m text ((name, payload) ∷ outputs) h = elim (Bool-cases (str_eq name m)) [
    | inl same ↦ (payload, rw same refl, rw same at h)
    | inr other ↦
        let (p, is, e) = payload-found m text outputs (rw other at h) in (p, rw other is, e)
  ]

  write_built-Rendered :
      (name m : String) (spec : Spec) (r : Built (List (String × Json))) (w v : World)
      → build_fixture dg spec ≡ r
      → contains m golden_filenames ≡ true
      → write_built dg dump_float name r w ≡ ended v
      → (text : String) × (payload_text dg dump_float m r ≡ some text) × Rendered spec m text
  unfolding write_built
  write_built-Rendered name m spec (failed x) w v made ships h = absurd (cc)
  write_built-Rendered name m spec (built outputs) w v made ships h =
      let names = map-id (map (λ f. f.0) outputs) in
      let among : contains m (map (λ f. f.0) outputs) ≡ true =
        rw (build_fixture-names dg spec outputs made) ships in
      let (text, e) = write_each-renders _ _ _ name outputs w v m h among in
      let (payload, is, rendered) = payload-found m text outputs e in
      (text, e, (outputs, payload, made, is, rendered))

  write_books-Rendered :
      (sources : List (String × Spec)) (w w' : World) (name m : String) (spec : Spec)
      → write_books dg dump_float sources w ≡ ended w'
      → find name sources ≡ some spec
      → contains m golden_filenames ≡ true
      → (text : String) × (golden_text dg dump_float sources name m ≡ some text)
        × Rendered spec m text
  unfolding write_books golden_text find
  write_books-Rendered [] w w' name m spec h source ships = absurd (cc)
  write_books-Rendered ((first, s) ∷ sources) w w' name m spec h source ships =
      let (v, hv, later) =
        bind_ended (write_built dg dump_float first (build_fixture dg s) w) _ h in
      elim (Bool-cases (str_eq first name)) [
        | inl same ↦
            let (text, e, rendered) =
              write_built-Rendered first m s (build_fixture dg s) w v refl ships hv in
            (text, rw same e, subst (λ x. Rendered x m text) (some-eq (rw same at source)) rendered)
        | inr other ↦
            let (text, e, rendered) =
              write_books-Rendered sources v w' name m spec later (rw other at source) ships in
            (text, rw other e, rendered)
      ]

  -- Where the names of the sources are apart and a run ends, `golden_path` finds each artifact of
  -- each golden book that has a source, and the file has the text that `render_golden` gives for
  -- the payload of that name which `build_fixture` gives for the source.
  pub main-found :
      (sources : List (String × Spec)) (w w' : World) (root fixture_id filename : String)
      (spec : Spec)
      → distinct (names_of sources) ≡ true
      → main dg dump_float sources w ≡ ended w'
      → find fixture_id sources ≡ some spec
      → contains fixture_id fixture_ids ≡ true
      → contains filename golden_filenames ≡ true
      → (golden_path (some root) (is_golden w'.files) fixture_id filename
          ≡ found (record { root = root; fixture_id = fixture_id; filename = filename }))
        × (text : String) × (read fixture_id filename w'.files ≡ some text)
        × Rendered spec filename text
  unfolding main golden_text
  main-found sources w w' root fixture_id filename spec apart h source known ships =
      let (text, e, rendered) =
        write_books-Rendered (sort_by_name sources) w w' fixture_id filename spec h
          (find-sort_by_name fixture_id sources ∙ source) ships in
      let owed : golden_text dg dump_float sources fixture_id filename ≡ some text =
        rw (find-sort_by_name fixture_id sources) at e in
      let there : read fixture_id filename w'.files ≡ some text =
        main-read dg dump_float sources w w' apart h fixture_id filename ∙ rw owed refl in
      (
        (golden_path-found (some root) (is_golden w'.files) fixture_id filename _).1
            (known, ships, refl, refl, refl, rw there refl),
        text,
        there,
        rendered,
      )
