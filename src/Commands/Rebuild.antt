-- ===== src/Commands/Rebuild.antt =====
-- What a run of tools/build_fixtures.py leaves.
use litharness_contracts.Prelude.{
  String, ◌≡◌, refl, sym, ◌∙◌, ap, subst, true, false, not, Option, none, some, List, [], ◌∷◌, map,
  if◌then◌else◌, str_eq, eq_iff, &&-true, Bool-cases, inl, inr, arith, contains, distinct, find,
}
use litharness_contracts.Json.{Json, Float}
use litharness_contracts.Builtins.Sorted.{
  sort_by_name, find-sort_by_name, sort_by_name-distinct, names_of,
}
use litharness_contracts.Fixture.Spec.{Spec}
use litharness_contracts.Fixture.Errors.{Built, built, failed}
use litharness_contracts.Fixture.Builder.{Digests}
use litharness_contracts.Fixture.Build.{build_fixture, build_fixture-names}
use litharness_contracts.Fixture.Accessor.{golden_filenames}
use litharness_contracts.Commands.Files.{read, World, ended, bind_ended, ended-injective, or_else}
use litharness_contracts.Commands.Each.{write_each-read, write_each-ends}
use litharness_contracts.Commands.Fixtures.{
  write_built, write_books, main, payload_text, golden_text,
}

pub map-id : (names : List String) → map (λ s. s) names ≡ names
map-id [] = refl
map-id (s ∷ names) = ap (λ l. s ∷ l) (map-id names)

module _ (dg : Digests) (dump_float : Float → String) where
  write_built-read :
      (name : String) (r : Built (List (String × Json))) (w v : World)
      → ((outputs : List (String × Json))
          → r ≡ built outputs
          → map (λ f. f.0) outputs ≡ golden_filenames)
      → write_built dg dump_float name r w ≡ ended v
      → (e m : String)
      → read e m v.files ≡ (
          if str_eq name e
          then or_else (payload_text dg dump_float m r) (read e m w.files)
          else read e m w.files)
  unfolding write_built
  write_built-read name (failed x) w v names h e m = absurd (cc)
  write_built-read name (built outputs) w v names h e m =
      let apart : distinct (map (λ f. f.0) outputs) ≡ true = rw (names outputs refl) refl in
      write_each-read _ _ _ name outputs w v apart h e m

  golden_text-cons :
      (name : String) (spec : Spec) (sources : List (String × Spec)) (e m : String)
      → golden_text dg dump_float ((name, spec) ∷ sources) e m ≡ (
          if str_eq name e
          then payload_text dg dump_float m (build_fixture dg spec)
          else golden_text dg dump_float sources e m)
  unfolding golden_text find
  golden_text-cons name spec sources e m = ground arith

  golden_text-absent :
      (e m : String) (sources : List (String × Spec))
      → contains e (names_of sources) ≡ false
      → golden_text dg dump_float sources e m ≡ none
  unfolding golden_text find
  golden_text-absent e m [] h = refl
  golden_text-absent e m ((name, spec) ∷ sources) h = elim (Bool-cases (str_eq name e)) [
    | inl same ↦ let bad : true ≡ false = rw same at h in absurd (cc)
    | inr other ↦
        golden_text-cons name spec sources e m
        ∙ rw other (golden_text-absent e m sources (rw other at h))
  ]

  write_books-read :
      (sources : List (String × Spec)) (w w' : World)
      → distinct (names_of sources) ≡ true
      → write_books dg dump_float sources w ≡ ended w'
      → (e m : String)
      → read e m w'.files ≡ or_else (golden_text dg dump_float sources e m) (read e m w.files)
  unfolding write_books
  write_books-read [] w w' apart h e m =
      rw (sym (ended-injective h), golden_text-absent e m [] refl) refl
  write_books-read ((name, spec) ∷ sources) w w' apart h e m =
      let (fresh, rest) =
        &&-true (not (contains name (names_of sources))) (distinct (names_of sources)) apart in
      let (v, hv, later) =
        bind_ended (write_built dg dump_float name (build_fixture dg spec) w) _ h in
      let first =
        write_built-read name (build_fixture dg spec) w v (build_fixture-names dg spec) hv e m in
      let second = write_books-read sources v w' rest later e m in
      let text = golden_text-cons name spec sources e m in
      elim (Bool-cases (str_eq name e)) [
        | inr other ↦ second ∙ rw (first, text, other) refl
        | inl same ↦
            let none_later = golden_text-absent e m sources (
              subst (λ s. contains s (names_of sources) ≡ false) ((eq_iff name e).0 same)
                (ground arith)) in
            second ∙ rw (first, text, same, none_later) refl
      ]

  write_built-ends :
      (name : String) (r : Built (List (String × Json))) (w w' v : World)
      → write_built dg dump_float name r w ≡ ended w'
      → (v' : World) × (write_built dg dump_float name r v ≡ ended v')
  unfolding write_built
  write_built-ends name (failed x) w w' v h = absurd (cc)
  write_built-ends name (built outputs) w w' v h = write_each-ends _ _ _ name outputs w w' v h

  write_books-ends :
      (sources : List (String × Spec)) (w w' v : World)
      → write_books dg dump_float sources w ≡ ended w'
      → (v' : World) × (write_books dg dump_float sources v ≡ ended v')
  unfolding write_books
  write_books-ends [] w w' v h = (v, refl)
  write_books-ends ((name, spec) ∷ sources) w w' v h =
      let (u, hu, later) =
        bind_ended (write_built dg dump_float name (build_fixture dg spec) w) _ h in
      let (v1, e1) = write_built-ends name (build_fixture dg spec) w u v hu in
      let (v2, e2) = write_books-ends sources u w' v1 later in (v2, rw e1 e2)

  -- A run writes, for each source and each file that is built of it, the rendered payload, and
  -- leaves every other file.
  pub main-read :
      (sources : List (String × Spec)) (w w' : World)
      → distinct (names_of sources) ≡ true
      → main dg dump_float sources w ≡ ended w'
      → (e m : String)
      → read e m w'.files ≡ or_else (golden_text dg dump_float sources e m) (read e m w.files)
  unfolding main golden_text
  main-read sources w w' apart h e m =
      write_books-read (sort_by_name sources) w w' (sort_by_name-distinct sources apart) h e m
      ∙ rw (find-sort_by_name e sources) refl

  or_else-twice : (o old : Option String) → or_else o (or_else o old) ≡ or_else o old
  or_else-twice none old = refl
  or_else-twice (some text) old = refl

  -- Where the names of the sources are apart and a run ends, a second run on what it left ends too,
  -- and leaves every file as it is.
  pub main_twice :
      (sources : List (String × Spec)) (w w' : World)
      → distinct (names_of sources) ≡ true
      → main dg dump_float sources w ≡ ended w'
      → (v : World) × (main dg dump_float sources w' ≡ ended v)
        × ((name filename : String) → read name filename v.files ≡ read name filename w'.files)
  unfolding main
  main_twice sources w w' apart h =
      let (v, again) = write_books-ends (sort_by_name sources) w w' w' h in
      (
        v,
        again,
        λ e m.
            let first = main-read sources w w' apart h e m in
            main-read sources w' v apart again e m
            ∙ rw first (or_else-twice (golden_text dg dump_float sources e m) (read e m w.files)),
      )
