-- ===== src/Commands/Left.antt =====
-- What tools/build_fixtures.py leaves, whether it ends or raises.
use litharness_contracts.Prelude.{
  String, ◌≡◌, refl, ◌∙◌, ◌⊎◌, inl, inr, true, false, not, Option, none, some, List, [], ◌∷◌, map,
  str_eq, eq_iff, eq_refl, &&-true, Bool-cases, Option-cases, arith, contains, distinct, find,
}
use litharness_contracts.Json.{Json, Float}
use litharness_contracts.Builtins.Sorted.{
  sort_by_name, find-sort_by_name, sort_by_name-distinct, names_of,
}
use litharness_contracts.Fixture.Spec.{Spec}
use litharness_contracts.Fixture.Errors.{Built, built, failed}
use litharness_contracts.Fixture.Builder.{Digests}
use litharness_contracts.Fixture.Build.{build_fixture, build_fixture-names}
use litharness_contracts.Commands.Files.{
  read, read-write, same_name, World, Ended, ended, raised, ◌>>=◌, write_shown,
}
use litharness_contracts.Commands.Each.{write_each, write_text, file_names}
use litharness_contracts.Commands.Named.{later-apart}
use litharness_contracts.Commands.Fixtures.{write_built, write_books, main}
use litharness_contracts.Commands.Shipped.{Rendered}

-- What there is behind a command, whether it ended or raised.
abbrev pub left : Ended → World
left (ended w) = w
left (raised e w) = w

module _ {A : Type 0} (file_name : String → String) (render : String → A → Option String)
    (shown d : String) where
  -- The text of a file is that of an item.
  abbrev Wrote : List (String × A) → String → String → Option String → Type 0
  Wrote items e m r =
      (n : String) × (a : A) × (text : String) × (d ≡ e)
      × (find n items ≡ some a)
      × (file_name n ≡ m)
      × (render n a ≡ some text)
      × (r ≡ some text)

  Wrote-later :
      (name : String) (b : A) (items : List (String × A)) (e m : String) (r : Option String)
      → contains (file_name name) (file_names file_name render items) ≡ false
      → Wrote items e m r
      → Wrote ((name, b) ∷ items) e m r
  unfolding find
  Wrote-later name b items e m r fresh (n, a, text, same_d, source, rest_m, is, at_m) =
      elim (Bool-cases (str_eq name n)) [
        | inr other ↦ (n, a, text, same_d, rw other source, rest_m, is, at_m)
        | inl same ↦
            let away = later-apart file_name render name n a items fresh source in
            let bad : true ≡ false = rw ((eq_iff name n).0 same, eq_refl (file_name n)) at away in
            absurd (cc)
      ]

  Wrote-first :
      (name : String) (a : A) (items : List (String × A)) (e m text : String) (w : World)
      {r : Option String}
      → render name a ≡ some text
      → r ≡ read e m (write_shown shown d (file_name name) text w).files
      → (r ≡ read e m w.files) ⊎ Wrote ((name, a) ∷ items) e m r
  unfolding find write_shown
  Wrote-first name a items e m text w is h =
      let step = h ∙ read-write d (file_name name) e m text w.files in
      elim (Bool-cases (same_name d (file_name name) e m)) [
        | inr other ↦ inl (rw other at step)
        | inl same ↦
            let (same_d, same_n) = &&-true (str_eq d e) (str_eq (file_name name) m) same in
            inr (
              name,
              a,
              text,
              (eq_iff d e).0 same_d,
              rw (eq_refl name) refl,
              (eq_iff (file_name name) m).0 same_n,
              is,
              rw same at step,
            )
      ]

  write_each-left :
      (items : List (String × A)) (w : World) (e m : String)
      → distinct (file_names file_name render items) ≡ true
      → let r = read e m (left (write_each file_name render shown d items w)).files in
        (r ≡ read e m w.files) ⊎ Wrote items e m r
  unfolding write_each write_text
  write_each-left [] w e m apart = inl refl
  write_each-left ((name, a) ∷ items) w e m apart =
      let (fresh, rest) =
        &&-true (not (contains (file_name name) (file_names file_name render items)))
          (distinct (file_names file_name render items)) apart in
      elim (Option-cases (render name a)) [
        | inl refused ↦ inl (rw refused refl)
        | inr (text, is) ↦
            elim (write_each-left items (write_shown shown d (file_name name) text w) e m rest) [
              | inl kept ↦ rw is (Wrote-first name a items e m text w is kept)
              | inr wrote ↦ inr (rw is (Wrote-later name a items e m _ (ground arith) wrote))
            ]
      ]

module _ (dg : Digests) (dump_float : Float → String) where
  -- The text of a file is rendered of its book's payload of its name.
  abbrev pub IsGolden : List (String × Spec) → String → String → Option String → Type 0
  IsGolden sources name filename r =
      (spec : Spec) × (text : String) × (find name sources ≡ some spec)
      × Rendered dg dump_float spec filename text
      × (r ≡ some text)

  IsGolden-later :
      (name : String) (s : Spec) (sources : List (String × Spec)) (e m : String) (r : Option String)
      → contains name (names_of sources) ≡ false
      → IsGolden sources e m r
      → IsGolden ((name, s) ∷ sources) e m r
  unfolding find
  IsGolden-later name s sources e m r fresh (spec, text, source, rendered, is) =
      let away = later-apart (λ n. n) (λ n a. none) name e spec sources fresh source in
      (spec, text, rw away source, rendered, is)

  write_built-left :
      (name : String) (spec : Spec) (sources : List (String × Spec))
      (x : Built (List (String × Json))) (w : World) (e m : String)
      → build_fixture dg spec ≡ x
      → let r = read e m (left (write_built dg dump_float name x w)).files in
        (r ≡ read e m w.files) ⊎ IsGolden ((name, spec) ∷ sources) e m r
  unfolding write_built find
  write_built-left name spec sources (failed x) w e m made = inl refl
  write_built-left name spec sources (built outputs) w e m made =
      let apart : distinct (map (λ f. f.0) outputs) ≡ true =
        rw (build_fixture-names dg spec outputs made) refl in
      elim (write_each-left _ _ _ name outputs w e m apart) [
        | inl kept ↦ inl kept
        | inr (n, payload, text, same, there, is_m, is, r) ↦ inr (
          spec,
          text,
          rw (same, eq_refl e) refl,
          (outputs, payload, made, rw is_m at there, is),
          r,
        )
      ]

  left-bind :
      (first : Ended) (next : World → Ended)
      → ((v : World) × (first ≡ ended v)) ⊎ (left (first >>= next) ≡ left first)
  left-bind (ended v) next = inl (v, refl)
  left-bind (raised e v) next = inr refl

  write_books-left :
      (sources : List (String × Spec)) (w : World) (e m : String)
      → distinct (names_of sources) ≡ true
      → let r = read e m (left (write_books dg dump_float sources w)).files in
        (r ≡ read e m w.files) ⊎ IsGolden sources e m r
  unfolding write_books
  write_books-left [] w e m apart = inl refl
  write_books-left ((name, spec) ∷ sources) w e m apart =
      let (fresh, rest) =
        &&-true (not (contains name (names_of sources))) (distinct (names_of sources)) apart in
      let first = write_built-left name spec sources (build_fixture dg spec) w e m refl in
      elim (left-bind (write_built dg dump_float name (build_fixture dg spec) w)
        (write_books dg dump_float sources)) [
          | inr stopped ↦ rw stopped first
          | inl (v, went) ↦ elim (write_books-left sources v e m rest) [
            | inl kept ↦ rw (went, kept) (rw went at first)
            | inr golden ↦
                inr (rw went (IsGolden-later name spec sources e m _ (ground arith) golden))
          ]
        ]

  -- Where the names of the sources are apart, then behind a run, whether it ends or raises, each
  -- file is as it was before or has the text that is rendered of its book's payload of its name.
  pub main-left :
      (sources : List (String × Spec)) (w : World) (name filename : String)
      → distinct (names_of sources) ≡ true
      → let r = read name filename (left (main dg dump_float sources w)).files in
        (r ≡ read name filename w.files) ⊎ IsGolden sources name filename r
  unfolding main
  main-left sources w name filename apart =
      elim (write_books-left (sort_by_name sources) w name filename
        (sort_by_name-distinct sources apart)) [
          | inl kept ↦ inl kept
          | inr (spec, text, source, rendered, is) ↦
              inr (spec, text, rw (find-sort_by_name name sources) at source, rendered, is)
        ]
