-- ===== src/Commands/Fixtures.antt =====
-- `main` of tools/build_fixtures.py. A source directory is its name and its specification, in any
-- order; the directories of the files are those below `golden_root()`.
use litharness_contracts.Prelude.{String, Option, none, some, List, [], ◌∷◌, find}
use litharness_contracts.Json.{Json, Float}
use litharness_contracts.Builtins.Sorted.{sort_by_name}
use litharness_contracts.Fixture.Spec.{Spec}
use litharness_contracts.Fixture.Errors.{Built, built, failed}
use litharness_contracts.Fixture.Builder.{Digests}
use litharness_contracts.Fixture.Build.{build_fixture}
use litharness_contracts.Commands.Files.{World, not_built, Ended, ended, raised, ◌>>=◌}
use litharness_contracts.Commands.Each.{write_each, text_at}
use litharness_contracts.Commands.Render.{render_golden}

-- what `path.relative_to(ROOT)` starts with
abbrev pub golden_shown : String
golden_shown = "src/litharness_contracts/fixtures/golden/"

abbrev as_named : String → String
as_named filename = filename

module _ (dg : Digests) (dump_float : Float → String) where
  abbrev pub render_payload : String → Json → Option String
  render_payload filename payload = render_golden dump_float payload

  abbrev write_outputs : String → List (String × Json) → World → Ended
  write_outputs name = write_each as_named render_payload golden_shown name

  unfoldable pub write_built : String → Built (List (String × Json)) → World → Ended
  write_built name (failed e) w = raised (not_built e) w
  write_built name (built outputs) w = write_outputs name outputs w

  unfoldable pub write_books : List (String × Spec) → World → Ended
  unfolding write_built
  write_books [] w = ended w
  write_books ((name, spec) ∷ sources) w =
      write_built name (build_fixture dg spec) w >>= write_books sources

  unfoldable pub main : List (String × Spec) → World → Ended
  unfolding write_books
  main sources w = write_books (sort_by_name sources) w

  -- The text of a payload among what is built.
  abbrev pub payload_text : String → Built (List (String × Json)) → Option String
  payload_text filename (failed e) = none
  payload_text filename (built outputs) = text_at as_named render_payload filename outputs

  abbrev pub golden_text_of : String → Option Spec → Option String
  golden_text_of filename none = none
  golden_text_of filename (some spec) = payload_text filename (build_fixture dg spec)

  -- The text that a run owes to the file `filename` of the book `name`: the rendered payload of that
  -- name that the book's source builds.
  unfoldable pub golden_text : List (String × Spec) → String → String → Option String
  golden_text sources name filename = golden_text_of filename (find name sources)
