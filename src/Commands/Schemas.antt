-- ===== src/Commands/Schemas.antt =====
-- `main` of tools/generate_schemas.py. The directory `schemas` is below the repository's root.
use Prim.Native.String.{◌++◌ as append}
use litharness_contracts.Prelude.{
  ◌≢◌, String, ◌≡◌, refl, ◌∙◌, true, Option, some, eq_iff, eq_refl, arith, distinct, find,
}
use litharness_contracts.Json.{Float}
use litharness_contracts.Types.{Ty}
use litharness_contracts.Builtins.Sorted.{sort_by_name, find-sort_by_name}
use litharness_contracts.Builtins.Dump.{dumps}
use litharness_contracts.Builtins.Printable.{dump_at-no_numbers}
use litharness_contracts.Contracts.Registry.{all_schema_types}
use litharness_contracts.Schema.Gives.{given}
use litharness_contracts.Schema.Total.{json_schema_total}
use litharness_contracts.Schema.Plain.{json_schema-no_numbers}
use litharness_contracts.Commands.Files.{read, World, Ended, ended}
use litharness_contracts.Commands.Named.{find-text_at, write_each-total}
use litharness_contracts.Commands.Each.{write_each, write_each-read, file_names}
use litharness_contracts.Commands.Render.{render_schema, dumped_schema}

unfoldable pub schema_id : String → String
schema_id name = append "https://litharness.dev/schemas/" (append name ".schema.json")

unfoldable pub schema_file : String → String
schema_file name = append name ".schema.json"

module _ (dump_float : Float → String) where
  abbrev pub render_named : String → Ty → Option String
  render_named name cls = render_schema dump_float cls (schema_id name)

  unfoldable pub main : World → Ended
  main w = write_each schema_file render_named "" "schemas" (sort_by_name all_schema_types) w

  render_schema-total :
      (n : String) (t : Ty) (id : String)
      → find n all_schema_types ≡ some t
      → (text : String) × (render_schema dump_float t id ≡ some text)
  unfolding render_schema dumped_schema dumps
  render_schema-total n t id registered =
      let (schema, e) = json_schema_total n t id registered in
      let (text, p) =
        dump_at-no_numbers true true dump_float 0 schema (given (json_schema-no_numbers t id) e) in
      (append text "\n", rw (e, p) refl)

  distinct_files :
      distinct (file_names schema_file render_named (sort_by_name all_schema_types)) ≡ true
  unfolding sort_by_name schema_file
  distinct_files = refl

  -- Every run ends. Then the schema file of each registered type has the text of the type's schema,
  -- and the files of other directories are as they were.
  pub main-schemas :
      (w : World)
      → (w' : World) × (main w ≡ ended w')
        × ((n : String) (t : Ty)
            → find n all_schema_types ≡ some t
            → (text : String) × (read "schemas" (schema_file n) w'.files ≡ some text)
              × (render_schema dump_float t (schema_id n) ≡ some text))
        × ((d m : String) → d ≢ "schemas" → read d m w'.files ≡ read d m w.files)
  unfolding main
  main-schemas w =
      let items = sort_by_name all_schema_types in
      let (w', e) =
        write_each-total schema_file render_named "" "schemas" items w distinct_files λ n t found.
          render_schema-total n t (schema_id n)
            (rw (find-sort_by_name n all_schema_types) at found) in
      let after =
        write_each-read schema_file render_named "" "schemas" items w w' distinct_files e in
      (
        w',
        e,
        λ n t registered.
            let (text, is) = render_schema-total n t (schema_id n) registered in
            let found = find-sort_by_name n all_schema_types ∙ registered in
            let owed = find-text_at schema_file render_named n t items distinct_files found in
            (text, after "schemas" (schema_file n) ∙ rw (eq_refl "schemas", owed, is) refl, is),
        λ d m other. after d m ∙ ground (arith, eq_iff "schemas" d),
      )
