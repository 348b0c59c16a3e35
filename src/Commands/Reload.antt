-- ===== src/Commands/Reload.antt =====
-- A golden file read back: the text of `render_golden` (src/litharness_contracts/fixture_build.py) under
-- `json.loads`, and what `parse_artifact` gives for it.
use Prim.Native.String.{[] as empty, ◌++◌ as append}
use litharness_contracts.Prelude.{
  String, ◌≡◌, refl, sym, subst, ◌∙◌, ap, true, false, Option, none, some, List, [], ◌∷◌, map,
  str_eq, Bool-cases, inl, inr, contains, distinct, find, some-eq,
}
use litharness_contracts.Outcome.{ok}
use litharness_contracts.Json.{Json, Float}
use litharness_contracts.Value.{Value}
use litharness_contracts.Types.{Ty}
use litharness_contracts.Runtime.{Runtime}
use litharness_contracts.Serde.Typing.{HasType}
use litharness_contracts.Serde.Encode.{to_jsonable}
use litharness_contracts.Serde.Version.{parse_artifact}
use litharness_contracts.Builtins.Sorted.{names_of}
use litharness_contracts.Builtins.Dump.{dumps}
use litharness_contracts.Builtins.Lex.{lex, outside}
use litharness_contracts.Builtins.Load.{loads}
use litharness_contracts.Builtins.Keys.{unambiguous}
use litharness_contracts.Builtins.Loaded.{FloatsBack, loads-dumps}
use litharness_contracts.Fixture.Spec.{Spec}
use litharness_contracts.Fixture.Errors.{Built, built, bind_built, built-injective}
use litharness_contracts.Fixture.Builder.{Digests, make_builder}
use litharness_contracts.Fixture.Meta.{IsWritten}
use litharness_contracts.Fixture.Build.{
  build_fixture, build_written, AllWritten, written_types, artifacts,
}
use litharness_contracts.Fixture.Accessor.{golden_filenames, fixture_ids}
use litharness_contracts.Commands.Files.{read, World, ended}
use litharness_contracts.Commands.Render.{render_golden, with_newline}
use litharness_contracts.Commands.Fixtures.{main}
use litharness_contracts.Commands.Shipped.{main-found}

newline_text :
    (o : Option String) (text : String)
    → with_newline o ≡ some text
    → (s : String) × (o ≡ some s) × (append s "\n" ≡ text)
newline_text none text h = absurd (cc)
newline_text (some s) text h = (s, refl, some-eq h)

blank_end : lex outside "\n" ≡ some (empty, [])
unfolding lex
blank_end = refl

-- The contract type of each golden file.
abbrev pub paired : List String → List Ty → List (String × Ty)
paired (name ∷ names) (t ∷ types) = (name, t) ∷ paired names types
paired _ _ = []

abbrev pub file_types : List (String × Ty)
file_types = paired golden_filenames written_types

IsWritten-find :
    (rt : Runtime) (types : List Ty) (results : List (Built Value)) (files : List (String × Json))
    (m : String) (x : Json)
    → AllWritten rt types results files
    → find m files ≡ some x
    → (t : Ty) × (find m (paired (map (λ f. f.0) files) types) ≡ some t)
      × (v : Value) × IsWritten rt t v x
unfolding find
IsWritten-find rt [] [] [] m x h e = absurd (cc)
IsWritten-find rt [] [] (file ∷ files) m x h e = absurd h
IsWritten-find rt [] (r ∷ results) files m x h e = absurd h
IsWritten-find rt (t ∷ types) [] files m x h e = absurd h
IsWritten-find rt (t ∷ types) (r ∷ results) [] m x h e = absurd h
IsWritten-find rt (t ∷ types) (r ∷ results) ((name, y) ∷ files) m x ((v, _, is), more) e =
    elim (Bool-cases (str_eq name m)) [
      | inl same ↦ (t, rw same refl, v, subst (IsWritten rt t v) (some-eq (rw same at e)) is)
      | inr other ↦
          let (u, at, w, written) =
            IsWritten-find rt types results files m x more (rw other at e) in
          (u, rw other at, w, written)
    ]

module _ (dump_float : Float → String) (load_float : String → Option Float)
    (floats : FloatsBack dump_float load_float) where
  -- Where floats read back, the text that `render_golden` gives for a payload without NaN, and without
  -- an object that has a key twice, is read by `json.loads` as the payload.
  pub render_golden-loads :
      (payload : Json) (text : String)
      → unambiguous payload ≡ true
      → render_golden dump_float payload ≡ some text
      → loads load_float text ≡ some payload
  unfolding render_golden
  render_golden-loads payload text h e =
      let (s, dumped, is) = newline_text (dumps false false dump_float payload) text e in
      ap (loads load_float) (sym is)
      ∙ loads-dumps dump_float load_float floats payload s "\n" h dumped blank_end

  -- Where the names of the sources are apart and a run of the fixture command ends, each golden file of
  -- a golden book that has a source, and whose payload has no NaN and no object with a key twice, has
  -- a text that `json.loads` reads as the payload, which `parse_artifact` reads as an object of the
  -- contract type of the file that `to_jsonable` writes as the payload, if the text of a float that is
  -- not NaN reads back.
  pub golden_read :
      (dg : Digests) (rt : Runtime) (sources : List (String × Spec)) (w w' : World)
      (fixture_id filename : String) (spec : Spec) (outputs : List (String × Json)) (payload : Json)
      → distinct (names_of sources) ≡ true
      → main dg dump_float sources w ≡ ended w'
      → find fixture_id sources ≡ some spec
      → contains fixture_id fixture_ids ≡ true
      → contains filename golden_filenames ≡ true
      → build_fixture dg spec ≡ built outputs
      → find filename outputs ≡ some payload
      → unambiguous payload ≡ true
      → (text : String) × (read fixture_id filename w'.files ≡ some text)
        × (loads load_float text ≡ some payload)
        × (t : Ty) × (find filename file_types ≡ some t)
        × (v : Value) × HasType t v
        × (to_jsonable v ≡ ok payload)
        × (parse_artifact rt t payload ≡ ok v)
  unfolding build_fixture
  golden_read dg rt sources w w' fixture_id filename spec outputs payload apart run_ended source
        known ships makes is h =
      let (_, text, there, (files, p, made, found, rendered)) =
        main-found dg dump_float sources w w' "golden" fixture_id filename spec apart run_ended
          source known ships in
      let same_files : files ≡ outputs = built-injective (sym made ∙ makes) in
      let same : p ≡ payload = some-eq (sym found ∙ ap (find filename) same_files ∙ is) in
      let (b, hb, hbuild) = bind_built (make_builder dg spec) _ makes in
      let (names, written) = build_written rt dg spec b outputs hb hbuild in
      let (t, at, v, (typed, w, parsed)) =
        IsWritten-find rt written_types (artifacts dg b) outputs filename payload written is in
      (
        text,
        there,
        render_golden-loads payload text h (ap (render_golden dump_float) (sym same) ∙ rendered),
        t,
        ap (λ ns. find filename (paired ns written_types)) (sym names) ∙ at,
        v,
        typed,
        w,
        parsed,
      )
