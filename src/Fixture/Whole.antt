-- ===== src/Fixture/Whole.antt =====
-- The manuscript of a made builder: it is built, and has its contract type.
use litharness_contracts.Prelude.{
  find, ℕ, suc, String, ◌≡◌, refl, sym, ◌∙◌, ap, Bool, true, false, ◌||◌, some, List, [], ◌∷◌,
  Option-cases, inl, inr, subst, str_eq, eq_refl,
}
use litharness_contracts.Value.{Value, Values}
use litharness_contracts.Serde.Typing.{HasType}
use litharness_contracts.Serde.Defaults.{fits, all_values}
use litharness_contracts.Contracts.Manuscript.{manuscript_node, manuscript_revision}
use litharness_contracts.Outcome.{ok}
use litharness_contracts.Json.{Json}
use litharness_contracts.Runtime.{Runtime}
use litharness_contracts.Serde.Encode.{to_jsonable}
use litharness_contracts.Serde.Version.{parse_artifact}
use litharness_contracts.Fixture.Text.{replace_crlf}
use litharness_contracts.Fixture.Spec.{Scene, Spec}
use litharness_contracts.Fixture.Errors.{built, bind_built, built-injective}
use litharness_contracts.Fixture.Builder.{
  Digests, FixtureBuilder, make_ref, get, assign, load_texts, load_kinds, make_builder,
  builder_with,
}
use litharness_contracts.Fixture.Total.{has, has-assign, SameKeys, made-SameKeys}
use litharness_contracts.Fixture.Meta.{HasMeta, HasMeta-IsWritten}
use litharness_contracts.Fixture.Manuscript.{
  make_meta, book_node, scene_node, scene_nodes, with_nodes, manuscript, revision_of,
}

-- Each scene is a key of the dict.
abbrev AllHeld : List Scene → List (String × String) → Type 0
AllHeld [] d = Unit
AllHeld (scene ∷ scenes) d = (has scene.id d ≡ true) × AllHeld scenes d

has-load_texts :
    (dg : Digests) (k : String) (scenes : List Scene) (d : List (String × String))
    → has k d ≡ true
    → has k (load_texts dg scenes d) ≡ true
unfolding load_texts
has-load_texts dg k [] d h = h
has-load_texts dg k (scene ∷ scenes) d h =
    has-load_texts dg k scenes _
      (has-assign k scene.id (replace_crlf scene.file_text) d ∙ either (str_eq scene.id k) h)
  where
    either : (a : Bool) {c : Bool} → c ≡ true → (a || c) ≡ true
    either true e = refl
    either false e = e

load_texts-AllHeld :
    (dg : Digests) (scenes : List Scene) (d : List (String × String))
    → AllHeld scenes (load_texts dg scenes d)
unfolding load_texts
load_texts-AllHeld dg [] d = tt
load_texts-AllHeld dg (scene ∷ scenes) d =
    let text = replace_crlf scene.file_text in
    let here : has scene.id (assign scene.id text d) ≡ true =
      rw (has-assign scene.id scene.id text d, eq_refl scene.id) refl in
    (
      has-load_texts dg scene.id scenes (assign scene.id text d) here,
      load_texts-AllHeld dg scenes (assign scene.id text d),
    )

made-AllHeld :
    (dg : Digests) (spec : Spec) (b : FixtureBuilder)
    → make_builder dg spec ≡ built b
    → AllHeld b.spec.scenes b.scene_text
unfolding make_builder builder_with
made-AllHeld dg spec b h =
    let (kinds, _, made) = bind_built (load_kinds spec.state_records []) _ h in
    subst (λ c. AllHeld c.spec.scenes c.scene_text) (built-injective made)
      (load_texts-AllHeld dg spec.scenes [])

-- the value of a key that the dict has
held :
    (k : String) (d : List (String × String)) → has k d ≡ true → (v : String) × (get k d ≡ some v)
held k d h = elim (Option-cases (get k d)) [
  | inl lacks ↦ let bad : false ≡ true = rw lacks at h in absurd (cc)
  | inr found ↦ found
]

book_node-fits : (b : FixtureBuilder) → fits manuscript_node (book_node b) ≡ true
unfolding fits book_node
book_node-fits b = refl

scene_node-fits :
    (dg : Digests) (b : FixtureBuilder) (i : ℕ) (scene : Scene) (text version : String)
    → fits manuscript_node (scene_node dg b i scene text version) ≡ true
unfolding fits scene_node
scene_node-fits dg b i scene text version = refl

scene_nodes-fits :
    (dg : Digests) (b : FixtureBuilder) (i : ℕ) (scenes : List Scene)
    → AllHeld scenes b.scene_text
    → SameKeys b.scene_text b.scene_version
    → (nodes : Values) × (scene_nodes dg b i scenes ≡ built nodes)
      × (all_values (fits manuscript_node) nodes ≡ true)
unfolding scene_nodes
scene_nodes-fits dg b i [] tt same = (Values.nil, refl, refl)
scene_nodes-fits dg b i (scene ∷ scenes) (here, later) same =
    let (text, t) = held scene.id b.scene_text here in
    let (version, v) = held scene.id b.scene_version (sym (same scene.id) ∙ here) in
    let (nodes, e, h) = scene_nodes-fits dg b (suc i) scenes later same in
    (
      Values.cons (scene_node dg b i scene text version) nodes,
      rw (t, v, e) refl,
      rw (scene_node-fits dg b i scene text version) h,
    )

revision-fits :
    (dg : Digests) (b : FixtureBuilder) (nodes : Values)
    → all_values (fits manuscript_node) nodes ≡ true
    → fits manuscript_revision (revision_of dg b nodes) ≡ true
unfolding fits revision_of make_meta make_ref
revision-fits dg b nodes h = rw (book_node-fits b, h) refl

revision-HasMeta :
    (dg : Digests) (b : FixtureBuilder) (nodes : Values) → HasMeta dg b (revision_of dg b nodes)
unfolding revision_of
revision-HasMeta dg b nodes = ("ManuscriptRevision", "manuscript_revision", "r1", _, refl)

-- The builder that a specification makes builds its manuscript, which has the contract type of
-- manuscript revisions, is written, and is given back by `parse_artifact` from what was written.
pub manuscript_built :
    (rt : Runtime) (dg : Digests) (spec : Spec) (b : FixtureBuilder)
    → make_builder dg spec ≡ built b
    → (v : Value) × (manuscript dg b ≡ built v)
      × HasType manuscript_revision v
      × ((x : Json) × (to_jsonable v ≡ ok x) × (parse_artifact rt manuscript_revision x ≡ ok v))
unfolding manuscript find
manuscript_built rt dg spec b made =
    let (nodes, e, h) =
      scene_nodes-fits dg b 1 b.spec.scenes (made-AllHeld dg spec b made)
        (made-SameKeys dg spec b made) in
    let v = revision_of dg b nodes in
    let (x, typed, w, read) =
      HasMeta-IsWritten rt dg b "manuscript_revision" manuscript_revision v refl
        (revision-fits dg b nodes h) (revision-HasMeta dg b nodes) in
    (v, ap (with_nodes dg b) e, typed, (x, w, read))
