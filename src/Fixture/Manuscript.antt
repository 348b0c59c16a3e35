-- ===== src/Fixture/Manuscript.antt =====
-- `FixtureBuilder._meta` and `FixtureBuilder.manuscript`.
use Prim.Native.String.{◌++◌ as append}
use litharness_contracts.Prelude.{
  ℕ, suc, ◌*◌, String, false, Option, none, some, List, [], ◌∷◌, ltb, if◌then◌else◌,
}
use litharness_contracts.Value.{Value, Values, Attrs, attr, nothing, member, instance_of}
use litharness_contracts.Builtins.Print.{print_nat}
use litharness_contracts.Serde.Version.{schema_version}
use litharness_contracts.Fixture.Spec.{Scene}
use litharness_contracts.Fixture.Errors.{Built, built, failed, key_error}
use litharness_contracts.Fixture.Builder.{Digests, FixtureBuilder, det_id, make_ref, get}

abbrev pub attributes : List (String × Value) → Attrs
attributes [] = Attrs.end
attributes ((k, v) ∷ rest) = attr k v (attributes rest)

abbrev pub fixed_created_at : String
fixed_created_at = "2026-08-12T00:00:00Z"

abbrev pub builder_tool : Value
builder_tool = instance_of "ToolIdentity" (
    attributes
      (("name", Value.str "litharness-contracts-fixtures") ∷ ("version", Value.str "0.1.0") ∷ []))

-- `f"{n:03d}"`
unfoldable pub pad_3 : ℕ → String
pad_3 n =
    let padded = if ltb n 10 then append "00" (print_nat n) else append "0" (print_nat n) in
    if ltb n 100 then padded else print_nat n

-- the node of the book, as `manuscript` begins
unfoldable pub book_node : FixtureBuilder → Value
book_node b = instance_of "ManuscriptNode" (
    attributes (
      ("logical_id", Value.str "book")
      ∷ ("kind", member "NodeKind" "book")
      ∷ ("position_key", Value.str "000")
      ∷ ("parent_logical_id", nothing)
      ∷ ("title", Value.str b.spec.book_title)
      ∷ ("content", nothing)
      ∷ ("content_sha256", nothing)
      ∷ ("version_id", Value.str b.revision_id)
      ∷ ("locked", Value.bool false)
      ∷ ("metadata", Value.dict Attrs.end)
      ∷ ("lock_kind", nothing)
      ∷ ("block_kind", nothing)
      ∷ ("block_payload", nothing)
      ∷ ("tombstoned", nothing)
      ∷ ("tombstone_reason", nothing)
      ∷ []))

abbrev pub with_text : String → Option String → (String → Built Value) → Built Value
with_text id none next = failed (key_error id)
with_text id (some text) next = next text

abbrev pub add_node : Built Value → Built Values → Built Values
add_node (failed e) rest = failed e
add_node (built v) (failed e) = failed e
add_node (built v) (built vs) = built (Values.cons v vs)

module _ (dg : Digests) (b : FixtureBuilder) where
  unfoldable pub make_meta : String → String → Value
  unfolding det_id make_ref
  make_meta kind name = instance_of "ArtifactMeta" (
      attributes (
        ("schema_version", Value.str schema_version)
        ∷ ("artifact_id", Value.str (det_id dg (b.fixture_id ∷ kind ∷ name ∷ [])))
        ∷ ("artifact_kind", Value.str kind)
        ∷ ("created_at", Value.str fixed_created_at)
        ∷ ("actor", Value.str "fixture-builder")
        ∷ ("tool", builder_tool)
        ∷ (
          "source_revisions",
          Value.list (
              Values.cons (make_ref b "book" "manuscript_book" (Value.str b.revision_id))
                Values.nil),
        )
        ∷ ("dependencies", Value.list Values.nil)
        ∷ ("config_digest", nothing)
        ∷ ("causation_id", nothing)
        ∷ ("correlation_id", nothing)
        ∷ ("warnings", Value.list Values.nil)
        ∷ []))

  unfoldable pub scene_node : ℕ → Scene → String → String → Value
  unfolding pad_3
  scene_node i scene text version = instance_of "ManuscriptNode" (
      attributes (
        ("logical_id", Value.str scene.id)
        ∷ ("kind", member "NodeKind" "scene")
        ∷ ("position_key", Value.str (pad_3 (i * 10)))
        ∷ ("parent_logical_id", Value.str "book")
        ∷ ("title", Value.str scene.title)
        ∷ ("content", Value.str text)
        ∷ ("content_sha256", Value.str (dg.sha256_text text))
        ∷ ("version_id", Value.str version)
        ∷ ("locked", Value.bool false)
        ∷ ("metadata", Value.dict Attrs.end)
        ∷ ("lock_kind", nothing)
        ∷ ("block_kind", nothing)
        ∷ ("block_payload", nothing)
        ∷ ("tombstoned", nothing)
        ∷ ("tombstone_reason", nothing)
        ∷ []))

  -- the loop over the scenes, the first of which has the number `i`
  unfoldable pub scene_nodes : ℕ → List Scene → Built Values
  unfolding scene_node get
  scene_nodes i [] = built Values.nil
  scene_nodes i (scene ∷ scenes) =
      let rest = scene_nodes (suc i) scenes in
      add_node
        (with_text scene.id (get scene.id b.scene_text) (λ text.
          with_text scene.id (get scene.id b.scene_version)
            (λ version. built (scene_node i scene text version))))
        rest

  unfoldable pub revision_of : Values → Value
  unfolding make_meta book_node
  revision_of nodes = instance_of "ManuscriptRevision" (
      attributes (
        ("meta", make_meta "manuscript_revision" "r1")
        ∷ ("book_id", Value.str b.book_id)
        ∷ ("branch_id", Value.str b.branch_id)
        ∷ ("revision_id", Value.str b.revision_id)
        ∷ ("nodes", Value.list (Values.cons (book_node b) nodes))
        ∷ ("parent_revision_id", nothing)
        ∷ []))

  abbrev pub with_nodes : Built Values → Built Value
  with_nodes (failed e) = failed e
  with_nodes (built nodes) = built (revision_of nodes)

  unfoldable pub manuscript : Built Value
  unfolding scene_nodes revision_of
  manuscript = with_nodes (scene_nodes 1 b.spec.scenes)
