-- ===== src/Fixture/Builder.antt =====
-- `FixtureBuilder`: its attributes, references and the resolution of target ids; `uuid5` of a URL name
-- and the SHA-256 hex digest are parameters.
use Prim.Native.String.{◌∷◌ as push, ◌++◌ as append}
use litharness_contracts.Prelude.{
  String, Bool, true, false, Option, none, some, List, [], ◌∷◌, map, if◌then◌else◌, str_eq,
  contains,
}
use litharness_contracts.Fixture.Spec.{Scene, Spec, PlanSpec, StateSpec, FindingSpec, QuerySpec}
use litharness_contracts.Fixture.Errors.{
  Built, built, failed, ◌>>=◌, cannot_resolve, key_error, not_a_value,
}
use litharness_contracts.Value.{Value, Attrs, attr, nothing, member, instance_of}
use litharness_contracts.Types.{has_value}
use litharness_contracts.Contracts.State.{state_record_kind}
use litharness_contracts.Fixture.Text.{is_prefix, replace_crlf}

pub record Digests : Type 0 where
  pub uuid5 : String → String
  pub sha256_text : String → String

-- `d[key] = value` and `d.get(key)` of a dict of texts
module _ {V : Type 0} where
  unfoldable pub assign : String → V → List (String × V) → List (String × V)
  assign k v [] = (k, v) ∷ []
  assign k v ((j, w) ∷ d) = if str_eq j k then (j, v) ∷ d else (j, w) ∷ assign k v d

  unfoldable pub get : String → List (String × V) → Option V
  get k [] = none
  get k ((j, v) ∷ d) = if str_eq j k then some v else get k d

abbrev join_parts : List String → String
join_parts [] = ""
join_parts (s ∷ []) = s
join_parts (s ∷ t ∷ rest) = append s (push "/" (join_parts (t ∷ rest)))

-- The resource kind of a record kind, by their values; none is `KeyError`.
unfoldable pub record_kind_to_resource : String → Option String
record_kind_to_resource kind = get kind (
    ("assertion", "assertion")
    ∷ ("event", "state_event")
    ∷ ("relationship", "relationship")
    ∷ ("knowledge", "knowledge")
    ∷ ("thread", "thread")
    ∷ ("world_rule", "world_rule")
    ∷ [])

-- The attributes of a builder, with the data of def.json as its `spec`.
pub record FixtureBuilder : Type 0 where
  pub spec : Spec
  pub fixture_id : String
  pub project_id : String
  pub book_id : String
  pub branch_id : String
  pub revision_id : String
  pub scene_text : List (String × String)
  pub scene_version : List (String × String)
  pub record_kinds : List (String × String)
  pub plan_ids : List String
  pub finding_ids : List String
  pub derived : List String
  pub query_ids : List String

-- `{r["id"]: StateRecordKind(r["kind"]) for r in …}`
unfoldable pub load_kinds : List StateSpec → List (String × String) → Built (List (String × String))
unfolding assign
load_kinds [] kinds = built kinds
load_kinds (r ∷ records) kinds =
    let more = load_kinds records (assign r.id r.kind kinds) in
    if has_value state_record_kind r.kind
    then more
    else failed (not_a_value "StateRecordKind" r.kind)

module _ (dg : Digests) where
  unfoldable pub det_id : List String → String
  det_id parts = dg.uuid5 (append "litharness://" (join_parts parts))

  -- the loop over the scenes in `__init__`
  unfoldable pub load_texts : List Scene → List (String × String) → List (String × String)
  unfolding assign replace_crlf
  load_texts [] texts = texts
  load_texts (scene ∷ scenes) texts =
      load_texts scenes (assign scene.id (replace_crlf scene.file_text) texts)

  unfoldable pub load_versions :
      String → List Scene → List (String × String) → List (String × String)
  unfolding assign replace_crlf det_id
  load_versions fixture [] versions = versions
  load_versions fixture (scene ∷ scenes) versions = load_versions fixture scenes (
      assign scene.id
        (det_id (fixture ∷ scene.id ∷ dg.sha256_text (replace_crlf scene.file_text) ∷ [])) versions)

  -- the attributes, with the kinds of the records
  unfoldable pub builder_with : Spec → List (String × String) → FixtureBuilder
  unfolding det_id load_texts load_versions
  builder_with spec kinds = record {
    spec = spec;
    fixture_id = spec.fixture_id;
    project_id = det_id (spec.fixture_id ∷ "project" ∷ []);
    book_id = det_id (spec.fixture_id ∷ "book" ∷ []);
    branch_id = det_id (spec.fixture_id ∷ "branch" ∷ "main" ∷ []);
    revision_id = det_id (spec.fixture_id ∷ "revision" ∷ "r1" ∷ []);
    scene_text = load_texts spec.scenes [];
    scene_version = load_versions spec.fixture_id spec.scenes [];
    record_kinds = kinds;
    plan_ids = map (λ (p : PlanSpec). p.id) spec.plans;
    finding_ids = map (λ (f : FindingSpec). f.id) spec.gold_findings;
    derived = spec.derived_nodes;
    query_ids = map (λ (q : QuerySpec). q.id) spec.context_gold;
  }

  -- `__init__`
  unfoldable pub make_builder : Spec → Built FixtureBuilder
  unfolding builder_with load_kinds
  make_builder spec = do kinds ← load_kinds spec.state_records []; built (builder_with spec kinds)

-- `_ref`; `None` is `nothing`
unfoldable pub make_ref : FixtureBuilder → String → String → Value → Value
make_ref b logical_id kind version_id = instance_of "ResourceRef" (
    attr "project_id" (Value.str b.project_id) (
      attr "book_id" (Value.str b.book_id) (
        attr "branch_id" (Value.str b.branch_id) (
          attr "logical_id" (Value.str logical_id)
            (attr "kind" (member "ResourceKind" kind) (attr "version_id" version_id Attrs.end))))))

abbrev pub version_value : Option String → Built Value → (String → Value) → Built Value
version_value none missing f = missing
version_value (some v) missing f = built (f v)

unfoldable pub scene_ref : FixtureBuilder → String → Built Value
unfolding make_ref get
scene_ref b scene_id =
    version_value (get scene_id b.scene_version) (failed (key_error scene_id))
      (λ v. make_ref b scene_id "manuscript_scene" (Value.str v))

abbrev pub is_some {ℓ} : {A : Type ℓ} → Option A → Bool
is_some none = false
is_some (some a) = true

-- the reference to a state record of a kind
unfoldable pub record_ref : FixtureBuilder → String → Option String → Built Value
unfolding make_ref record_kind_to_resource
record_ref b target_id none = failed (cannot_resolve target_id)
record_ref b target_id (some kind) =
    version_value (record_kind_to_resource kind) (failed (key_error kind))
      (λ resource. make_ref b target_id resource nothing)

-- `bool(prefix match)` of `target_id.startswith("entity:")`
unfoldable pub resolve_target : FixtureBuilder → String → Built Value
unfolding make_ref scene_ref record_ref get is_prefix
resolve_target b target_id =
    if str_eq target_id "book"
    then built (make_ref b "book" "manuscript_book" (Value.str b.revision_id))
    else if is_some (get target_id b.scene_text)
    then scene_ref b target_id
    else if is_some (get target_id b.record_kinds)
    then record_ref b target_id (get target_id b.record_kinds)
    else if contains target_id b.plan_ids
    then built (make_ref b target_id "plan" nothing)
    else if contains target_id b.finding_ids
    then built (make_ref b target_id "finding" nothing)
    else if contains target_id b.derived
    then built (make_ref b target_id "summary" nothing)
    else if contains target_id b.query_ids
    then built (make_ref b target_id "context_packet" nothing)
    else if is_prefix "entity:" target_id
    then built (make_ref b target_id "entity" nothing)
    else failed (cannot_resolve target_id)
