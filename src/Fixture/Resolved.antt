-- ===== src/Fixture/Resolved.antt =====
-- What a target id names in a fixture, and that `resolve_target` finds it.
use litharness_contracts.Prelude.{
  String, ◌≡◌, refl, subst, ◌∙◌, ap, Bool, true, false, ◌&&◌, ◌||◌, Option, some, none, List, [],
  ◌∷◌, contains, str_eq, some-eq, if◌then◌else◌, Bool-cases, inl, inr, &&-true, eq_iff, all, arith,
}
use litharness_contracts.Value.{Value, nothing}
use litharness_contracts.Serde.Typing.{HasType}
use litharness_contracts.Contracts.Ids.{resource_ref}
use litharness_contracts.Fixture.Spec.{Spec}
use litharness_contracts.Fixture.Text.{is_prefix}
use litharness_contracts.Fixture.Errors.{Built, built, failed, cannot_resolve}
use litharness_contracts.Fixture.Builder.{
  Digests, FixtureBuilder, get, make_builder, make_ref, scene_ref, record_ref, resolve_target,
  record_kind_to_resource, is_some,
}
use litharness_contracts.Fixture.Spans.{built-eq}
use litharness_contracts.Fixture.Total.{SameKeys, made-SameKeys}
use litharness_contracts.Fixture.Typed.{
  resolve_target-Refers, if_built, failed-ne, version_value-built,
}
use litharness_contracts.Fixture.Buildable.{resolvable, has_resource}
use litharness_contracts.Fixture.Buildable.Parts.{is_built, resolve_target-is_built}

-- The resource of a state record: an event is called a state event, any other has the name of its
-- kind.
abbrev pub resource_name : String → String
resource_name kind = if str_eq kind "event" then "state_event" else kind

abbrev pub known_kinds : List String
known_kinds = "assertion" ∷ "event" ∷ "relationship" ∷ "knowledge" ∷ "thread" ∷ "world_rule" ∷ []

-- The id names a resource of the fixture, of a kind and with a version.
pub data Names (b : FixtureBuilder) (id : String) : String → Value → Type 0 where
  names_book : id ≡ "book" → Names b id "manuscript_book" (Value.str b.revision_id)
  names_scene :
      (version : String)
      → get id b.scene_version ≡ some version
      → Names b id "manuscript_scene" (Value.str version)
  names_record :
      (kind resource : String)
      → get id b.record_kinds ≡ some kind
      → contains kind known_kinds ≡ true
      → resource ≡ resource_name kind
      → Names b id resource nothing
  names_plan : contains id b.plan_ids ≡ true → Names b id "plan" nothing
  names_finding : contains id b.finding_ids ≡ true → Names b id "finding" nothing
  names_derived : contains id b.derived ≡ true → Names b id "summary" nothing
  names_query : contains id b.query_ids ≡ true → Names b id "context_packet" nothing
  names_entity : is_prefix "entity:" id ≡ true → Names b id "entity" nothing

-- `v` is the reference to a resource that the id names.
abbrev pub Resolves : FixtureBuilder → String → Value → Type 0
Resolves b id v =
    (kind : String) × (version : Value) × (v ≡ make_ref b id kind version) × Names b id kind version

get-test :
    (test : String → String → Bool) (k : String) (l : List (String × String)) (r : String)
    → all (λ p. test p.0 p.1) l ≡ true
    → get k l ≡ some r
    → test k r ≡ true
unfolding get
get-test test k [] r h e = cc
get-test test k ((j, s) ∷ l) r h e =
    let (hs, hl) = &&-true (test j s) (all (λ p. test p.0 p.1) l) h in
    elim (Bool-cases (str_eq j k)) [
      | inl same ↦
          subst (λ i. test i r ≡ true) ((eq_iff j k).0 same)
            (subst (λ t. test j t ≡ true) (some-eq (rw same at e)) hs)
      | inr other ↦ get-test test k l r hl (rw other at e)
    ]

abbrev fits_kind : String → String → Bool
fits_kind kind resource = contains kind known_kinds && str_eq resource (resource_name kind)

resource-Names :
    (b : FixtureBuilder) (id kind r : String)
    → get id b.record_kinds ≡ some kind
    → record_kind_to_resource kind ≡ some r
    → Names b id r nothing
unfolding record_kind_to_resource
resource-Names b id kind r e h =
    let (known, is) =
      &&-true (contains kind known_kinds) (str_eq r (resource_name kind))
        (get-test fits_kind kind _ r refl h) in
    names_record kind r e known ((eq_iff r (resource_name kind)).0 is)

record-Resolves :
    (b : FixtureBuilder) (id : String) (o : Option String) (v : Value)
    → get id b.record_kinds ≡ o
    → record_ref b id o ≡ built v
    → Resolves b id v
unfolding record_ref
record-Resolves b id none v e h = absurd (cc)
record-Resolves b id (some kind) v e h =
    let (r, is, at) = version_value-built (record_kind_to_resource kind) _ _ v (λ x. cc) h in
    (r, nothing, at, resource-Names b id kind r e is)

scene-Resolves :
    (b : FixtureBuilder) (id : String) (v : Value) → scene_ref b id ≡ built v → Resolves b id v
unfolding scene_ref
scene-Resolves b id v h =
    let (s, e, is) = version_value-built (get id b.scene_version) _ _ v (λ x. cc) h in
    ("manuscript_scene", Value.str s, is, names_scene s e)

book-Resolves :
    (b : FixtureBuilder) (id : String) (v : Value)
    → str_eq id "book" ≡ true
    → built (make_ref b "book" "manuscript_book" (Value.str b.revision_id)) ≡ built v
    → Resolves b id v
book-Resolves b id v same h =
    let is = (eq_iff id "book").0 same in
    ("manuscript_book", Value.str b.revision_id, rw is (built-eq h), names_book is)

plain-Resolves :
    (b : FixtureBuilder) (id kind : String) (v : Value)
    → Names b id kind nothing
    → built (make_ref b id kind nothing) ≡ built v
    → Resolves b id v
plain-Resolves b id kind v named h = (kind, nothing, built-eq h, named)

resolves :
    (b : FixtureBuilder) (id : String) (v : Value) → resolve_target b id ≡ built v → Resolves b id v
unfolding resolve_target
resolves b id v h =
    if_built (str_eq id "book") _ _ v (book-Resolves b id v)
      (λ _.
        if_built (is_some (get id b.scene_text)) _ _ v (λ _. scene-Resolves b id v)
          (λ _.
            if_built (is_some (get id b.record_kinds)) _ _ v
              (λ _. record-Resolves b id (get id b.record_kinds) v refl)
              (λ _.
                if_built (contains id b.plan_ids) _ _ v
                  (λ is. plain-Resolves b id "plan" v (names_plan is))
                  (λ _.
                    if_built (contains id b.finding_ids) _ _ v
                      (λ is. plain-Resolves b id "finding" v (names_finding is))
                      (λ _.
                        if_built (contains id b.derived) _ _ v
                          (λ is. plain-Resolves b id "summary" v (names_derived is))
                          (λ _.
                            if_built (contains id b.query_ids) _ _ v
                              (λ is. plain-Resolves b id "context_packet" v (names_query is))
                              (λ _.
                                if_built (is_prefix "entity:" id) _ _ v
                                  (λ is. plain-Resolves b id "entity" v (names_entity is))
                                  (λ _ e. absurd (failed-ne (cannot_resolve id) v e)))))))))
      h

-- Whatever a target id resolves to is the reference, with its contract type, to a resource that the
-- id names: the book with the version of its revision, a scene with the version of its text, or,
-- with no version, a state record under the name of its kind, a plan, a finding, a summary for a
-- derived node, a context packet for a query, or an entity for an id that begins with `entity:`.
pub resolve_target-Resolves :
    (b : FixtureBuilder) (id : String) (v : Value)
    → resolve_target b id ≡ built v
    → HasType resource_ref v × Resolves b id v
resolve_target-Resolves b id v h = ((resolve_target-Refers b id v h).0, resolves b id v h)

-- Every state record with the id has a kind that has a resource.
abbrev pub RecordsAreKnown : FixtureBuilder → String → Type 0
RecordsAreKnown b id =
    (kind : String)
    → get id b.record_kinds ≡ some kind
    → is_some (record_kind_to_resource kind) ≡ true

is_some_get : (o : Option String) (s : String) → o ≡ some s → is_some o ≡ true
is_some_get o s h = rw h refl

one_holds :
    (book scene record_id other has : Bool)
    → (record_id ≡ true → has ≡ true)
    → (book || (scene || (record_id || other))) ≡ true
    → (if book || scene then true else if record_id then has else other) ≡ true
one_holds true scene r other has f h = refl
one_holds false true r other has f h = refl
one_holds false false true other has f h = f refl
one_holds false false false other has f h = h

known-has_resource :
    (b : FixtureBuilder) (id : String) (o : Option String)
    → RecordsAreKnown b id
    → get id b.record_kinds ≡ o
    → is_some o ≡ true
    → has_resource o ≡ true
unfolding has_resource
known-has_resource b id none known e h = h
known-has_resource b id (some kind) known e h = known kind e

-- An id with a known record, or with a resource of another kind, is resolvable.
known-resolvable :
    (b : FixtureBuilder) (id : String)
    → RecordsAreKnown b id
    → (str_eq id "book"
        || (is_some (get id b.scene_text)
            || (is_some (get id b.record_kinds)
                || (contains id b.plan_ids
                    || (contains id b.finding_ids
                        || (contains id b.derived
                            || (contains id b.query_ids || is_prefix "entity:" id)))))))
      ≡ true
    → resolvable b id ≡ true
unfolding resolvable
known-resolvable b id known h =
    one_holds (str_eq id "book") (is_some (get id b.scene_text)) (is_some (get id b.record_kinds)) _
      (has_resource (get id b.record_kinds))
      (known-has_resource b id (get id b.record_kinds) known refl) h

Names-resolvable :
    (b : FixtureBuilder) (id kind : String) (version : Value)
    → SameKeys b.scene_text b.scene_version
    → RecordsAreKnown b id
    → Names b id kind version
    → resolvable b id ≡ true
Names-resolvable b id kind version same known (names_book is) =
    let h = (eq_iff id "book").1 is in known-resolvable b id known (ground arith)
Names-resolvable b id kind version same known (names_scene v is) =
    let h : is_some (get id b.scene_text) ≡ true = same id ∙ is_some_get _ v is in
    known-resolvable b id known (ground arith)
Names-resolvable b id kind version same known (names_record k r is among name) =
    let h = is_some_get (get id b.record_kinds) k is in known-resolvable b id known (ground arith)
Names-resolvable b id kind version same known (names_plan is) =
    known-resolvable b id known (ground arith)
Names-resolvable b id kind version same known (names_finding is) =
    known-resolvable b id known (ground arith)
Names-resolvable b id kind version same known (names_derived is) =
    known-resolvable b id known (ground arith)
Names-resolvable b id kind version same known (names_query is) =
    known-resolvable b id known (ground arith)
Names-resolvable b id kind version same known (names_entity is) =
    known-resolvable b id known (ground arith)

-- The id names one resource at most.
abbrev pub NamesOne : FixtureBuilder → String → Type 0
NamesOne b id =
    (kind other : String) (version another : Value)
    → Names b id kind version
    → Names b id other another
    → (kind ≡ other) × (version ≡ another)

resolves_sole :
    (b : FixtureBuilder) (id kind : String) (version : Value) (r : Built Value)
    → resolve_target b id ≡ r
    → is_built r ≡ true
    → NamesOne b id
    → Names b id kind version
    → r ≡ built (make_ref b id kind version)
resolves_sole b id kind version (failed e) h returned one named = absurd (cc)
resolves_sole b id kind version (built v) h returned one named =
    let (other, another, is, found) = resolves b id v h in
    let (same_kind, same_version) = one other kind another version found named in
    ap (λ w. built w) is ∙ rw (same_kind, same_version) refl

-- On a made builder, an id that names one resource and no state record without a resource resolves
-- to the reference to that resource.
pub resolve_target_sole :
    (dg : Digests) (spec : Spec) (b : FixtureBuilder) (id kind : String) (version : Value)
    → make_builder dg spec ≡ built b
    → RecordsAreKnown b id
    → NamesOne b id
    → Names b id kind version
    → resolve_target b id ≡ built (make_ref b id kind version)
resolve_target_sole dg spec b id kind version made known one named =
    let same = made-SameKeys dg spec b made in
    resolves_sole b id kind version (resolve_target b id) refl
      (resolve_target-is_built dg b same id ∙ Names-resolvable b id kind version same known named)
      one named
