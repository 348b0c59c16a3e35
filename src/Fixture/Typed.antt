-- ===== src/Fixture/Typed.antt =====
-- What the builder makes has its contract type.
use litharness_contracts.Prelude.{
  String, ◌≡◌, refl, ◌⊎◌, inl, inr, Bool, true, false, Option, none, some, some-eq, [], ◌∷◌, subst,
  if◌then◌else◌, str_eq, contains, Bool-cases, eq_iff, &&-true, all, List,
}
use litharness_contracts.Prelude.Int.{pos}
use litharness_contracts.Value.{Value, nothing}
use litharness_contracts.Types.{has_value}
use litharness_contracts.Serde.Typing.{HasType}
use litharness_contracts.Contracts.Ids.{resource_ref, resource_kind, evidence_span}
use litharness_contracts.Fixture.Text.{is_prefix, slice}
use litharness_contracts.Fixture.Errors.{FixtureError, Built, built, failed, cannot_resolve}
use litharness_contracts.Fixture.Builder.{
  Digests, FixtureBuilder, get, make_ref, scene_ref, record_ref, resolve_target, version_value,
  record_kind_to_resource, is_some,
}
use litharness_contracts.Fixture.Spans.{make_span, span, span_resolves, built-eq}

-- A version is a text or `None`.
abbrev IsVersion : Value → Type 0
IsVersion v = (v ≡ nothing) ⊎ ((s : String) × (v ≡ Value.str s))

pub make_ref-HasType :
    (b : FixtureBuilder) (id kind : String) (v : Value)
    → has_value resource_kind kind ≡ true
    → IsVersion v
    → HasType resource_ref (make_ref b id kind v)
unfolding HasType make_ref
make_ref-HasType b id kind v h w = (
  _,
  refl,
  (
    _,
    _,
    refl,
    (b.project_id, refl),
    (
      _,
      _,
      refl,
      (b.book_id, refl),
      (
        _,
        _,
        refl,
        (b.branch_id, refl),
        (_, _, refl, (id, refl), (_, _, refl, (kind, refl, h), (v, _, refl, version w, refl))),
      ),
    ),
  ),
)
  where
    version : IsVersion v → ((true ≡ true) × (v ≡ nothing)) ⊎ ((s : String) × (v ≡ Value.str s))
    version (inl is) = inl (refl, is)
    version (inr (s, is)) = inr (s, is)

-- `v` is a reference of the builder `b` to the id, of a known kind.
abbrev pub Refers : FixtureBuilder → String → Value → Type 0
Refers b id v =
    (kind : String) × (version : Value) × (v ≡ make_ref b id kind version)
    × (has_value resource_kind kind ≡ true)
    × ((version ≡ nothing) ⊎ ((s : String) × (version ≡ Value.str s)))

pub Refers-HasType :
    (b : FixtureBuilder) (id : String) (v : Value) → Refers b id v → HasType resource_ref v
Refers-HasType b id v (kind, version, is, known, w) =
    rw is (make_ref-HasType b id kind version known w)

get-all :
    (test : String → Bool) (k : String) (l : List (String × String)) (r : String)
    → all (λ p. test p.1) l ≡ true
    → get k l ≡ some r
    → test r ≡ true
unfolding get
get-all test k [] r h e = cc
get-all test k ((j, s) ∷ l) r h e =
    let (hs, hl) = &&-true (test s) (all (λ p. test p.1) l) h in
    elim (Bool-cases (str_eq j k)) [
      | inl same ↦ subst (λ t. test t ≡ true) (some-eq (rw same at e)) hs
      | inr other ↦ get-all test k l r hl (rw other at e)
    ]

resource-known :
    (kind r : String) → record_kind_to_resource kind ≡ some r → has_value resource_kind r ≡ true
unfolding record_kind_to_resource
resource-known kind r h = get-all (has_value resource_kind) kind _ r refl h

pub if_built :
    (c : Bool) (x y : Built Value) (v : Value) {P : Type 0}
    → (c ≡ true → x ≡ built v → P)
    → (c ≡ false → y ≡ built v → P)
    → (if c then x else y) ≡ built v
    → P
if_built true x y v f g h = f refl h
if_built false x y v f g h = g refl h

pub failed-ne : (e : FixtureError) (v : Value) → failed e ≡ built v → ⊥
failed-ne e v h = cc

pub version_value-built :
    (o : Option String) (e : Built Value) (f : String → Value) (v : Value)
    → (e ≡ built v → ⊥)
    → version_value o e f ≡ built v
    → (s : String) × (o ≡ some s) × (v ≡ f s)
version_value-built none e f v never h = absurd (never h)
version_value-built (some s) e f v never h = (s, refl, built-eq h)

pub scene_ref-Refers :
    (b : FixtureBuilder) (id : String) (v : Value) → scene_ref b id ≡ built v → Refers b id v
unfolding scene_ref
scene_ref-Refers b id v h =
    let (s, _, is) = version_value-built (get id b.scene_version) _ _ v (λ e. cc) h in
    ("manuscript_scene", Value.str s, is, refl, inr (s, refl))

record_ref-Refers :
    (b : FixtureBuilder) (id : String) (o : Option String) (v : Value)
    → record_ref b id o ≡ built v
    → Refers b id v
unfolding record_ref
record_ref-Refers b id none v h = absurd (cc)
record_ref-Refers b id (some kind) v h =
    let (r, e, is) = version_value-built (record_kind_to_resource kind) _ _ v (λ e. cc) h in
    (r, nothing, is, resource-known kind r e, inl refl)

-- a reference with no version
plain_Refers :
    (b : FixtureBuilder) (id kind : String) (v : Value)
    → has_value resource_kind kind ≡ true
    → built (make_ref b id kind nothing) ≡ built v
    → Refers b id v
plain_Refers b id kind v known h = (kind, nothing, built-eq h, known, inl refl)

book_Refers :
    (b : FixtureBuilder) (id : String) (v : Value)
    → str_eq id "book" ≡ true
    → built (make_ref b "book" "manuscript_book" (Value.str b.revision_id)) ≡ built v
    → Refers b id v
book_Refers b id v same h = (
  "manuscript_book",
  Value.str b.revision_id,
  rw ((eq_iff id "book").0 same) (built-eq h),
  refl,
  inr (b.revision_id, refl),
)

resolve-Refers :
    (b : FixtureBuilder) (id : String) (v : Value) → resolve_target b id ≡ built v → Refers b id v
unfolding resolve_target
resolve-Refers b id v h =
    if_built (str_eq id "book") _ _ v (book_Refers b id v)
      (λ _.
        if_built (is_some (get id b.scene_text)) _ _ v (λ _. scene_ref-Refers b id v)
          (λ _.
            if_built (is_some (get id b.record_kinds)) _ _ v
              (λ _. record_ref-Refers b id (get id b.record_kinds) v)
              (λ _.
                if_built (contains id b.plan_ids) _ _ v (λ _. plain_Refers b id "plan" v refl)
                  (λ _.
                    if_built (contains id b.finding_ids) _ _ v
                      (λ _. plain_Refers b id "finding" v refl)
                      (λ _.
                        if_built (contains id b.derived) _ _ v
                          (λ _. plain_Refers b id "summary" v refl)
                          (λ _.
                            if_built (contains id b.query_ids) _ _ v
                              (λ _. plain_Refers b id "context_packet" v refl)
                              (λ _.
                                if_built (is_prefix "entity:" id) _ _ v
                                  (λ _. plain_Refers b id "entity" v refl)
                                  (λ _ e. absurd (failed-ne (cannot_resolve id) v e)))))))))
      h

-- Whatever a target id resolves to is a reference of this fixture to that id, of a known kind and
-- with a text or nothing as its version, and has the contract type of references.
pub resolve_target-Refers :
    (b : FixtureBuilder) (id : String) (v : Value)
    → resolve_target b id ≡ built v
    → HasType resource_ref v × Refers b id v
resolve_target-Refers b id v h =
    let refers = resolve-Refers b id v h in (Refers-HasType b id v refers, refers)

-- Every span that the builder makes has the contract type of evidence spans.
pub span-HasType :
    (dg : Digests) (b : FixtureBuilder) (scene_id quote : String) (v : Value)
    → span dg b scene_id quote ≡ built v
    → HasType evidence_span v
unfolding HasType make_span
span-HasType dg b scene_id quote v h =
    let (text, source, start, end, e, r, cited, is) = span_resolves dg b scene_id quote v h in
    let typed = Refers-HasType b scene_id source (scene_ref-Refers b scene_id source r) in
    (
      _,
      is,
      (
        _,
        _,
        refl,
        typed,
        (
          _,
          _,
          refl,
          (pos start, refl),
          (
            _,
            _,
            refl,
            (pos end, refl),
            (
              _,
              _,
              refl,
              (dg.sha256_text (slice text start end), refl),
              (_, _, refl, inl (refl, refl), (_, _, refl, inl (refl, refl), refl)),
            ),
          ),
        ),
      ),
    )
