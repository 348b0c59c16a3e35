-- ===== src/Fixture/Build.antt =====
-- `FixtureBuilder.build` and `build_fixture`.
use litharness_contracts.Prelude.{find, String, ◌≡◌, refl, some, List, [], ◌∷◌, map, subst}
use litharness_contracts.Outcome.{Result, ok, err}
use litharness_contracts.Json.{Json}
use litharness_contracts.Value.{Value, Values}
use litharness_contracts.Types.{Ty}
use litharness_contracts.Runtime.{Runtime}
use litharness_contracts.Serde.Encode.{to_jsonable}
use litharness_contracts.Contracts.Registry.{all_schema_types}
use litharness_contracts.Contracts.Manuscript.{manuscript_revision}
use litharness_contracts.Contracts.Plans.{plan_snapshot}
use litharness_contracts.Contracts.State.{state_snapshot}
use litharness_contracts.Contracts.Evaluation.{evaluation_artifact}
use litharness_contracts.Contracts.Goldens.{gold_context_suite, gold_impact_suite}
use litharness_contracts.Fixture.Spec.{Spec}
use litharness_contracts.Fixture.Errors.{
  Built, built, failed, not_serialized, ◌>>=◌, bind_built, built-injective, each, Yields, yields,
  raises, Yields-built, Yields-bind, Yields-of,
}
use litharness_contracts.Fixture.Builder.{Digests, FixtureBuilder, make_builder}
use litharness_contracts.Fixture.Parts.{Fits}
use litharness_contracts.Fixture.Meta.{HasMeta, IsWritten, HasMeta-IsWritten}
use litharness_contracts.Fixture.Manuscript.{manuscript}
use litharness_contracts.Fixture.Plans.{plans, plans-Fits, plan_item_of}
use litharness_contracts.Fixture.States.{state, state-Fits, state_record_of}
use litharness_contracts.Fixture.Findings.{findings, findings-Fits, finding_of}
use litharness_contracts.Fixture.Contexts.{context_gold, context_gold-Fits, context_case}
use litharness_contracts.Fixture.Impacts.{impact_gold, impact_case}
use litharness_contracts.Fixture.Impacts.Typed.{impact_gold-Fits}
use litharness_contracts.Fixture.Whole.{manuscript_built}
use litharness_contracts.Fixture.Accessor.{golden_filenames}

abbrev pub dumped : Result Json → Built Json
dumped (ok x) = built x
dumped (err e) = failed (not_serialized e)

-- `to_jsonable` of what a method builds
unfoldable pub payload_of : Built Value → Built Json
payload_of artifact = do v ← artifact; dumped (to_jsonable v)

module _ (dg : Digests) where
  unfoldable pub build : FixtureBuilder → Built (List (String × Json))
  unfolding payload_of
  build b = do
    m ← payload_of (manuscript dg b)
    p ← payload_of (plans dg b)
    s ← payload_of (state dg b)
    f ← payload_of (findings dg b)
    c ← payload_of (context_gold dg b)
    i ← payload_of (impact_gold dg b)
    built (
        ("manuscript.json", m)
        ∷ ("plans.json", p)
        ∷ ("state.json", s)
        ∷ ("findings.json", f)
        ∷ ("context_gold.json", c)
        ∷ ("impact_gold.json", i)
        ∷ [])

  unfoldable pub build_fixture : Spec → Built (List (String × Json))
  unfolding build
  build_fixture spec = do b ← make_builder dg spec; build b

-- What a call builds has the builder's envelope.
abbrev Enveloped : Digests → FixtureBuilder → Built Value → Type 0
Enveloped dg b r = Yields (HasMeta dg b) r

after_each :
    {A : Type 0} (dg : Digests) (b : FixtureBuilder) (make : A → Built Value) (items : List A)
    (next : Values → Built Value)
    → ((vs : Values) → Enveloped dg b (next vs))
    → Enveloped dg b (each make items >>= next)
after_each dg b make items next h =
    Yields-bind (Yields-of (λ vs. Unit {0}) (each make items) (λ vs e. tt)) (λ vs _. h vs)

module _ (dg : Digests) (b : FixtureBuilder) where
  plans-Enveloped : Enveloped dg b (plans dg b)
  unfolding plans
  plans-Enveloped =
      after_each dg b plan_item_of b.spec.plans _
        (λ items. yields ("PlanSnapshot", "plan_snapshot", "r1", _, refl))

  state-Enveloped : Enveloped dg b (state dg b)
  unfolding state
  state-Enveloped =
      after_each dg b (state_record_of dg b) b.spec.state_records _
        (λ items. yields ("StateSnapshot", "state_snapshot", "r1", _, refl))

  findings-Enveloped : Enveloped dg b (findings dg b)
  unfolding findings
  findings-Enveloped =
      after_each dg b (finding_of dg b) b.spec.gold_findings _
        (λ items. yields ("EvaluationArtifact", "evaluation_artifact", "gold", _, refl))

  context_gold-Enveloped : Enveloped dg b (context_gold dg b)
  unfolding context_gold
  context_gold-Enveloped =
      after_each dg b (context_case dg b) b.spec.context_gold _
        (λ items. yields ("GoldContextSuite", "gold_context_suite", "r1", _, refl))

  impact_gold-Enveloped : Enveloped dg b (impact_gold dg b)
  unfolding impact_gold
  impact_gold-Enveloped =
      after_each dg b (impact_case dg b) b.spec.impact_gold _
        (λ items. yields ("GoldImpactSuite", "gold_impact_suite", "r1", _, refl))

-- Each method built an artifact, and its payload is what is written of it and read back.
abbrev pub AllWritten : Runtime → List Ty → List (Built Value) → List (String × Json) → Type 0
AllWritten rt [] [] [] = Unit
AllWritten rt (t ∷ types) (r ∷ results) ((name, x) ∷ files) =
    ((v : Value) × (r ≡ built v) × IsWritten rt t v x) × AllWritten rt types results files
AllWritten rt _ _ _ = ⊥

abbrev pub written_types : List Ty
written_types =
    manuscript_revision ∷ plan_snapshot ∷ state_snapshot ∷ evaluation_artifact ∷ gold_context_suite
    ∷ gold_impact_suite ∷ []

abbrev pub artifacts : Digests → FixtureBuilder → List (Built Value)
artifacts dg b =
    manuscript dg b
    ∷ plans dg b
    ∷ state dg b
    ∷ findings dg b
    ∷ context_gold dg b
    ∷ impact_gold dg b
    ∷ []

payload_of-IsWritten :
    (rt : Runtime) (dg : Digests) (b : FixtureBuilder) (n : String) (t : Ty) (r : Built Value)
    (x : Json)
    → find n all_schema_types ≡ some t
    → Yields (Fits t) r
    → Enveloped dg b r
    → payload_of r ≡ built x
    → (v : Value) × (r ≡ built v) × IsWritten rt t v x
unfolding payload_of
payload_of-IsWritten rt dg b n t r x registered (yields {a} fit) meta h =
    let (y, typed, w, read) = HasMeta-IsWritten rt dg b n t a registered fit (Yields-built meta) in
    let same : dumped (ok y) ≡ built x = rw w at h in (a, refl, (typed, cc, cc))
payload_of-IsWritten rt dg b n t r x registered raises meta h = absurd (cc)

pub build_names :
    (dg : Digests) (b : FixtureBuilder) (files : List (String × Json))
    → build dg b ≡ built files
    → map (λ f. f.0) files ≡ golden_filenames
unfolding build
build_names dg b files h =
    let (m, hm, h1) = bind_built (payload_of (manuscript dg b)) _ h in
    let (p, hp, h2) = bind_built (payload_of (plans dg b)) _ h1 in
    let (s, hs, h3) = bind_built (payload_of (state dg b)) _ h2 in
    let (f, hf, h4) = bind_built (payload_of (findings dg b)) _ h3 in
    let (c, hc, h5) = bind_built (payload_of (context_gold dg b)) _ h4 in
    let (i, hi, h6) = bind_built (payload_of (impact_gold dg b)) _ h5 in
    subst (λ fs. map (λ f. f.0) fs ≡ golden_filenames) (built-injective h6) refl

pub build_fixture-names :
    (dg : Digests) (spec : Spec) (files : List (String × Json))
    → build_fixture dg spec ≡ built files
    → map (λ f. f.0) files ≡ golden_filenames
unfolding build_fixture
build_fixture-names dg spec files h =
    let (b, hb, h1) = bind_built (make_builder dg spec) _ h in build_names dg b files h1

manuscript-IsWritten :
    (rt : Runtime) (dg : Digests) (spec : Spec) (b : FixtureBuilder) (m : Json)
    → make_builder dg spec ≡ built b
    → payload_of (manuscript dg b) ≡ built m
    → (v : Value) × (manuscript dg b ≡ built v) × IsWritten rt manuscript_revision v m
unfolding payload_of
manuscript-IsWritten rt dg spec b m made h =
    let (v, e, typed, (x, w, read)) = manuscript_built rt dg spec b made in
    let same : dumped (ok x) ≡ built m = rw (e, w) at h in (v, e, (typed, cc, cc))

-- Where a made builder builds its files, these are the files that the accessor knows, in its order,
-- and each holds what is written of the artifact of its method, which has the contract type of the
-- file and is given back by `parse_artifact`.
pub build_written :
    (rt : Runtime) (dg : Digests) (spec : Spec) (b : FixtureBuilder) (files : List (String × Json))
    → make_builder dg spec ≡ built b
    → build dg b ≡ built files
    → (map (λ f. f.0) files ≡ golden_filenames) × AllWritten rt written_types (artifacts dg b) files
unfolding build find
build_written rt dg spec b files made h =
    let (m, hm, h1) = bind_built (payload_of (manuscript dg b)) _ h in
    let (p, hp, h2) = bind_built (payload_of (plans dg b)) _ h1 in
    let (s, hs, h3) = bind_built (payload_of (state dg b)) _ h2 in
    let (f, hf, h4) = bind_built (payload_of (findings dg b)) _ h3 in
    let (c, hc, h5) = bind_built (payload_of (context_gold dg b)) _ h4 in
    let (i, hi, h6) = bind_built (payload_of (impact_gold dg b)) _ h5 in
    subst
      (λ fs.
        (map (λ f. f.0) fs ≡ golden_filenames) × AllWritten rt written_types (artifacts dg b) fs)
      (built-injective h6)
      (
        refl,
        (
          manuscript-IsWritten rt dg spec b m made hm,
          (
            payload_of-IsWritten rt dg b "plan_snapshot" plan_snapshot (plans dg b) p refl
                (plans-Fits dg b) (plans-Enveloped dg b) hp,
            (
              payload_of-IsWritten rt dg b "state_snapshot" state_snapshot (state dg b) s refl
                  (state-Fits dg b) (state-Enveloped dg b) hs,
              (
                payload_of-IsWritten rt dg b "evaluation_artifact" evaluation_artifact
                    (findings dg b) f refl (findings-Fits dg b) (findings-Enveloped dg b) hf,
                (
                  payload_of-IsWritten rt dg b "gold_context_suite" gold_context_suite
                      (context_gold dg b) c refl (context_gold-Fits dg b)
                      (context_gold-Enveloped dg b) hc,
                  (
                    payload_of-IsWritten rt dg b "gold_impact_suite" gold_impact_suite
                        (impact_gold dg b) i refl (impact_gold-Fits dg b)
                        (impact_gold-Enveloped dg b) hi,
                    tt,
                  ),
                ),
              ),
            ),
          ),
        ),
      )
