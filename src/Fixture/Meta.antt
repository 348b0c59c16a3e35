-- ===== src/Fixture/Meta.antt =====
-- Artifacts with the builder's envelope are written, and read back by `parse_artifact`.
use litharness_contracts.Prelude.{find, String, ◌≡◌, refl, true, some, []}
use litharness_contracts.Outcome.{ok, bind_returned, ok-injective}
use litharness_contracts.Json.{Json}
use litharness_contracts.Value.{Value, Attrs, attr, instance_of}
use litharness_contracts.Types.{Ty}
use litharness_contracts.Runtime.{Runtime}
use litharness_contracts.Serde.Encode.{to_jsonable, dump_attrs}
use litharness_contracts.Serde.Typing.{HasType}
use litharness_contracts.Serde.Defaults.{fits, fits-HasType}
use litharness_contracts.Serde.Version.{
  schema_version, str_of, declared_schema_version, parse_artifact,
}
use litharness_contracts.Contracts.Registry.{all_schema_types}
use litharness_contracts.Contracts.Artifacts.{round_trip, parse_artifact-to_jsonable}
use litharness_contracts.Fixture.Builder.{Digests, FixtureBuilder, make_ref}
use litharness_contracts.Fixture.Manuscript.{make_meta}

-- The object's first attribute is a `meta` of the builder.
abbrev pub HasMeta : Digests → FixtureBuilder → Value → Type 0
HasMeta dg b v =
    (c kind name : String) × (rest : Attrs) × (v
      ≡ instance_of c (attr "meta" (make_meta dg b kind name) rest))

-- The object has the type, the data is what is written of it, and `parse_artifact` gives the object
-- back.
abbrev pub IsWritten : Runtime → Ty → Value → Json → Type 0
IsWritten rt t v x = HasType t v × (to_jsonable v ≡ ok x) × (parse_artifact rt t x ≡ ok v)

-- What is written declares the version of the package.
meta_declares :
    (rt : Runtime) (dg : Digests) (b : FixtureBuilder) (c kind name : String) (rest : Attrs)
    (x : Json)
    → to_jsonable (instance_of c (attr "meta" (make_meta dg b kind name) rest)) ≡ ok x
    → declared_schema_version rt x ≡ ok schema_version
unfolding make_meta make_ref to_jsonable declared_schema_version str_of
meta_declares rt dg b c kind name rest x h =
    let (out, e, is) =
      bind_returned (dump_attrs (attr "meta" (make_meta dg b kind name) rest)) _ h in
    let (m, _, is') = bind_returned (dump_attrs rest) _ e in
    rw (← ok-injective is, ← ok-injective is') refl

pub HasMeta-IsWritten :
    (rt : Runtime) (dg : Digests) (b : FixtureBuilder) (n : String) (t : Ty) (v : Value)
    → find n all_schema_types ≡ some t
    → fits t v ≡ true
    → HasMeta dg b v
    → (x : Json) × HasType t v × (to_jsonable v ≡ ok x) × (parse_artifact rt t x ≡ ok v)
HasMeta-IsWritten rt dg b n t v registered fit (c, kind, name, rest, is) =
    let typed = fits-HasType t v fit in
    let (x, w, r) = round_trip rt n t v [] registered typed in
    let declares = meta_declares rt dg b c kind name rest x (rw is at w) in
    (x, typed, w, parse_artifact-to_jsonable rt n t v x "2.0" registered typed w declares)
