-- ===== src/Contracts/Artifacts.antt =====
-- What the serializer guarantees for the registered contract types.
use Prim.Native.String.{◌++◌ as append}
use litharness_contracts.Prelude.{
  find, ℕ, String, ◌≡◌, refl, true, some, [], if◌then◌else◌, ◌∙◌, Bool-cases, inl, inr,
}
use litharness_contracts.Outcome.{ok, JsonPath}
use litharness_contracts.Json.{Json}
use litharness_contracts.Value.{Value, member}
use litharness_contracts.Types.{Ty, EnumClass, has_value, enum}
use litharness_contracts.Runtime.{Runtime}
use litharness_contracts.Serde.Encode.{to_jsonable}
use litharness_contracts.Serde.Decode.{from_jsonable, load_enum}
use litharness_contracts.Serde.Typing.{HasType}
use litharness_contracts.Serde.RoundTrip.{from_jsonable-to_jsonable}
use litharness_contracts.Serde.Sound.{from_jsonable-HasType}
use litharness_contracts.Serde.Version.{declared_schema_version, parse_artifact}
use litharness_contracts.Serde.Gate.{major_one}
use litharness_contracts.Contracts.Registry.{all_schema_types, contract_enums}
use litharness_contracts.Contracts.Registered.{
  nth, registered-well_formed, registered-typed_defaults, exported-unknown,
}

-- The member's value that data stands for.
abbrev pub nearest : EnumClass → Json → String
nearest e (Json.str s) = if has_value e s then s else "unknown"
nearest e _ = "unknown"

module _ (rt : Runtime) where
  -- An object of a registered contract type is written to JSON data, and decoding that data at the
  -- same type, at any path, gives the object back.
  pub round_trip :
      (n : String) (t : Ty) (v : Value) (p : JsonPath)
      → find n all_schema_types ≡ some t
      → HasType t v
      → (x : Json) × (to_jsonable v ≡ ok x) × (from_jsonable rt t p x ≡ ok v)
  round_trip n t v p r h =
      let (x, e, l) = from_jsonable-to_jsonable rt t v (registered-well_formed n t r) h in
      (x, e, l p)

  -- Where an object of a registered contract type is written with a declared version `1.` and any
  -- rest, `parse_artifact` gives the object back.
  pub parse_artifact-to_jsonable :
      (n : String) (t : Ty) (v : Value) (x : Json) (rest : String)
      → find n all_schema_types ≡ some t
      → HasType t v
      → to_jsonable v ≡ ok x
      → declared_schema_version rt x ≡ ok (append "1." rest)
      → parse_artifact rt t x ≡ ok v
  parse_artifact-to_jsonable n t v x rest r h e d =
      let (y, f, l) = round_trip n t v [] r h in
      let same : y ≡ x = cc in major_one rt t x rest d ∙ rw (← same) l

  -- Whatever decodes at a registered contract type has that type, is written, and what is written
  -- decodes to the same object.
  pub decoded_stable :
      (n : String) (t : Ty) (v : Value) (p : JsonPath) (x : Json)
      → find n all_schema_types ≡ some t
      → from_jsonable rt t p x ≡ ok v
      → HasType t v × ((y : Json) × (to_jsonable v ≡ ok y) × (from_jsonable rt t p y ≡ ok v))
  decoded_stable n t v p x r h =
      let typed = from_jsonable-HasType rt t p x v (registered-typed_defaults n t r) h in
      (typed, round_trip n t v p r typed)

  -- Whatever the data, an exported enum decodes it, at any path, to one of its members: the member
  -- whose value is that text if there is one, and else the member `unknown`.
  pub enum_total :
      (i : ℕ) (e : EnumClass) (p : JsonPath) (x : Json)
      → nth i contract_enums ≡ some e
      → (from_jsonable rt (enum e) p x ≡ ok (member e.name (nearest e x)))
        × (has_value e (nearest e x) ≡ true)
  unfolding from_jsonable load_enum
  enum_total i e p (Json.str s) h =
      let known = exported-unknown i e h in
      elim (Bool-cases (has_value e s)) [
        | inl has ↦ (rw has refl, rw has has)
        | inr lacks ↦ (rw (lacks, known) refl, rw lacks known)
      ]
  enum_total i e p Json.null h = let known = exported-unknown i e h in (rw known refl, known)
  enum_total i e p x h = let known = exported-unknown i e h in (rw known refl, known)
