-- ===== src/Schema/Required.antt =====
-- The `required` keyword of a schema against the decoder.
use litharness_contracts.Prelude.{
  String, ◌≡◌, refl, ◌≢◌, true, false, Option, none, some, List, [], ◌∷◌, Bool-cases, inl, inr,
}
use litharness_contracts.Outcome.{
  Result, ok, err, at_path, missing_field, bind_returned, JsonPath, key,
}
use litharness_contracts.Json.{Json, Entries, lookup}
use litharness_contracts.Value.{Value, Attrs, nothing}
use litharness_contracts.Types.{
  Ty, Fields, Default, dataclass, field, missing, default, factory, is_optional,
}
use litharness_contracts.Runtime.{Runtime}
use litharness_contracts.Serde.Decode.{from_jsonable, load_fields, absent}
use litharness_contracts.Schema.Generate.{is_required, required_names}

-- Every name is a key of the payload.
abbrev pub Present : List String → Entries → Type 0
Present [] m = Unit
Present (n ∷ ns) m = (lookup n m ≢ none) × Present ns m

-- A field that the schema requires is one whose absence the decoder refuses, and any other field
-- has a value where it is absent.
pub required_iff_refused :
    (c n : String) (t : Ty) (d : Default) (p : JsonPath)
    → (is_required t d ≡ true → absent c n t d p ≡ err (at_path p (missing_field n c)))
      × (is_required t d ≡ false → (v : Value) × (absent c n t d p ≡ ok v))
unfolding is_required absent
required_iff_refused c n t missing p = elim (Bool-cases (is_optional t)) [
  | inl opt ↦ (rw opt (λ h. cc), λ h. (nothing, rw opt refl))
  | inr req ↦ (λ h. rw req refl, rw req (λ h. absurd (cc)))
]
required_iff_refused c n t (default v) p = (λ h. cc, λ h. (v, refl))
required_iff_refused c n t (factory v) p = (λ h. cc, λ h. (v, refl))

module _ (rt : Runtime) where
  rest_returned :
      (c n : String) (t : Ty) (d : Default) (fs : Fields) (p : JsonPath) (m : Entries) (ats : Attrs)
      → load_fields rt c (field n t d fs) p m ≡ ok ats
      → (rest : Attrs) × (load_fields rt c fs p m ≡ ok rest)
  unfolding from_jsonable
  rest_returned c n t d fs p m ats h =
      let (v, _, h1) = bind_returned (first (lookup n m)) _ h in
      let (rest, e, _) = bind_returned (load_fields rt c fs p m) _ h1 in (rest, e)
    where
      first : Option Json → Result Value
      first = elim [ some x ↦ from_jsonable rt t (key n ∷ p) x | none ↦ absent c n t d p ]

  required-Present :
      (c n : String) (t : Ty) (d : Default) (fs : Fields) (p : JsonPath) (m : Entries) (ats : Attrs)
      → is_required t d ≡ true
      → load_fields rt c (field n t d fs) p m ≡ ok ats
      → lookup n m ≢ none
  unfolding from_jsonable
  required-Present c n t d fs p m ats req h lacks =
      let refused = (required_iff_refused c n t d p).0 req in
      let bad : err (at_path p (missing_field n c)) ≡ ok ats = rw (lacks, refused) at h in cc

  load_fields-Present :
      (c : String) (fs : Fields) (p : JsonPath) (m : Entries) (ats : Attrs)
      → load_fields rt c fs p m ≡ ok ats
      → Present (required_names fs) m
  unfolding required_names
  load_fields-Present c Fields.end p m ats h = tt
  load_fields-Present c (field n t d fs) p m ats h =
      let (rest, e) = rest_returned c n t d fs p m ats h in
      let later = load_fields-Present c fs p m rest e in
      elim (Bool-cases (is_required t d)) [
        | inl req ↦ rw req (required-Present c n t d fs p m ats req h, later)
        | inr not_req ↦ rw not_req later
      ]

  -- A payload that decodes as a class has every key that the schema of the class requires.
  pub decoded-Present :
      (c : String) (fs : Fields) (p : JsonPath) (m : Entries) (v : Value)
      → from_jsonable rt (dataclass c fs) p (Json.dict m) ≡ ok v
      → Present (required_names fs) m
  unfolding from_jsonable
  decoded-Present c fs p m v h =
      let (ats, e, _) = bind_returned (load_fields rt c fs p m) _ h in
      load_fields-Present c fs p m ats e
