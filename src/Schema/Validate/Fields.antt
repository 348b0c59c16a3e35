-- ===== src/Schema/Validate/Fields.antt =====
-- What is written of a class's attributes validates against the schema of the class.
use litharness_contracts.Prelude.{
  ℕ, ◌+◌, ◌≤◌, String, ◌≡◌, refl, ◌≢◌, ◌∙◌, Bool, true, false, Option, none, some, List, [], ◌∷◌,
  Bool-cases, inl, inr, arith, contains, contains_head, contains_tail, eq_refl,
}
use litharness_contracts.Outcome.{ok}
use litharness_contracts.Json.{Json, Entries, entry, lookup}
use litharness_contracts.Value.{Value, Attrs, nothing, attr}
use litharness_contracts.Types.{Ty, Fields, Default, field, missing, default, factory, names}
use litharness_contracts.Serde.Encode.{to_jsonable, dump_attrs}
use litharness_contracts.Serde.Typing.{absent_is_none}
use litharness_contracts.Serde.Lookup.{
  nothing-cases, dump_attrs-some, Agree, Agree-entry, lookup-entry_ne,
}
use litharness_contracts.Serde.RoundTrip.{contains-split}
use litharness_contracts.Schema.Generate.{is_required, required_names, texts, class_body}
use litharness_contracts.Schema.Validate.{
  valid_in, keyword_of, all_properties, all_others, at_property, is_there, all_there, follow,
  type_holds, required_holds, others_hold,
}
use litharness_contracts.Schema.Validate.Shape.{shape, shapes, class_schema}

pub all_others-true : (known : String → Bool) (m : Entries) → all_others known (λ x. true) m ≡ true
all_others-true known Entries.end = refl
all_others-true known (entry k x m) = ground (arith, all_others-true known m)

body-valid :
    (refers : String → Json → Bool) (ps : Entries) (required : List String) (m : Entries)
    → all_properties refers ps (Json.dict m) ≡ true
    → all_there (texts required) m ≡ true
    → valid_in refers (Json.dict (class_body ps required)) (Json.dict m) ≡ true
unfolding valid_in keyword_of class_body type_holds required_holds others_hold
body-valid refers ps [] m hp hr = rw (hp, all_others-true _ m) refl
body-valid refers ps (n ∷ required) m hp hr = rw (hp, all_others-true _ m, hr) refl

-- The data is an object, valid against the schema of the class wherever references are followed deep
-- enough.
pub class_schema-valid :
    (refers : String → Json → Bool) (fs : Fields) (m : Entries)
    → all_properties refers (shapes fs) (Json.dict m) ≡ true
    → all_there (texts (required_names fs)) m ≡ true
    → valid_in refers (class_schema fs) (Json.dict m) ≡ true
class_schema-valid refers fs m hp hr = body-valid refers (shapes fs) (required_names fs) m hp hr

absent-is_required : (t : Ty) (d : Default) → absent_is_none t d ≡ true → is_required t d ≡ false
unfolding is_required
absent-is_required t missing h = rw h refl
absent-is_required t (default v) h = refl
absent-is_required t (factory v) h = refl

-- The data is written of the value, and is valid against the schema wherever references are
-- followed deep enough.
abbrev pub Validates : Entries → ℕ → Json → Value → Type 0
Validates d k s v =
    (x : Json) × (to_jsonable v ≡ ok x) × ((n : ℕ) → k ≤ n → valid_in (follow n d) s x ≡ true)

-- The same of attributes. `whole` is the object that they are a part of.
abbrev pub FieldsValidate : Entries → ℕ → Fields → Attrs → Type 0
FieldsValidate d k fs ats =
    (m : Entries) × (dump_attrs ats ≡ ok m)
    × ((j : String) → contains j (names fs) ≡ false → lookup j m ≡ none)
    × ((whole : Entries)
        → Agree (names fs) whole m
        → (all_there (texts (required_names fs)) whole ≡ true)
          × ((n : ℕ) → k ≤ n → all_properties (follow n d) (shapes fs) (Json.dict whole) ≡ true))

all_there-cons :
    (n : String) (t : Ty) (def : Default) (fs : Fields) (m : Entries)
    → (is_required t def ≡ true → is_there (lookup n m) ≡ true)
    → all_there (texts (required_names fs)) m ≡ true
    → all_there (texts (required_names (field n t def fs))) m ≡ true
unfolding required_names
all_there-cons n t def fs m here later = elim (Bool-cases (is_required t def)) [
  | inl req ↦ rw (req, here req) later
  | inr not_req ↦ rw not_req later
]

all_properties-cons :
    (refers : String → Json → Bool) (n : String) (t : Ty) (def : Default) (fs : Fields)
    (m : Entries) {o : Option Json}
    → lookup n m ≡ o
    → at_property (valid_in refers (shape t)) o ≡ true
    → all_properties refers (shapes fs) (Json.dict m) ≡ true
    → all_properties refers (shapes (field n t def fs)) (Json.dict m) ≡ true
unfolding valid_in shape
all_properties-cons refers n t def fs m e here later = rw (e, here) later

-- One more attribute in front. One that is `None` is not written.
pub field-Validates :
    (d : Entries) (n : String) (t : Ty) (def : Default) (fs : Fields) (v : Value) (ats : Attrs)
    (k j : ℕ)
    → contains n (names fs) ≡ false
    → (v ≡ nothing → absent_is_none t def ≡ true)
    → (v ≢ nothing → Validates d k (shape t) v)
    → FieldsValidate d j fs ats
    → FieldsValidate d (k + j) (field n t def fs) (attr n v ats)
unfolding to_jsonable
field-Validates d n t def fs v ats k j fresh drop here (m, es, out, later) =
    elim (nothing-cases v) [
      | inl is ↦ (
        m,
        rw is es,
        λ i h. out i (contains-split i n (names fs) h).1,
        λ whole agree.
            let rest = later whole (λ i hi. agree i (contains_tail i n (names fs) hi)) in
            let lacks = agree n (contains_head n (names fs)) ∙ out n fresh in
            let optional = absent-is_required t def (drop is) in
            (
              all_there-cons n t def fs whole (λ req. absurd (cc)) rest.0,
              λ i le.
                  all_properties-cons (follow i d) n t def fs whole lacks refl
                    (rest.1 i (omega arith)),
            ),
      )
      | inr not_none ↦
          let (x, e, valid) = here not_none in
          (
            entry n x m,
            dump_attrs-some n v ats not_none e es,
            λ i h.
                let (other_name, other_names) = contains-split i n (names fs) h in
                lookup-entry_ne i n x m other_name ∙ out i other_names,
            λ whole agree.
                let after = Agree-entry (names fs) n x m fresh in
                let rest =
                  later whole (λ i hi. agree i (contains_tail i n (names fs) hi) ∙ after i hi) in
                let first : lookup n (entry n x m) ≡ some x = rw (eq_refl n) refl in
                let has = agree n (contains_head n (names fs)) ∙ first in
                (
                  all_there-cons n t def fs whole (λ req. rw has refl) rest.0,
                  λ i le.
                      all_properties-cons (follow i d) n t def fs whole has (valid i (omega arith))
                        (rest.1 i (omega arith)),
                ),
          )
    ]
