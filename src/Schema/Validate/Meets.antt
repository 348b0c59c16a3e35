-- ===== src/Schema/Validate/Meets.antt =====
-- What a schema that is met says of the data.
use Prim.Native.String.{◌++◌ as append}
use litharness_contracts.Prelude.{
  ℕ, zero, suc, String, ◌≡◌, refl, ◌∙◌, sym, Bool, true, ◌&&◌, some, List, [], ◌∷◌, map, Bool-cases,
  inl, inr, &&-true,
}
use litharness_contracts.Json.{Json, Entries, lookup}
use litharness_contracts.Types.{Ty, Fields, Default, EnumClass, field}
use litharness_contracts.Schema.Generate.{
  is_required, required_names, texts, enum_schema, class_body, reference,
}
use litharness_contracts.Schema.Validate.{
  valid_in, keyword_of, all_properties, is_there, is_named, all_others, all_there, follow,
  follow-some, pointed, type_holds, enum_holds, required_holds,
}
use litharness_contracts.Schema.Validate.Shape.{shapes, class_schema}

-- What the schema of a class says of an object.
abbrev pub Meets : (String → Json → Bool) → Entries → List String → Entries → Type 0
Meets refers ps required m =
    (all_properties refers ps (Json.dict m) ≡ true) × (all_there (texts required) m ≡ true)

pub required-Meets :
    (refers : String → Json → Bool) (n : String) (required : List String) (ps m : Entries)
    → (all_properties refers ps (Json.dict m)
        && (all_others (is_named (some (Json.dict ps))) (λ x. true) m
            && ((is_there (lookup n m) && all_there (texts required) m) && true)))
      ≡ true
    → Meets refers ps (n ∷ required) m
required-Meets refers n required ps m h =
    let (hp, rest) = &&-true (all_properties refers ps (Json.dict m)) _ h in
    let (_, last) = &&-true (all_others (is_named (some (Json.dict ps))) (λ x. true) m) _ rest in
    (hp, (&&-true (is_there (lookup n m) && all_there (texts required) m) true last).0)

pub body-Meets :
    (refers : String → Json → Bool) (ps : Entries) (required : List String) (x : Json)
    → valid_in refers (Json.dict (class_body ps required)) x ≡ true
    → (m : Entries) × (x ≡ Json.dict m) × Meets refers ps required m
unfolding valid_in keyword_of class_body type_holds required_holds
body-Meets refers ps [] (Json.dict m) h =
    (m, refl, ((&&-true (all_properties refers ps (Json.dict m)) _ h).0, refl))
body-Meets refers ps (n ∷ required) (Json.dict m) h =
    (m, refl, required-Meets refers n required ps m h)
body-Meets refers ps [] Json.null h = absurd (cc)
body-Meets refers ps [] _ h = absurd (cc)
body-Meets refers ps (n ∷ required) Json.null h = absurd (cc)
body-Meets refers ps (n ∷ required) _ h = absurd (cc)

pub required-split :
    (n : String) (t : Ty) (def : Default) (fs : Fields) (m : Entries)
    → all_there (texts (required_names (field n t def fs))) m ≡ true
    → (is_required t def ≡ true → is_there (lookup n m) ≡ true)
      × (all_there (texts (required_names fs)) m ≡ true)
unfolding required_names
required-split n t def fs m h = elim (Bool-cases (is_required t def)) [
  | inl req ↦
      let both : (is_there (lookup n m) && all_there (texts (required_names fs)) m) ≡ true =
        rw req at h in
      let (here, rest) = &&-true (is_there (lookup n m)) _ both in (λ _. here, rest)
  | inr not_req ↦ (λ req. absurd (cc), rw not_req at h)
]

-- A reference is followed to the schema of a class.
pub class-Meets :
    (n : ℕ) (d : Entries) (c : String) (fs : Fields) (x : Json)
    → pointed (append "#/$defs/" c) d ≡ some (class_schema fs)
    → valid_in (follow n d) (reference c) x ≡ true
    → (k : ℕ) × (m : Entries) × (x ≡ Json.dict m)
      × Meets (follow k d) (shapes fs) (required_names fs) m
unfolding valid_in keyword_of reference follow
class-Meets zero d c fs x def h = absurd (cc)
class-Meets (suc n) d c fs x def h =
    let (go, _) = &&-true (follow (suc n) d (append "#/$defs/" c) x) true h in
    let (m, is, meets) =
      body-Meets (follow n d) (shapes fs) (required_names fs) x
        (sym (follow-some n d (append "#/$defs/" c) (class_schema fs) x def) ∙ go) in
    (n, m, is, meets)

pub enum-Meets :
    (n : ℕ) (d : Entries) (e : EnumClass) (x : Json)
    → pointed (append "#/$defs/" e.name) d ≡ some (enum_schema e)
    → valid_in (follow n d) (reference e.name) x ≡ true
    → enum_holds (Json.list (texts (map (λ p. p.1) e.members))) x ≡ true
unfolding valid_in keyword_of reference follow enum_schema
enum-Meets zero d e x def h = absurd (cc)
enum-Meets (suc n) d e x def h =
    let (go, _) = &&-true (follow (suc n) d (append "#/$defs/" e.name) x) true h in
    let body = sym (follow-some n d (append "#/$defs/" e.name) (enum_schema e) x def) ∙ go in
    let (_, rest) = &&-true (type_holds (Json.str "string") x) _ body in
    (&&-true (enum_holds (Json.list (texts (map (λ p. p.1) e.members))) x) true rest).0
