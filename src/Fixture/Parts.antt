-- ===== src/Fixture/Parts.antt =====
-- What the methods of `FixtureBuilder` share: enum members by value, `dict.get`, `bool`, lists of texts
-- and `_spans`; each with the type of what it gives.
use litharness_contracts.Prelude.{
  ℕ, String, ◌≡◌, refl, Bool, true, false, not, ◌&&◌, Option, none, some, List, [], ◌∷◌, ◌==◌, ◌*◌,
  ◌^◌, str_eq, if◌then◌else◌, Bool-cases, inl, inr, eq_refl,
}
use litharness_contracts.Prelude.Int.{pos, negsuc}
use litharness_contracts.Json.{Json, Items, Entries, entry}
use litharness_contracts.Value.{Value, Values, nothing, member, of_json, of_entries}
use litharness_contracts.Types.{Ty, EnumClass, any, enum, has_value, optional}
use litharness_contracts.Serde.Plain.{is_plain, plain-of_json}
use litharness_contracts.Serde.Defaults.{fits, all_values, all_attrs}
use litharness_contracts.Contracts.Ids.{resource_ref, evidence_span}
use litharness_contracts.Fixture.Errors.{
  Built, built, failed, not_a_value, each, Yields, yields, raises, Yields-bind, Yields-of,
}
use litharness_contracts.Fixture.Spec.{Citation}
use litharness_contracts.Fixture.Builder.{Digests, FixtureBuilder, resolve_target, make_ref}
use litharness_contracts.Fixture.Spans.{span, make_span, span_resolves}
use litharness_contracts.Fixture.Typed.{Refers, resolve_target-Refers, scene_ref-Refers}

-- `SomeEnum(value)`
unfoldable pub enum_value : EnumClass → String → Built Value
enum_value e s = if has_value e s then built (member e.name s) else failed (not_a_value e.name s)

-- `bool(x)`
unfoldable pub truthy : Json → Bool
truthy Json.null = false
truthy (Json.bool b) = b
truthy (Json.int (pos n)) = not (n == 0)
truthy (Json.int (negsuc n)) = true
truthy (Json.float x) = not (x.bits == 0) && not (x.bits == 2 ^ 63)
truthy (Json.str s) = not (str_eq s "")
truthy (Json.list Items.nil) = false
truthy (Json.list xs) = true
truthy (Json.dict Entries.end) = false
truthy (Json.dict m) = true

-- `bool(d.get(key, False))`
abbrev pub flag : Option Json → Bool
flag none = false
flag (some x) = truthy x

-- `d.get(key)` of a text, and of any data
unfoldable pub text_or_none : Option String → Value
text_or_none none = nothing
text_or_none (some s) = Value.str s

unfoldable pub data_or_none : Option Json → Value
data_or_none none = nothing
data_or_none (some x) = of_json x

unfoldable pub text_values : List String → Values
text_values [] = Values.nil
text_values (s ∷ texts) = Values.cons (Value.str s) (text_values texts)

-- the float 1.0
abbrev pub one : Value
one = Value.float (record { bits = 1023 * 2 ^ 52 })

-- `_spans`
unfoldable pub spans : Digests → FixtureBuilder → List Citation → Built Values
unfolding each
spans dg b items = each (λ c. span dg b c.scene c.quote) items

-- The value has the type, by the test for types.
abbrev pub Fits : Ty → Value → Type 0
Fits t v = fits t v ≡ true

abbrev pub AllFit : Ty → Values → Type 0
AllFit t vs = all_values (fits t) vs ≡ true

pub enum_value-Fits : (e : EnumClass) (s : String) → Yields (Fits (enum e)) (enum_value e s)
unfolding enum_value fits
enum_value-Fits e s = elim (Bool-cases (has_value e s)) [
  | inl has ↦ rw has (yields (rw (eq_refl e.name, has)))
  | inr lacks ↦ rw lacks raises
]

pub each-AllFit :
    {A : Type 0} (make : A → Built Value) (t : Ty) (items : List A)
    → ((a : A) → Yields (Fits t) (make a))
    → Yields (AllFit t) (each make items)
unfolding each
each-AllFit make t [] h = yields refl
each-AllFit make t (a ∷ items) h =
    Yields-bind (h a) λ v hv. Yields-bind (each-AllFit make t items h) λ vs hs. yields (rw (hv, hs))

pub text_or_none-Fits : (o : Option String) → Fits (optional Ty.str) (text_or_none o)
unfolding text_or_none fits
text_or_none-Fits none = refl
text_or_none-Fits (some s) = refl

pub data_or_none-Fits : (o : Option Json) → Fits any (data_or_none o)
unfolding data_or_none fits is_plain
data_or_none-Fits none = refl
data_or_none-Fits (some x) = plain-of_json x

pub text_values-AllFit : (texts : List String) → AllFit Ty.str (text_values texts)
unfolding text_values fits
text_values-AllFit [] = refl
text_values-AllFit (s ∷ texts) = text_values-AllFit texts

Refers-Fits : (b : FixtureBuilder) (id : String) (v : Value) → Refers b id v → Fits resource_ref v
unfolding fits make_ref
Refers-Fits b id v (kind, version, is, known, inl nothing_given) =
    rw (is, nothing_given, known) refl
Refers-Fits b id v (kind, version, is, known, inr (s, given)) = rw (is, given, known) refl

pub resolve_target-Fits :
    (b : FixtureBuilder) (id : String) → Yields (Fits resource_ref) (resolve_target b id)
resolve_target-Fits b id =
    Yields-of (Fits resource_ref) (resolve_target b id)
      λ v h. Refers-Fits b id v (resolve_target-Refers b id v h).1

make_span-Fits :
    (source : Value) (start end : ℕ) (digest : String)
    → Fits resource_ref source
    → Fits evidence_span (make_span source start end digest)
unfolding fits make_span
make_span-Fits source start end digest h = rw h

pub span-Fits :
    (dg : Digests) (b : FixtureBuilder) (scene_id quote : String)
    → Yields (Fits evidence_span) (span dg b scene_id quote)
span-Fits dg b scene_id quote = Yields-of (Fits evidence_span) (span dg b scene_id quote) λ v h.
    let (text, source, start, end, e, r, cited, is) = span_resolves dg b scene_id quote v h in
    let source_fits = Refers-Fits b scene_id source (scene_ref-Refers b scene_id source r) in
    rw is (make_span-Fits source start end _ source_fits)

pub spans-AllFit :
    (dg : Digests) (b : FixtureBuilder) (items : List Citation)
    → Yields (AllFit evidence_span) (spans dg b items)
unfolding spans
spans-AllFit dg b items = each-AllFit _ evidence_span items (λ c. span-Fits dg b c.scene c.quote)

-- A dict of JSON data.
pub entries-Fit : (m : Entries) → all_attrs (fits any) (of_entries m) ≡ true
unfolding fits of_json
entries-Fit Entries.end = refl
entries-Fit (entry k x m) = rw (plain-of_json x) (entries-Fit m)

pub text_or_none-plain : (o : Option String) → is_plain (text_or_none o) ≡ true
unfolding text_or_none is_plain
text_or_none-plain none = refl
text_or_none-plain (some s) = refl
