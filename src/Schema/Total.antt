-- ===== src/Schema/Total.antt =====
-- `json_schema` succeeds on the registered types.
use litharness_contracts.Prelude.{
  find, String, ◌≡◌, refl, Bool, true, false, ◌||◌, ◌==◌, Option, none, some, &&-true,
  if◌then◌else◌, contains, all,
}
use litharness_contracts.Json.{Json, Entries}
use litharness_contracts.Types.{
  Ty, Types, Fields, any, none_type, union, enum, dataclass, field, is_none_type, count_args, names,
}
use litharness_contracts.Serde.Typing.{
  well_formed, well_formed_sole, well_formed_fields, nullable, absent_is_none,
}
use litharness_contracts.Serde.RoundTrip.{field_facts}
use litharness_contracts.Schema.Generate.{
  type_schema, sole_schema, properties_schema, has_key, put, json_schema, ◌>>=◌,
}
use litharness_contracts.Contracts.Registry.{all_schema_types}
use litharness_contracts.Contracts.Registered.{all-find, registered-well_formed}

-- The call returns.
abbrev pub Returns : {A : Type 0} → Option A → Type 0
Returns {A} o = (a : A) × (o ≡ some a)

bind_Returns :
    {S T : Type 0} (o : Option S) (next : S → Option T)
    → Returns o
    → ((s : S) → Returns (next s))
    → Returns (o >>= next)
bind_Returns none next (s, e) k = absurd (cc)
bind_Returns (some s) next h k = k s

if_Returns :
    {S : Type 0} (b : Bool) (o r : Option S)
    → (b ≡ true → Returns o)
    → (b ≡ false → Returns r)
    → Returns (if b then o else r)
if_Returns true o r h k = h refl
if_Returns false o r h k = k refl

mutual
  unfolding type_schema well_formed

  type_Returns : (t : Ty) (defs : Entries) → well_formed t ≡ true → Returns (type_schema t defs)
  type_Returns any defs w = (_, refl)
  type_Returns none_type defs w = absurd (cc)
  type_Returns (union ts) defs w =
      let (one, ws) = &&-true (count_args ts == 1) (well_formed_sole ts) w in
      rw one (sole_Returns ts defs one ws)
  type_Returns (Ty.list t) defs w =
      bind_Returns (type_schema t defs) _ (type_Returns t defs w) (λ s. (_, refl))
  type_Returns (Ty.dict k t) defs w =
      bind_Returns (type_schema t defs) _ (type_Returns t defs w) (λ s. (_, refl))
  type_Returns (enum e) defs w = (_, refl)
  type_Returns (dataclass c fs) defs w =
      if_Returns (has_key c defs) _ _ (λ old. (_, refl))
        λ new.
          bind_Returns (properties_schema fs (put c (Json.dict Entries.end) defs)) _
            (fields_Returns fs (put c (Json.dict Entries.end) defs) w) (λ s. (_, refl))
  type_Returns Ty.bool defs w = (_, refl)
  type_Returns Ty.int defs w = (_, refl)
  type_Returns Ty.float defs w = (_, refl)
  type_Returns Ty.str defs w = (_, refl)
  type_Returns (Ty.other t) defs w = absurd (cc)

  sole_Returns :
      (ts : Types) (defs : Entries)
      → (count_args ts == 1) ≡ true
      → well_formed_sole ts ≡ true
      → Returns (sole_schema ts defs)
  sole_Returns Types.nil defs one w = absurd (cc)
  sole_Returns (Types.cons t ts) defs one w =
      let (wt, ws) = &&-true (is_none_type t || well_formed t) (well_formed_sole ts) w in
      if_Returns (is_none_type t) (sole_schema ts defs) (type_schema t defs)
        (λ is. sole_Returns ts defs (rw is at one) ws)
        (λ is_not. type_Returns t defs (rw is_not at wt))

  fields_Returns :
      (fs : Fields) (defs : Entries)
      → well_formed_fields fs ≡ true
      → Returns (properties_schema fs defs)
  fields_Returns Fields.end defs w = (_, refl)
  fields_Returns (field n t d fs) defs w =
      let (_, _, wt, ws) =
        field_facts (contains n (names fs)) (nullable t) (absent_is_none t d) (well_formed t)
          (well_formed_fields fs) w in
      bind_Returns (type_schema t defs) _ (type_Returns t defs wt)
        λ s. bind_Returns (properties_schema fs s.1) _ (fields_Returns fs s.1 ws) λ r. (_, refl)

abbrev is_class : Ty → Bool
is_class (dataclass c fs) = true
is_class _ = false

class_Returns :
    (t : Ty) (schema_id : String)
    → is_class t ≡ true
    → well_formed t ≡ true
    → Returns (json_schema t schema_id)
unfolding json_schema well_formed
class_Returns (dataclass c fs) schema_id h w =
    bind_Returns (properties_schema fs Entries.end) _ (fields_Returns fs Entries.end w)
      λ r. (_, refl)
class_Returns any schema_id h w = absurd (cc)
class_Returns _ schema_id h w = absurd (cc)

all-is_class : all (λ p. is_class p.1) all_schema_types ≡ true
all-is_class = refl

-- A schema is generated for every registered type: no annotation in it is unsupported.
pub json_schema_total :
    (n : String) (t : Ty) (schema_id : String)
    → find n all_schema_types ≡ some t
    → (schema : Json) × (json_schema t schema_id ≡ some schema)
json_schema_total n t schema_id r =
    class_Returns t schema_id (all-find is_class n all_schema_types t all-is_class r)
      (registered-well_formed n t r)
