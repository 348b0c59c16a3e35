-- ===== src/Schema/Validate.antt =====
-- Validation of JSON data against a schema: the keywords of JSON Schema, draft 2020-12, that the
-- generated schemas use.
pub mod Whole
pub mod Shape
pub mod Fields
pub mod Valid
pub mod Defined
pub mod Serialized
pub mod Accepted
pub mod Meets
pub mod Decoded
pub mod Deserialized
use Prim.Native.String.{◌++◌ as append}
use litharness_contracts.Prelude.{
  ℕ, zero, suc, String, Bool, true, false, ◌&&◌, ◌||◌, Option, none, some, if◌then◌else◌, str_eq,
  ◌≡◌, refl,
}
use litharness_contracts.Json.{Json, Items, Entries, item, entry, lookup, is_integer}

-- The keywords; any other says nothing of an instance.
pub data Keyword : Type 0 where
  ref_keyword type_keyword enum_keyword items_keyword : Keyword
  properties_keyword required_keyword additional_keyword : Keyword
  annotation : Keyword

unfoldable pub keyword_of : String → Keyword
keyword_of k =
    if str_eq k "$ref"
    then ref_keyword
    else if str_eq k "type"
    then type_keyword
    else if str_eq k "enum"
    then enum_keyword
    else if str_eq k "items"
    then items_keyword
    else if str_eq k "properties"
    then properties_keyword
    else if str_eq k "required"
    then required_keyword
    else if str_eq k "additionalProperties"
    then additional_keyword
    else annotation

abbrev pub json_type : Json → String
json_type Json.null = "null"
json_type (Json.bool b) = "boolean"
json_type (Json.int n) = "integer"
json_type (Json.float x) = "number"
json_type (Json.str s) = "string"
json_type (Json.list xs) = "array"
json_type (Json.dict m) = "object"

abbrev is_whole_number : Json → Bool
is_whole_number (Json.int n) = true
is_whole_number (Json.float x) = is_integer x
is_whole_number _ = false

-- `type`: an integer is a number, and so is a number whose fraction is zero an integer.
unfoldable pub type_holds : Json → Json → Bool
type_holds (Json.str t) x =
    str_eq t (json_type x) || ((str_eq t "number" || str_eq t "integer") && is_whole_number x)
type_holds _ x = false

-- `enum`, of texts
abbrev pub among : String → Items → Bool
among s Items.nil = false
among s (item (Json.str t) xs) = str_eq t s || among s xs
among s (item _ xs) = among s xs

unfoldable pub enum_holds : Json → Json → Bool
enum_holds (Json.list xs) (Json.str s) = among s xs
enum_holds _ _ = false

abbrev pub is_there : Option Json → Bool
is_there none = false
is_there (some x) = true

-- `required`
abbrev pub all_there : Items → Entries → Bool
all_there Items.nil m = true
all_there (item (Json.str s) names) m = is_there (lookup s m) && all_there names m
all_there (item _ names) m = false

unfoldable pub required_holds : Json → Json → Bool
required_holds (Json.list names) (Json.dict m) = all_there names m
required_holds (Json.list names) _ = true
required_holds _ _ = false

-- `items`
abbrev pub all_items : (Json → Bool) → Items → Bool
all_items test Items.nil = true
all_items test (item x xs) = test x && all_items test xs

unfoldable pub items_hold : (Json → Bool) → Json → Bool
items_hold test (Json.list xs) = all_items test xs
items_hold test _ = true

-- `additionalProperties`: the values at keys that `properties` beside it does not name.
abbrev pub is_named : Option Json → String → Bool
is_named (some (Json.dict ps)) k = is_there (lookup k ps)
is_named _ k = false

abbrev pub all_others : (String → Bool) → (Json → Bool) → Entries → Bool
all_others known test Entries.end = true
all_others known test (entry k x m) = (known k || test x) && all_others known test m

unfoldable pub others_hold : (String → Bool) → (Json → Bool) → Json → Bool
others_hold known test (Json.dict m) = all_others known test m
others_hold known test _ = true

abbrev pub at_property : (Json → Bool) → Option Json → Bool
at_property test none = true
at_property test (some x) = test x

-- `lookup`, in an object
abbrev pub value_at : String → Json → Option Json
value_at k (Json.dict m) = lookup k m
value_at k _ = none

-- What a reference demands of an instance is a parameter.
module _ (refers : String → Json → Bool) where
  ref_holds : Json → Json → Bool
  ref_holds (Json.str r) x = refers r x
  ref_holds _ x = false

  unfoldable mutual
    unfolding ref_holds type_holds enum_holds required_holds items_hold others_hold

    pub valid_in : Json → Json → Bool
    valid_in (Json.dict m) x = keywords m m x
    valid_in (Json.bool b) x = b
    valid_in _ x = false

    pub keywords : Entries → Entries → Json → Bool
    keywords Entries.end whole x = true
    keywords (entry k s m) whole x =
        let here : Bool = elim (keyword_of k) [
          | ref_keyword ↦ ref_holds s x
          | type_keyword ↦ type_holds s x
          | enum_keyword ↦ enum_holds s x
          | items_keyword ↦ items_hold (valid_in s) x
          | properties_keyword ↦ properties s x
          | required_keyword ↦ required_holds s x
          | additional_keyword ↦ others_hold (is_named (lookup "properties" whole)) (valid_in s) x
          | annotation ↦ true
        ] in
        here && keywords m whole x

    pub properties : Json → Json → Bool
    properties (Json.dict ps) x = all_properties ps x
    properties _ x = false

    pub all_properties : Entries → Json → Bool
    all_properties Entries.end x = true
    all_properties (entry k s ps) x = at_property (valid_in s) (value_at k x) && all_properties ps x

-- The definition that a reference names.
unfoldable pub pointed : String → Entries → Option Json
pointed r Entries.end = none
pointed r (entry k s defs) = if str_eq (append "#/$defs/" k) r then some s else pointed r defs

-- What a definition, if there is one, demands.
abbrev demands : (String → Json → Bool) → Option Json → Json → Bool
demands refers none x = false
demands refers (some s) x = valid_in refers s x

-- References are followed `n` deep.
unfoldable pub follow : ℕ → Entries → String → Json → Bool
follow zero defs r x = false
follow (suc n) defs r x = demands (follow n defs) (pointed r defs) x

pub follow-some :
    (n : ℕ) (defs : Entries) (r : String) (s x : Json)
    → pointed r defs ≡ some s
    → follow (suc n) defs r x ≡ valid_in (follow n defs) s x
unfolding follow
follow-some n defs r s x h = rw h refl
