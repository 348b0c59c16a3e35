-- ===== src/Serde/Plain.antt =====
-- The objects that json.loads gives: what a field of type `Any` holds.
use litharness_contracts.Prelude.{◌≡◌, refl, ap, Bool, true, false, ◌&&◌, &&-true}
use litharness_contracts.Json.{Json, Items, Entries, item, entry}
use litharness_contracts.Value.{
  Value, Values, Attrs, nothing, member, instance_of, attr, cons, of_json, of_items, of_entries,
}

unfoldable mutual
  pub is_plain : Value → Bool
  is_plain (Value.list vs) = plain_values vs
  is_plain (Value.dict ats) = plain_attrs ats
  is_plain (member c s) = false
  is_plain (instance_of c ats) = false
  is_plain (Value.other t) = false
  is_plain _ = true

  pub plain_values : Values → Bool
  plain_values Values.nil = true
  plain_values (cons v vs) = is_plain v && plain_values vs

  pub plain_attrs : Attrs → Bool
  plain_attrs Attrs.end = true
  plain_attrs (attr k v ats) = is_plain v && plain_attrs ats

mutual
  unfolding is_plain of_json

  plain-json : (v : Value) → is_plain v ≡ true → (x : Json) × (v ≡ of_json x)
  plain-json nothing h = (Json.null, refl)
  plain-json (Value.bool b) h = (Json.bool b, refl)
  plain-json (Value.int n) h = (Json.int n, refl)
  plain-json (Value.float x) h = (Json.float x, refl)
  plain-json (Value.str s) h = (Json.str s, refl)
  plain-json (Value.list vs) h = let (xs, e) = plain-items vs h in (Json.list xs, ap Value.list e)
  plain-json (Value.dict ats) h = let (m, e) = plain-entries ats h in (Json.dict m, ap Value.dict e)
  plain-json (member c s) h = absurd (cc)
  plain-json (instance_of c ats) h = absurd (cc)
  plain-json (Value.other t) h = absurd (cc)

  plain-items : (vs : Values) → plain_values vs ≡ true → (xs : Items) × (vs ≡ of_items xs)
  plain-items Values.nil h = (Items.nil, refl)
  plain-items (cons v vs) h =
      let (hv, hs) = &&-true (is_plain v) (plain_values vs) h in
      let (x, e) = plain-json v hv in let (xs, es) = plain-items vs hs in (item x xs, cc)

  plain-entries : (ats : Attrs) → plain_attrs ats ≡ true → (m : Entries) × (ats ≡ of_entries m)
  plain-entries Attrs.end h = (Entries.end, refl)
  plain-entries (attr k v ats) h =
      let (hv, hs) = &&-true (is_plain v) (plain_attrs ats) h in
      let (x, e) = plain-json v hv in let (m, es) = plain-entries ats hs in (entry k x m, cc)

pub json-plain : (v : Value) → is_plain v ≡ true → (x : Json) × (v ≡ of_json x)
json-plain = plain-json

mutual
  unfolding is_plain of_json

  of_json-plain : (x : Json) → is_plain (of_json x) ≡ true
  of_json-plain Json.null = refl
  of_json-plain (Json.bool b) = refl
  of_json-plain (Json.int n) = refl
  of_json-plain (Json.float x) = refl
  of_json-plain (Json.str s) = refl
  of_json-plain (Json.list xs) = of_items-plain xs
  of_json-plain (Json.dict m) = of_entries-plain m

  of_items-plain : (xs : Items) → plain_values (of_items xs) ≡ true
  of_items-plain Items.nil = refl
  of_items-plain (item x xs) = rw (of_json-plain x) (of_items-plain xs)

  of_entries-plain : (m : Entries) → plain_attrs (of_entries m) ≡ true
  of_entries-plain Entries.end = refl
  of_entries-plain (entry k x m) = rw (of_json-plain x) (of_entries-plain m)

pub plain-of_json : (x : Json) → is_plain (of_json x) ≡ true
plain-of_json = of_json-plain
