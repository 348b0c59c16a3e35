-- ===== src/Serde/Encode.antt =====
-- `to_jsonable`.
use litharness_contracts.Prelude.{◌≡◌, refl}
use litharness_contracts.Outcome.{Result, ok, err, cannot_serialize, ◌>>=◌}
use litharness_contracts.Json.{Json, Items, Entries, item, entry}
use litharness_contracts.Value.{
  Value, Values, Attrs, nothing, bool, int, float, str, list, dict, member, instance_of, other,
  of_json, of_items, of_entries, cons, attr,
}

-- `dump_attrs` is the loop over the fields of a dataclass, which drops `None`; `dump_entries` is
-- the comprehension over a dict, which keeps it.
unfoldable mutual
  pub to_jsonable : Value → Result Json
  to_jsonable (instance_of c ats) = do out ← dump_attrs ats; ok (Json.dict out)
  to_jsonable (member c s) = ok (Json.str s)
  to_jsonable (list vs) = do xs ← dump_values vs; ok (Json.list xs)
  to_jsonable (dict ats) = do m ← dump_entries ats; ok (Json.dict m)
  to_jsonable nothing = ok Json.null
  to_jsonable (str s) = ok (Json.str s)
  to_jsonable (int n) = ok (Json.int n)
  to_jsonable (float x) = ok (Json.float x)
  to_jsonable (bool b) = ok (Json.bool b)
  to_jsonable (other t) = err (cannot_serialize t)

  pub dump_attrs : Attrs → Result Entries
  dump_attrs Attrs.end = ok Entries.end
  dump_attrs (attr k nothing ats) = dump_attrs ats
  dump_attrs (attr k v ats) = do x ← to_jsonable v; m ← dump_attrs ats; ok (entry k x m)

  pub dump_values : Values → Result Items
  dump_values Values.nil = ok Items.nil
  dump_values (cons v vs) = do x ← to_jsonable v; xs ← dump_values vs; ok (item x xs)

  pub dump_entries : Attrs → Result Entries
  dump_entries Attrs.end = ok Entries.end
  dump_entries (attr k v ats) = do x ← to_jsonable v; m ← dump_entries ats; ok (entry k x m)

-- JSON data is written as it is.
mutual
  unfolding to_jsonable of_json

  jsonable-of_json : (x : Json) → to_jsonable (of_json x) ≡ ok x
  jsonable-of_json Json.null = refl
  jsonable-of_json (Json.bool b) = refl
  jsonable-of_json (Json.int n) = refl
  jsonable-of_json (Json.float x) = refl
  jsonable-of_json (Json.str s) = refl
  jsonable-of_json (Json.list xs) = rw (values-of_items xs)
  jsonable-of_json (Json.dict m) = rw (entries-of_entries m)

  values-of_items : (xs : Items) → dump_values (of_items xs) ≡ ok xs
  values-of_items Items.nil = refl
  values-of_items (item x xs) = rw (jsonable-of_json x, values-of_items xs)

  entries-of_entries : (m : Entries) → dump_entries (of_entries m) ≡ ok m
  entries-of_entries Entries.end = refl
  entries-of_entries (entry k x m) = rw (jsonable-of_json x, entries-of_entries m)

pub to_jsonable-of_json : (x : Json) → to_jsonable (of_json x) ≡ ok x
to_jsonable-of_json = jsonable-of_json
