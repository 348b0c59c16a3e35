-- ===== src/Builtins/Keys.antt =====
-- An object whose keys are read one after the other.
use litharness_contracts.Prelude.{
  String, ◌≡◌, refl, ◌∙◌, ap, Bool, true, false, ◌&&◌, ◌||◌, not, List, [], ◌∷◌, contains, distinct,
  str_eq, str_eq_sym, &&-true, arith, ◌%◌, ◌/◌, ◌^◌, ltb, ◌==◌,
}
use litharness_contracts.Json.{Json, Items, Entries, Float, item, entry}
use litharness_contracts.Schema.Generate.{put, join}

abbrev pub keys : Entries → List String
keys Entries.end = []
keys (entry k x m) = k ∷ keys m

-- `d[key] = value` for each pair
abbrev pub put_all : Entries → Entries → Entries
put_all acc Entries.end = acc
put_all acc (entry k x m) = put_all (put k x acc) m

absent :
    (j k : String) (x : Json) (acc m : Entries)
    → contains j (keys (join acc (entry k x m))) ≡ false
    → str_eq j k ≡ false
absent j k x Entries.end m h = str_eq_sym j k ∙ ground arith
absent j k x (entry i y acc) m h = absent j k x acc m (ground arith)

put_new :
    (k : String) (x : Json) (acc m : Entries)
    → distinct (keys (join acc (entry k x m))) ≡ true
    → put k x acc ≡ join acc (entry k x Entries.end)
unfolding put
put_new k x Entries.end m h = refl
put_new k x (entry j y acc) m h =
    let (apart, more) = &&-true (not (contains j (keys (join acc (entry k x m))))) _ h in
    rw (absent j k x acc m (ground arith)) (ap (entry j y) (put_new k x acc m more))

join_assoc : (l m n : Entries) → join (join l m) n ≡ join l (join m n)
join_assoc Entries.end m n = refl
join_assoc (entry k x l) m n = ap (entry k x) (join_assoc l m n)

join-end : (l : Entries) → l ≡ join l Entries.end
join-end Entries.end = refl
join-end (entry k x l) = ap (entry k x) (join-end l)

put_all-join : (acc m : Entries) → distinct (keys (join acc m)) ≡ true → put_all acc m ≡ join acc m
put_all-join acc Entries.end h = join-end acc
put_all-join acc (entry k x m) h =
    let one = entry k x Entries.end in
    ap (λ l. put_all l m) (put_new k x acc m h)
    ∙ put_all-join (join acc one) m (ap (λ l. distinct (keys l)) (join_assoc acc one m) ∙ h)
    ∙ join_assoc acc one m

-- Pairs whose keys are apart are what they give.
pub put_all-distinct : (m : Entries) → distinct (keys m) ≡ true → put_all Entries.end m ≡ m
put_all-distinct m h = put_all-join Entries.end m h

-- the 64 bits of a number or an infinity
abbrev pub is_number : Float → Bool
is_number x =
    ltb x.bits (2 ^ 64) && (not (((x.bits / 2 ^ 52) % 2048) == 2047) || ((x.bits % 2 ^ 52) == 0))

-- Data whose objects have each key once, as a dict has, and whose floats are not NaN.
unfoldable mutual
  pub unambiguous : Json → Bool
  unambiguous (Json.float x) = is_number x
  unambiguous (Json.list xs) = unambiguous_items xs
  unambiguous (Json.dict m) = distinct (keys m) && unambiguous_entries m
  unambiguous _ = true

  pub unambiguous_items : Items → Bool
  unambiguous_items Items.nil = true
  unambiguous_items (item x xs) = unambiguous x && unambiguous_items xs

  pub unambiguous_entries : Entries → Bool
  unambiguous_entries Entries.end = true
  unambiguous_entries (entry k x m) = unambiguous x && unambiguous_entries m
