-- ===== src/Schema/Refs.antt =====
-- The references of a schema, `{"$ref": "#/$defs/<name>"}`, and the definitions that they name.
use Prim.Native.String.{◌++◌ as append}
use litharness_contracts.Prelude.{
  String, ◌≡◌, refl, Bool, true, false, ◌&&◌, ◌||◌, some, if◌then◌else◌, str_eq, eq_iff, eq_refl,
  &&-true, Bool-cases, inl, inr, arith,
}
use litharness_contracts.Json.{Json, Items, Entries, item, entry, lookup}
use litharness_contracts.Schema.Generate.{put, has_key}

-- `s` is the reference to a key of the definitions.
unfoldable pub named : String → Entries → Bool
named s Entries.end = false
named s (entry k x defs) = str_eq (append "#/$defs/" k) s || named s defs

-- Each text at a key `$ref` names a definition.
unfoldable mutual
  unfolding named

  pub refs_ok : Entries → Json → Bool
  refs_ok defs (Json.list xs) = refs_items defs xs
  refs_ok defs (Json.dict m) = refs_entries defs m
  refs_ok defs _ = true

  pub refs_items : Entries → Items → Bool
  refs_items defs Items.nil = true
  refs_items defs (item x xs) = refs_ok defs x && refs_items defs xs

  pub refs_entries : Entries → Entries → Bool
  refs_entries defs Entries.end = true
  refs_entries defs (entry k (Json.str s) m) =
      (if str_eq k "$ref" then named s defs else true) && refs_entries defs m
  refs_entries defs (entry k x m) = refs_ok defs x && refs_entries defs m

abbrev pub is_object : Json → Bool
is_object (Json.dict m) = true
is_object _ = false

-- Every definition that `d` has, `e` has too.
abbrev pub Grows : Entries → Entries → Type 0
Grows d e = (s : String) → named s d ≡ true → named s e ≡ true

-- The references inside the definitions name definitions.
abbrev pub ClosedDefs : Entries → Type 0
ClosedDefs defs = refs_entries defs defs ≡ true

pub Grows-trans : (c d e : Entries) → Grows c d → Grows d e → Grows c e
Grows-trans c d e f g s h = g s (f s h)

or_right : (a b : Bool) → b ≡ true → (a || b) ≡ true
or_right a b h = ground arith

or_mono : (a b c : Bool) → (b ≡ true → c ≡ true) → (a || b) ≡ true → (a || c) ≡ true
or_mono true b c f h = refl
or_mono false b c f h = f h

and_mono :
    (a b c d : Bool)
    → (a ≡ true → b ≡ true)
    → (c ≡ true → d ≡ true)
    → (a && c) ≡ true
    → (b && d) ≡ true
and_mono true b c d f g h = rw (f refl) (g h)
and_mono false b c d f g h = absurd (cc)

if_mono :
    (c a b : Bool)
    → (a ≡ true → b ≡ true)
    → (if c then a else true) ≡ true
    → (if c then b else true) ≡ true
if_mono true a b f h = f h
if_mono false a b f h = refl

pub put-Grows : (k : String) (x : Json) (defs : Entries) → Grows defs (put k x defs)
unfolding named put
put-Grows k x Entries.end s h = absurd (cc)
put-Grows k x (entry j y defs) s h = elim (Bool-cases (str_eq j k)) [
  | inl same ↦ rw same h
  | inr other ↦ rw other (or_mono (str_eq (append "#/$defs/" j) s) _ _ (put-Grows k x defs s) h)
]

pub has_key-named :
    (k : String) (defs : Entries) → has_key k defs ≡ true → named (append "#/$defs/" k) defs ≡ true
unfolding named
has_key-named k Entries.end h = cc
has_key-named k (entry j x defs) h = elim (Bool-cases (str_eq j k)) [
  | inl same ↦ rw ((eq_iff j k).0 same, eq_refl (append "#/$defs/" k))
  | inr other ↦
      or_right (str_eq (append "#/$defs/" j) (append "#/$defs/" k)) _
        (has_key-named k defs (rw other at h))
]

pub has_key-put : (k : String) (x : Json) (defs : Entries) → has_key k (put k x defs) ≡ true
unfolding put
has_key-put k x Entries.end = rw (eq_refl k)
has_key-put k x (entry j y defs) = elim (Bool-cases (str_eq j k)) [
  | inl same ↦ rw same (rw same)
  | inr other ↦ rw other (rw other (has_key-put k x defs))
]

-- With more definitions, references stay right.
mutual
  unfolding refs_ok

  json-Grows : (d e : Entries) (x : Json) → Grows d e → refs_ok d x ≡ true → refs_ok e x ≡ true
  json-Grows d e (Json.list xs) g h = items-Grows d e xs g h
  json-Grows d e (Json.dict m) g h = entries-Grows d e m g h
  json-Grows d e Json.null g h = refl
  json-Grows d e _ g h = refl

  items-Grows :
      (d e : Entries) (xs : Items) → Grows d e → refs_items d xs ≡ true → refs_items e xs ≡ true
  items-Grows d e Items.nil g h = refl
  items-Grows d e (item x xs) g h =
      and_mono (refs_ok d x) (refs_ok e x) (refs_items d xs) (refs_items e xs) (json-Grows d e x g)
        (items-Grows d e xs g) h

  entries-Grows :
      (d e : Entries) (m : Entries) → Grows d e → refs_entries d m ≡ true → refs_entries e m ≡ true
  entries-Grows d e Entries.end g h = refl
  entries-Grows d e (entry k (Json.str s) m) g h =
      and_mono _ _ (refs_entries d m) (refs_entries e m)
        (if_mono (str_eq k "$ref") (named s d) (named s e) (g s)) (entries-Grows d e m g) h
  entries-Grows d e (entry k Json.null m) g h = entries-Grows d e m g h
  entries-Grows d e (entry k x m) g h =
      and_mono (refs_ok d x) (refs_ok e x) (refs_entries d m) (refs_entries e m)
        (json-Grows d e x g) (entries-Grows d e m g) h

pub refs_ok-Grows : (d e : Entries) (x : Json) → Grows d e → refs_ok d x ≡ true → refs_ok e x ≡ true
refs_ok-Grows = json-Grows

pub refs_entries-Grows :
    (d e : Entries) (m : Entries) → Grows d e → refs_entries d m ≡ true → refs_entries e m ≡ true
refs_entries-Grows = entries-Grows

-- An object at any key.
pub refs_entries-entry :
    (defs : Entries) (k : String) (x : Json) (m : Entries)
    → is_object x ≡ true
    → refs_ok defs x ≡ true
    → refs_entries defs m ≡ true
    → refs_entries defs (entry k x m) ≡ true
unfolding refs_ok
refs_entries-entry defs k (Json.dict n) m o h hs = rw (h, hs)
refs_entries-entry defs k Json.null m o h hs = absurd (cc)
refs_entries-entry defs k _ m o h hs = absurd (cc)

-- The rest of an object is right, and may be exchanged for another that is.
pub split_entry :
    (defs : Entries) (k : String) (x : Json) (m : Entries)
    → refs_entries defs (entry k x m) ≡ true
    → (refs_entries defs m ≡ true)
      × ((n : Entries) → refs_entries defs n ≡ true → refs_entries defs (entry k x n) ≡ true)
unfolding refs_ok
split_entry defs k (Json.str s) m h =
    let (here, rest) = &&-true (if str_eq k "$ref" then named s defs else true) _ h in
    (rest, λ n hn. rw (here, hn))
split_entry defs k Json.null m h = (h, λ n hn. hn)
split_entry defs k (Json.bool b) m h = (h, λ n hn. hn)
split_entry defs k (Json.int n) m h = (h, λ n hn. hn)
split_entry defs k (Json.float x) m h = (h, λ n hn. hn)
split_entry defs k (Json.list xs) m h =
    let (here, rest) = &&-true (refs_items defs xs) (refs_entries defs m) h in
    (rest, λ n hn. rw (here, hn))
split_entry defs k (Json.dict l) m h =
    let (here, rest) = &&-true (refs_entries defs l) (refs_entries defs m) h in
    (rest, λ n hn. rw (here, hn))

pub refs_entries-put :
    (e : Entries) (k : String) (x : Json) (defs : Entries)
    → is_object x ≡ true
    → refs_ok e x ≡ true
    → refs_entries e defs ≡ true
    → refs_entries e (put k x defs) ≡ true
unfolding put
refs_entries-put e k x Entries.end o hx h = refs_entries-entry e k x Entries.end o hx h
refs_entries-put e k x (entry j y defs) o hx h =
    let (rest, rebuild) = split_entry e j y defs h in
    elim (Bool-cases (str_eq j k)) [
      | inl same ↦ rw same (refs_entries-entry e j x defs o hx rest)
      | inr other ↦ rw other (rebuild (put k x defs) (refs_entries-put e k x defs o hx rest))
    ]

pub lookup-put :
    (i k : String) (x : Json) (defs : Entries)
    → lookup i (put k x defs) ≡ (if str_eq k i then some x else lookup i defs)
unfolding put
lookup-put i k x Entries.end = refl
lookup-put i k x (entry j y defs) =
    ground (arith, eq_iff k i, eq_iff j k, eq_iff j i, lookup-put i k x defs)
