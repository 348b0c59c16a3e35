-- ===== src/Serde/Compat.antt =====
-- The compatibility rules of src/litharness_contracts/_serde.py: unknown keys are ignored, and a
-- minor version that adds fields with the default `None` changes neither what older payloads say
-- nor how they are written.
use litharness_contracts.Prelude.{
  String, ◌≡◌, refl, sym, ap, ◌∙◌, Bool, true, false, ◌&&◌, none, &&-true,
}
use litharness_contracts.Outcome.{Result, ok, err, ◌>>=◌, bind_returned, ok-injective, JsonPath}
use litharness_contracts.Json.{Json, Entries, lookup}
use litharness_contracts.Value.{Value, Attrs, nothing, attr, instance_of}
use litharness_contracts.Types.{
  Ty, Fields, Default, dataclass, field, missing, default, factory, names,
}
use litharness_contracts.Runtime.{Runtime}
use litharness_contracts.Serde.Encode.{to_jsonable, dump_attrs}
use litharness_contracts.Serde.Decode.{from_jsonable, load_fields, absent}
use litharness_contracts.Serde.Typing.{is_nothing}
use litharness_contracts.Serde.Defaults.{is_nothing-eq}
use litharness_contracts.Serde.Lookup.{Agree, load_fields-Agree}

-- A class with further fields behind its own, and an object with further attributes.
unfoldable pub append_fields : Fields → Fields → Fields
append_fields Fields.end extra = extra
append_fields (field n t d fs) extra = field n t d (append_fields fs extra)

unfoldable pub append_attrs : Attrs → Attrs → Attrs
append_attrs Attrs.end more = more
append_attrs (attr k v ats) more = attr k v (append_attrs ats more)

abbrev pub defaults_to_none : Default → Bool
defaults_to_none missing = false
defaults_to_none (default v) = is_nothing v
defaults_to_none (factory v) = false

-- Every field has the default `None`.
abbrev pub all_none : Fields → Bool
all_none Fields.end = true
all_none (field n t d fs) = defaults_to_none d && all_none fs

-- None of the names is a key of the payload.
abbrev pub Lacks : Fields → Entries → Type 0
Lacks Fields.end m = Unit
Lacks (field n t d fs) m = (lookup n m ≡ none) × Lacks fs m

none_attrs : Fields → Attrs
none_attrs Fields.end = Attrs.end
none_attrs (field n t d fs) = attr n nothing (none_attrs fs)

absent-none :
    (c n : String) (t : Ty) (d : Default) (p : JsonPath)
    → defaults_to_none d ≡ true
    → absent c n t d p ≡ ok nothing
unfolding absent
absent-none c n t missing p h = cc
absent-none c n t (default v) p h = rw (is_nothing-eq v h) refl
absent-none c n t (factory v) p h = cc

dump-none_attrs : (fs : Fields) → dump_attrs (none_attrs fs) ≡ ok Entries.end
unfolding none_attrs to_jsonable
dump-none_attrs Fields.end = refl
dump-none_attrs (field n t d fs) = dump-none_attrs fs

-- Attributes that are `None` add nothing to what is written.
dump-append_none :
    (ats : Attrs) (fs : Fields) → dump_attrs (append_attrs ats (none_attrs fs)) ≡ dump_attrs ats
unfolding append_attrs to_jsonable
dump-append_none Attrs.end fs = dump-none_attrs fs
dump-append_none (attr k nothing ats) fs = dump-append_none ats fs
dump-append_none (attr k (Value.other t) ats) fs = refl
dump-append_none (attr k (Value.bool b) ats) fs = rw (dump-append_none ats fs) refl
dump-append_none (attr k _ ats) fs = rw (dump-append_none ats fs) refl

bind-ok : (r : Result Attrs) → r ≡ (r >>= λ ats. ok ats)
bind-ok (ok ats) = refl
bind-ok (err e) = refl

append_step :
    (n : String) (here : Result Value) (long short extra : Result Attrs)
    → long ≡ (short >>= λ ats. extra >>= λ more. ok (append_attrs ats more))
    → (here >>= λ v. long >>= λ ats. ok (attr n v ats)) ≡ (
        (here >>= λ v. short >>= λ ats. ok (attr n v ats)) >>= λ ats.
        extra >>= λ more. ok (append_attrs ats more))
unfolding append_attrs
append_step n (err e) long short extra h = refl
append_step n (ok v) long (err e) extra h = rw h refl
append_step n (ok v) long (ok ats) (err e) h = rw h refl
append_step n (ok v) long (ok ats) (ok more) h = rw h refl

module _ (rt : Runtime) where
  load-none_attrs :
      (c : String) (fs : Fields) (p : JsonPath) (m : Entries)
      → all_none fs ≡ true
      → Lacks fs m
      → load_fields rt c fs p m ≡ ok (none_attrs fs)
  unfolding from_jsonable none_attrs
  load-none_attrs c Fields.end p m w h = refl
  load-none_attrs c (field n t d fs) p m w (h, hs) =
      let (wd, ws) = &&-true (defaults_to_none d) (all_none fs) w in
      rw (h, absent-none c n t d p wd, load-none_attrs c fs p m ws hs) refl

  -- The loop over the longer class goes on where the loop over the shorter one ends.
  load-append_fields :
      (c : String) (fs extra : Fields) (p : JsonPath) (m : Entries)
      → load_fields rt c (append_fields fs extra) p m ≡ (
          load_fields rt c fs p m >>= λ ats.
          load_fields rt c extra p m >>= λ more. ok (append_attrs ats more))
  unfolding from_jsonable append_fields append_attrs
  load-append_fields c Fields.end extra p m = bind-ok (load_fields rt c extra p m)
  load-append_fields c (field n t d fs) extra p m =
      append_step n _ _ (load_fields rt c fs p m) (load_fields rt c extra p m)
        (load-append_fields c fs extra p m)

  -- A class reads a payload by its own fields' names alone: two payloads that agree at those names
  -- decode alike, or fail alike.
  pub unknown_fields_ignored :
      (c : String) (fs : Fields) (p : JsonPath) (m m' : Entries)
      → Agree (names fs) m m'
      → from_jsonable rt (dataclass c fs) p (Json.dict m)
        ≡ from_jsonable rt (dataclass c fs) p (Json.dict m')
  unfolding from_jsonable
  unknown_fields_ignored c fs p m m' h = rw (load_fields-Agree rt c fs p m m' h) refl

  -- A later version of a class that adds fields with the default `None` decodes every payload that
  -- the older version decodes and that lacks the new keys, and writes what it read as the older
  -- version writes it.
  pub additive_minor :
      (c : String) (fs extra : Fields) (p : JsonPath) (m : Entries) (v : Value)
      → all_none extra ≡ true
      → Lacks extra m
      → from_jsonable rt (dataclass c fs) p (Json.dict m) ≡ ok v
      → (w : Value) × (from_jsonable rt (dataclass c (append_fields fs extra)) p (Json.dict m)
          ≡ ok w)
        × (to_jsonable w ≡ to_jsonable v)
  unfolding from_jsonable to_jsonable
  additive_minor c fs extra p m v new lacks h =
      let (ats, e, h1) = bind_returned (load_fields rt c fs p m) _ h in
      let read = load-none_attrs c extra p m new lacks in
      (
        instance_of c (append_attrs ats (none_attrs extra)),
        rw (load-append_fields c fs extra p m, e, read) refl,
        rw (← ok-injective h1, dump-append_none ats extra) refl,
      )

  -- A payload that the later version of a class decodes is decoded by the older version too, to
  -- the object's first attributes, which are those of the older version.
  pub older_reader :
      (c : String) (fs extra : Fields) (p : JsonPath) (m : Entries) (w : Value)
      → from_jsonable rt (dataclass c (append_fields fs extra)) p (Json.dict m) ≡ ok w
      → (ats more : Attrs) × (from_jsonable rt (dataclass c fs) p (Json.dict m)
          ≡ ok (instance_of c ats))
        × (w ≡ instance_of c (append_attrs ats more))
  unfolding from_jsonable
  older_reader c fs extra p m w h =
      let (all, e, h1) = bind_returned (load_fields rt c (append_fields fs extra) p m) _ h in
      let (ats, f, h2) =
        bind_returned (load_fields rt c fs p m) _ (sym (load-append_fields c fs extra p m) ∙ e) in
      let (more, g, h3) = bind_returned (load_fields rt c extra p m) _ h2 in
      (ats, more, rw f refl, sym (ok-injective h1) ∙ ap (instance_of c) (sym (ok-injective h3)))
