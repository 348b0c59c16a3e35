-- ===== src/Outcome.antt =====
-- What a call of src/litharness_contracts/_serde.py gives: a value, or the exception raised.
use litharness_contracts.Prelude.{ℕ, String, ◌≡◌, refl, List, ◌⊎◌, inl, inr}

-- The parts that are added to the start `$` of an error's path: `.name` and `[i]`.
pub data Segment : Type 0 where
  key : String → Segment
  index : ℕ → Segment

-- A path of the source is the text `$.a[0]`. Here it is the list of its segments, the last first.
abbrev pub JsonPath : Type 0
JsonPath = List Segment

-- The messages of `from_jsonable` behind the path.
pub data Problem : Type 0 where
  expected : String → String → Problem
  not_member : String → Problem
  missing_field : String → String → Problem
  unsupported_union : Problem
  unsupported_type : Problem

pub data Error : Type 0 where
  -- `ContractError`, by its message
  at_path : JsonPath → Problem → Error
  cannot_serialize : String → Error
  unparseable_version : String → Error
  no_schema_version : Error
  -- `IncompatibleSchemaVersion`, with the payload's version
  incompatible_version : String → Error
  -- the built-in `OverflowError` of `float(data)` and `ValueError` of `str(data)` and `{data!r}`
  overflow_error : Error
  value_error : Error

pub data Result {ℓ} (A : Type ℓ) : Type ℓ where
  ok : A → Result A
  err : Error → Result A

-- An exception ends the chain.
infixl 5 ◌>>=◌
abbrev pub ◌>>=◌ {ℓ κ} : {S : Type ℓ} {T : Type κ} → Result S → (S → Result T) → Result T
err raised >>= next = err raised
ok value >>= next = next value

-- A chain that returns has returned from its first call.
pub bind_returned {ℓ κ} :
    {S : Type ℓ} {T : Type κ} (first : Result S) (next : S → Result T) {result : T}
    → (first >>= next) ≡ ok result
    → (value : S) × (first ≡ ok value) × (next value ≡ ok result)
bind_returned (err raised) next returned = cc
bind_returned (ok value) next returned = (value, refl, returned)

pub ok-injective {ℓ} : {A : Type ℓ} {a b : A} → ok a ≡ ok b → a ≡ b
ok-injective h = cc

-- A chain that raises has raised in its first call, or behind it.
pub bind_raised {ℓ κ} :
    {S : Type ℓ} {T : Type κ} (first : Result S) (next : S → Result T) {e : Error}
    → (first >>= next) ≡ err e
    → (first ≡ err e) ⊎ ((value : S) × (first ≡ ok value) × (next value ≡ err e))
bind_raised (err raised) next h = inl (cc)
bind_raised (ok value) next h = inr (value, refl, h)
