-- ===== src/Fixture/Errors.antt =====
-- What a method of `FixtureBuilder` gives: a value, or the exception raised; and comprehensions whose
-- parts may raise.
use litharness_contracts.Prelude.{ℕ, String, ◌≡◌, refl, List, [], ◌∷◌}
use litharness_contracts.Outcome.{Error}
use litharness_contracts.Value.{Value, Values}

-- `FixtureError`, by its message, and the built-in `KeyError` and `ValueError`
pub data FixtureError : Type 0 where
  cannot_resolve : String → FixtureError
  unknown_scene : String → FixtureError
  occurs : String → ℕ → String → FixtureError
  no_target : String → FixtureError
  key_error : String → FixtureError
  -- a value that an enum class lacks
  not_a_value : String → String → FixtureError
  -- what `to_jsonable` raises
  not_serialized : Error → FixtureError

pub data Built (A : Type 0) : Type 0 where
  built : A → Built A
  failed : FixtureError → Built A

-- An exception ends the chain.
infixl 5 ◌>>=◌
abbrev pub ◌>>=◌ : {S T : Type 0} → Built S → (S → Built T) → Built T
built value >>= next = next value
failed e >>= next = failed e

-- A chain that returns has returned from its first call.
pub bind_built :
    {S T : Type 0} (first : Built S) (next : S → Built T) {result : T}
    → (first >>= next) ≡ built result
    → (value : S) × (first ≡ built value) × (next value ≡ built result)
bind_built (built value) next h = (value, refl, h)
bind_built (failed e) next h = absurd (cc)

pub built-injective : {A : Type 0} {a b : A} → built a ≡ built b → a ≡ b
built-injective h = cc

-- `[make(item) for item in items]`
module _ {A : Type 0} (make : A → Built Value) where
  unfoldable pub each : List A → Built Values
  each [] = built Values.nil
  each (a ∷ items) = do v ← make a; vs ← each items; built (Values.cons v vs)

-- The result of a call, if there is one, satisfies `P`.
pub data Yields {A : Type 0} (P : A → Type 0) : Built A → Type 0 where
  yields : {a : A} → P a → Yields P (built a)
  raises : {e : FixtureError} → Yields P (failed e)

pub Yields-built : {A : Type 0} {P : A → Type 0} {a : A} → Yields P (built a) → P a
Yields-built (yields h) = h

-- From the call's equation.
pub Yields-of :
    {A : Type 0} (P : A → Type 0) (r : Built A) → ((a : A) → r ≡ built a → P a) → Yields P r
Yields-of P (built a) h = yields (h a refl)
Yields-of P (failed e) h = raises

pub Yields-bind :
    {S T : Type 0} {P : S → Type 0} {Q : T → Type 0} {r : Built S} {next : S → Built T}
    → Yields P r
    → ((s : S) → P s → Yields Q (next s))
    → Yields Q (r >>= next)
Yields-bind (yields {a} h) k = k a h
Yields-bind raises k = raises
