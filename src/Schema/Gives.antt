-- ===== src/Schema/Gives.antt =====
-- Results of `type_schema` and its parts that satisfy a predicate.
use litharness_contracts.Prelude.{
  ◌≡◌, refl, Bool, true, false, Option, none, some, if◌then◌else◌, some-eq, subst,
}
use litharness_contracts.Schema.Generate.{◌>>=◌}

-- The result of a call, if there is one, satisfies `P`.
pub data Gives {A : Type 0} (P : A → Type 0) : Option A → Type 0 where
  gives : {a : A} → P a → Gives P (some a)
  raises : Gives P none

pub Gives-bind :
    {S T : Type 0} {P : S → Type 0} {Q : T → Type 0} {o : Option S} {next : S → Option T}
    → Gives P o
    → ((s : S) → P s → Gives Q (next s))
    → Gives Q (o >>= next)
Gives-bind (gives {a} h) k = k a h
Gives-bind raises k = raises

pub Gives-if :
    {T : Type 0} {Q : T → Type 0} (c : Bool) (o r : Option T)
    → (c ≡ true → Gives Q o)
    → (c ≡ false → Gives Q r)
    → Gives Q (if c then o else r)
Gives-if true o r f g = f refl
Gives-if false o r f g = g refl

pub given : {T : Type 0} {Q : T → Type 0} {o : Option T} {a : T} → Gives Q o → o ≡ some a → Q a
given {Q} (gives h) same = subst Q (some-eq same) h
given raises same = absurd (cc)
