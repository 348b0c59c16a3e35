-- ===== src/Commands/Files.antt =====
-- The files that a command writes, the lines that it prints and how it ends. A file is found by the
-- name of its directory below a root and its own name; writing succeeds.
use Prim.Native.String.{◌++◌ as append}
use litharness_contracts.Prelude.{
  String, ◌≡◌, refl, Bool, true, ◌&&◌, Option, none, some, List, [], ◌∷◌, if◌then◌else◌, str_eq,
  eq_iff, &&-true, Bool-cases, inl, inr, arith,
}
use litharness_contracts.Fixture.Errors.{FixtureError}

abbrev pub Files : Type 0
Files = List (String × String × String)

abbrev pub same_name : String → String → String → String → Bool
same_name d n d' n' = str_eq d d' && str_eq n n'

-- `path.read_text()`; none where there is no file
unfoldable pub read : String → String → Files → Option String
read d n [] = none
read d n ((d', n', text) ∷ files) = if same_name d' n' d n then some text else read d n files

-- `path.write_text(text)`
unfoldable pub write : String → String → String → Files → Files
write d n text [] = (d, n, text) ∷ []
write d n text ((d', n', old) ∷ files) =
    if same_name d' n' d n then (d', n', text) ∷ files else (d', n', old) ∷ write d n text files

same_name-eq : (d n d' n' : String) → same_name d n d' n' ≡ true → (d ≡ d') × (n ≡ n')
same_name-eq d n d' n' h =
    let (same_d, same_n) = &&-true (str_eq d d') (str_eq n n') h in
    ((eq_iff d d').0 same_d, (eq_iff n n').0 same_n)

-- What is read after a write: the text at its place, what was there at any other.
pub read-write :
    (d n e m text : String) (files : Files)
    → read e m (write d n text files) ≡ (if same_name d n e m then some text else read e m files)
unfolding read write
read-write d n e m text [] = refl
read-write d n e m text ((d', n', old) ∷ files) = elim (Bool-cases (same_name d' n' d n)) [
  | inl same ↦
      let (is_d, is_n) = same_name-eq d' n' d n same in rw (same, is_d, is_n) (ground arith)
  | inr other ↦ rw other (
      ground (
        arith,
        eq_iff d' d,
        eq_iff n' n,
        eq_iff d' e,
        eq_iff n' m,
        eq_iff d e,
        eq_iff n m,
        read-write d n e m text files,
      ))
]

pub record World : Type 0 where
  pub files : Files
  -- the last line first
  pub printed : List String

-- What the builder raises, and what a renderer raises: the `ValueError` of `json.dumps` or the
-- `TypeError` of `json_schema`.
pub data CommandError : Type 0 where
  not_built : FixtureError → CommandError
  not_rendered : CommandError

-- A command that raises has done what it did before.
pub data Ended : Type 0 where
  ended : World → Ended
  raised : CommandError → World → Ended

infixl 5 ◌>>=◌
abbrev pub ◌>>=◌ : Ended → (World → Ended) → Ended
ended w >>= next = next w
raised e w >>= next = raised e w

pub bind_ended :
    (first : Ended) (next : World → Ended) {w : World}
    → (first >>= next) ≡ ended w
    → (v : World) × (first ≡ ended v) × (next v ≡ ended w)
bind_ended (ended v) next h = (v, refl, h)
bind_ended (raised e v) next h = absurd (cc)

pub ended-injective : {v w : World} → ended v ≡ ended w → v ≡ w
ended-injective h = cc

-- `path.write_text(text)`, and `print` of the path that `shown` is the start of
unfoldable pub write_shown : String → String → String → String → World → World
unfolding write
write_shown shown d n text w = record {
  files = write d n text w.files;
  printed = append "wrote " (append shown (append d (append "/" n))) ∷ w.printed;
}

-- The first text there is.
abbrev pub or_else : Option String → Option String → Option String
or_else (some text) old = some text
or_else none old = old
