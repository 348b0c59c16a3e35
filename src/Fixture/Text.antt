-- ===== src/Fixture/Text.antt =====
-- `str.count`, `str.index`, slices and `str.replace` of Python, over code points.
use Prim.Native.String.{[], ◌∷◌}
use litharness_contracts.Prelude.{
  ℕ, zero, suc, ◌+◌, ◌-◌, code, String, Bool, true, false, ◌&&◌, Option, none, some, ◌==◌,
  if◌then◌else◌,
}

-- `len(text)`
abbrev pub count_chars : String → ℕ
count_chars [] = 0
count_chars (c ∷ s) = suc (count_chars s)

-- `text.startswith(quote)`
unfoldable pub is_prefix : String → String → Bool
is_prefix [] text = true
is_prefix (c ∷ quote) [] = false
is_prefix (c ∷ quote) (d ∷ text) = (code c == code d) && is_prefix quote text

-- `text[i:]` and `text[:n]`
unfoldable pub drop : ℕ → String → String
drop zero text = text
drop (suc i) [] = []
drop (suc i) (c ∷ text) = drop i text

unfoldable pub take : ℕ → String → String
take zero text = []
take (suc n) [] = []
take (suc n) (c ∷ text) = c ∷ take n text

-- `text[start:end]`
unfoldable pub slice : String → ℕ → ℕ → String
unfolding drop take
slice text start end = take (end - start) (drop start text)

abbrev pub one_if : Bool → ℕ
one_if true = 1
one_if false = 0

-- The matches of `quote` from the left that do not overlap, after `skip` characters.
unfoldable pub count_after : String → ℕ → String → ℕ
unfolding is_prefix
count_after quote zero [] = one_if (is_prefix quote [])
count_after quote (suc skip) [] = 0
count_after quote (suc skip) (c ∷ text) = count_after quote skip text
count_after quote zero (c ∷ text) =
    let hit = is_prefix quote (c ∷ text) in
    one_if hit + count_after quote (if hit then count_chars quote - 1 else 0) text

-- `text.count(quote)`
unfoldable pub count : String → String → ℕ
unfolding count_after
count text quote = count_after quote 0 text

-- `text.index(quote)`; none is `ValueError`
unfoldable pub index_from : ℕ → String → String → Option ℕ
unfolding is_prefix
index_from i quote [] = if is_prefix quote [] then some i else none
index_from i quote (c ∷ text) =
    let later = index_from (suc i) quote text in
    if is_prefix quote (c ∷ text) then some i else later

unfoldable pub index : String → String → Option ℕ
unfolding index_from
index text quote = index_from 0 quote text

abbrev starts_line : String → Bool
starts_line [] = false
starts_line (c ∷ s) = code c == b'\n'

-- `text.replace("\r\n", "\n")`
unfoldable pub replace_crlf : String → String
replace_crlf [] = []
replace_crlf (c ∷ s) =
    let rest = replace_crlf s in if (code c == b'\r') && starts_line s then rest else c ∷ rest
