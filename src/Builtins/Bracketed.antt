-- ===== src/Builtins/Bracketed.antt =====
-- The tokens of a list or an object that `json.dumps` writes.
use Prim.Native.String.{[] as empty, ◌∷◌ as push, ◌++◌ as join}
use text.Mathlib.TextLemmas.{nil-append, append_assoc as join_assoc}
use litharness_contracts.Prelude.{
  ℕ, suc, Char, String, ◌≡◌, refl, sym, subst, ◌∙◌, ap, false, List, [], ◌∷◌, ◌++◌, append_assoc,
}
use litharness_contracts.Builtins.Dump.{bracketed, separated, new_line, dump_text}
use litharness_contracts.Builtins.Lex.{Token, comma, colon, string, punctuates, outside, act}
use litharness_contracts.Builtins.Pieces.{
  Ends, Stands, Ends-Stands, Ends-join, Ends-between, Stands-join, mark, space_gap, new_line-Ends,
  dump_text-Ends,
}

a_comma : act outside "," ≡ punctuates comma
unfolding act
a_comma = refl

a_colon : act outside ":" ≡ punctuates colon
unfolding act
a_colon = refl

-- The further parts, in front of an end.
abbrev pub Follow : String → List String → List Token → Type 0
Follow line parts ts =
    (closing : String) (cs : List Token)
    → Ends closing cs
    → Ends (join (separated (join "," line) parts) closing) (ts ++ cs)

pub no_more : (line : String) → Follow line [] []
no_more line closing cs h = subst (λ s. Ends s cs) (sym (nil-append closing)) h

pub one_more :
    (line s : String) (parts : List String) (ts us : List Token)
    → Ends line []
    → Stands s ts
    → Follow line parts us
    → Follow line (s ∷ parts) (comma ∷ (ts ++ us))
one_more line s parts ts us hl stands ends closing cs h =
    let separator = join "," line in
    let others = separated separator parts in
    let between =
      Ends-between separator s (join others closing) (comma ∷ []) ts (us ++ cs)
        (Ends-join "," line (comma ∷ []) [] (mark "," comma a_comma) hl) stands
        (ends closing cs h) in
    subst (λ t. Ends t (comma ∷ ((ts ++ us) ++ cs)))
      (ap (join separator) (sym (join_assoc s others closing))
        ∙ sym (join_assoc separator (join s others) closing))
      (subst (λ vs. Ends (join separator (join s (join others closing))) (comma ∷ vs))
        (sym (append_assoc ts us cs)) between)

module _ (level : ℕ) (c d : Char) (begin end : Token) (hc : act outside c ≡ punctuates begin)
    (hd : act outside d ≡ punctuates end) where
  pub empty-Stands : Stands (bracketed level (push c empty) (push d empty) []) (begin ∷ end ∷ [])
  unfolding bracketed
  empty-Stands = Ends-Stands (join (push c empty) (push d empty)) (begin ∷ end ∷ []) (
      Ends-join (push c empty) (push d empty) (begin ∷ []) (end ∷ []) (mark c begin hc)
        (mark d end hd))

  pub bracketed-Stands :
      (s : String) (parts : List String) (ts us : List Token)
      → Stands s ts
      → Follow (new_line (suc level)) parts us
      → Stands
          (bracketed level (push c empty) (push d empty) (s ∷ parts))
          (begin ∷ (ts ++ (us ++ (end ∷ []))))
  unfolding bracketed
  bracketed-Stands s parts ts us stands ends =
      let line = new_line (suc level) in
      let others = separated (join "," line) parts in
      let closing = join (new_line level) (push d empty) in
      let closes =
        Ends-join (new_line level) (push d empty) [] (end ∷ []) (new_line-Ends level)
          (mark d end hd) in
      let inner = join line (join s (join others closing)) in
      let between =
        Ends-between line s (join others closing) [] ts (us ++ (end ∷ []))
          (new_line-Ends (suc level)) stands (ends closing (end ∷ []) closes) in
      Ends-Stands (join (push c empty) inner) (begin ∷ (ts ++ (us ++ (end ∷ [])))) (
        Ends-join (push c empty) inner (begin ∷ []) (ts ++ (us ++ (end ∷ []))) (mark c begin hc)
          between)

pub member-Stands :
    (k s : String) (ts : List Token)
    → Stands s ts
    → Stands (join (dump_text false k) (join ": " s)) (string k ∷ colon ∷ ts)
member-Stands k s ts stands =
    Stands-join (dump_text false k) (join ": " s) (string k ∷ []) (colon ∷ ts) (dump_text-Ends k) (
      Stands-join ": " s (colon ∷ []) ts
        (Ends-join ":" " " (colon ∷ []) [] (mark ":" colon a_colon) space_gap) stands)

pub inner_assoc :
    (ts us : List Token) (end : Token) (rest : List Token)
    → (ts ++ (us ++ (end ∷ []))) ++ rest ≡ ts ++ (us ++ (end ∷ rest))
inner_assoc ts us end rest =
    append_assoc ts (us ++ (end ∷ [])) rest ∙ ap (λ vs. ts ++ vs) (append_assoc us (end ∷ []) rest)
