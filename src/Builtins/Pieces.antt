-- ===== src/Builtins/Pieces.antt =====
-- The tokens of texts put together: a piece that ends a token whatever follows it, and one that a
-- word may end.
use Prim.Native.String.{[] as empty, ◌∷◌ as push, ◌++◌ as join}
use text.Mathlib.TextLemmas.{
  nil-append, cons-append, append_assoc as join_assoc, append-nil as join-nil,
}
use litharness_contracts.Prelude.{
  ℕ, zero, suc, Char, String, ◌≡◌, refl, sym, ◌∙◌, ap, false, none, some, List, [], ◌∷◌, ◌++◌,
  append_assoc, some-eq,
}
use litharness_contracts.Builtins.Dump.{dump_text_then, dump_text, new_line}
use litharness_contracts.Builtins.Lex.{
  Token, string, word, Lexed, outside, inside, act, lex, keep, before, begin_text, tokens_of,
  tokens, blank, keeps, punctuates,
}
use litharness_contracts.Builtins.Lexed.{dump_char-DumpsAs, push_append}

-- Whatever tokens follow, these stand before them.
abbrev pub Ends : String → List Token → Type 0
Ends s ts =
    (rest : String) (us : List Token)
    → tokens rest ≡ some us
    → lex outside (join s rest) ≡ some (empty, ts ++ us)

-- If what follows does not go on with a word.
abbrev pub Stands : String → List Token → Type 0
Stands s ts =
    (rest : String) (us : List Token)
    → lex outside rest ≡ some (empty, us)
    → tokens (join s rest) ≡ some (ts ++ us)

ended : (s : String) (us : List Token) → lex outside s ≡ some (empty, us) → tokens s ≡ some us
unfolding tokens
ended s us h = rw h refl

front_of :
    (front us : List Token) (r : Lexed)
    → tokens_of r ≡ some us
    → before front r ≡ some (empty, front ++ us)
front_of front us none h = absurd (cc)
front_of front us (some (p, ts)) h = ap (λ vs. some (empty, front ++ vs)) (some-eq h)

before_tokens :
    (front us : List Token) (s : String)
    → tokens s ≡ some us
    → before front (lex outside s) ≡ some (empty, front ++ us)
unfolding tokens
before_tokens front us s h = front_of front us (lex outside s) h

lex-punctuates :
    (c : Char) (t : Token) (rest : String)
    → act outside c ≡ punctuates t
    → lex outside (push c rest) ≡ before (t ∷ []) (lex outside rest)
unfolding lex
lex-punctuates c t rest h = rw (lex, h) refl

lex-blank :
    (c : Char) (rest : String)
    → act outside c ≡ blank
    → lex outside (push c rest) ≡ before [] (lex outside rest)
unfolding lex
lex-blank c rest h = rw (lex, h) refl

lex-keeps :
    (c : Char) (rest : String)
    → act outside c ≡ keeps
    → lex outside (push c rest) ≡ keep c (lex outside rest)
unfolding lex
lex-keeps c rest h = rw (lex, h) refl

lex_quote : (rest : String) → lex outside (push "\"" rest) ≡ begin_text (lex inside rest)
unfolding lex act
lex_quote rest = refl

lex_end : (rest : String) → lex inside (push "\"" rest) ≡ before [] (lex outside rest)
unfolding lex act
lex_end rest = refl

pub Ends-Stands : (s : String) (ts : List Token) → Ends s ts → Stands s ts
Ends-Stands s ts h rest us hr = ended (join s rest) (ts ++ us) (h rest us (ended rest us hr))

pub Ends-join :
    (s t : String) (ts us : List Token) → Ends s ts → Ends t us → Ends (join s t) (ts ++ us)
Ends-join s t ts us hs ht rest vs h =
    ap (lex outside) (join_assoc s t rest)
    ∙ hs (join t rest) (us ++ vs) (ended (join t rest) (us ++ vs) (ht rest vs h))
    ∙ ap (λ ws. some (empty, ws)) (sym (append_assoc ts us vs))

-- A value between two such pieces.
pub Ends-between :
    (s t u : String) (ts us vs : List Token)
    → Ends s ts
    → Stands t us
    → Ends u vs
    → Ends (join s (join t u)) (ts ++ (us ++ vs))
Ends-between s t u ts us vs hs ht hu rest ws h =
    ap (lex outside) (join_assoc s (join t u) rest ∙ ap (join s) (join_assoc t u rest))
    ∙ hs (join t (join u rest)) (us ++ (vs ++ ws)) (ht (join u rest) (vs ++ ws) (hu rest ws h))
    ∙ ap (λ xs. some (empty, xs))
        (ap (λ xs. ts ++ xs) (sym (append_assoc us vs ws)) ∙ sym (append_assoc ts (us ++ vs) ws))

pub mark : (c : Char) (t : Token) → act outside c ≡ punctuates t → Ends (push c empty) (t ∷ [])
mark c t h rest us hr =
    ap (lex outside) (push_append c rest)
    ∙ lex-punctuates c t rest h
    ∙ before_tokens (t ∷ []) us rest hr

gap : (c : Char) → act outside c ≡ blank → Ends (push c empty) []
gap c h rest us hr =
    ap (lex outside) (push_append c rest) ∙ lex-blank c rest h ∙ before_tokens [] us rest hr

line_break : act outside "\n" ≡ blank
unfolding act
line_break = refl

space : act outside " " ≡ blank
unfolding act
space = refl

pub space_gap : Ends " " []
space_gap = gap " " space

pub new_line-Ends : (level : ℕ) → Ends (new_line level) []
unfolding new_line
new_line-Ends zero = gap "\n" line_break
new_line-Ends (suc level) =
    Ends-join (new_line level) "  " [] [] (new_line-Ends level)
      (Ends-join " " " " [] [] space_gap space_gap)

abbrev keep_all : String → Lexed → Lexed
keep_all s none = none
keep_all s (some (t, ts)) = some (join s t, ts)

keep-all : (c : Char) (s : String) (r : Lexed) → keep c (keep_all s r) ≡ keep_all (push c s) r
keep-all c s none = refl
keep-all c s (some (t, ts)) = ap (λ u. some (u, ts)) (sym (cons-append c s t))

keep_nothing : (r : Lexed) → r ≡ keep_all empty r
keep_nothing none = refl
keep_nothing (some (t, ts)) = ap (λ u. some (u, ts)) (sym (nil-append t))

-- The inside of a text is read back.
inside_read :
    (s rest : String) (r : Lexed)
    → lex inside rest ≡ r
    → lex inside (dump_text_then false s rest) ≡ keep_all s r
unfolding dump_text_then
inside_read empty rest r h = h ∙ keep_nothing r
inside_read (push c s) rest r h =
    let (front, is, reads) = dump_char-DumpsAs c in
    let more = dump_text_then false s rest in
    ap (lex inside) (is more) ∙ reads more ∙ ap (keep c) (inside_read s rest r h) ∙ keep-all c s r

then_append :
    (s t rest : String)
    → join (dump_text_then false s t) rest ≡ dump_text_then false s (join t rest)
unfolding dump_text_then
then_append empty t rest = refl
then_append (push c s) t rest =
    let (front, is, _) = dump_char-DumpsAs c in
    ap (λ u. join u rest) (is (dump_text_then false s t))
    ∙ join_assoc front (dump_text_then false s t) rest
    ∙ ap (join front) (then_append s t rest)
    ∙ sym (is (dump_text_then false s (join t rest)))

-- A text.
pub dump_text-Ends : (s : String) → Ends (dump_text false s) (string s ∷ [])
unfolding dump_text
dump_text-Ends s rest us h =
    let quoted = dump_text_then false s "\"" in
    ap (lex outside) (
      join_assoc "\"" quoted rest
      ∙ push_append "\"" (join quoted rest)
      ∙ ap (push "\"")
          (then_append s "\"" rest ∙ ap (dump_text_then false s) (push_append "\"" rest)))
    ∙ lex_quote (dump_text_then false s (push "\"" rest))
    ∙ ap begin_text (
        inside_read s (push "\"" rest) (some (empty, us))
          (lex_end rest ∙ before_tokens [] us rest h)
        ∙ ap (λ t. some (t, us)) (join-nil s))

-- The text of a word.
abbrev pub IsWord : String → Type 0
IsWord empty = Unit
IsWord (push c s) = (act outside c ≡ keeps) × IsWord s

word_read :
    (s rest : String) (us : List Token)
    → IsWord s
    → lex outside rest ≡ some (empty, us)
    → lex outside (join s rest) ≡ some (s, us)
word_read empty rest us h hr = ap (lex outside) (nil-append rest) ∙ hr
word_read (push c s) rest us (hc, h) hr =
    ap (lex outside) (cons-append c s rest)
    ∙ lex-keeps c (join s rest) hc
    ∙ ap (keep c) (word_read s rest us h hr)

pub word-Stands :
    (c : Char) (s : String) → IsWord (push c s) → Stands (push c s) (word (push c s) ∷ [])
unfolding tokens
word-Stands c s h rest us hr = ap tokens_of (word_read (push c s) rest us h hr)

pub Stands-join :
    (s t : String) (ts us : List Token) → Ends s ts → Stands t us → Stands (join s t) (ts ++ us)
Stands-join s t ts us hs ht rest vs h =
    ap tokens (join_assoc s t rest)
    ∙ ended (join s (join t rest)) (ts ++ (us ++ vs)) (hs (join t rest) (us ++ vs) (ht rest vs h))
    ∙ ap (λ ws. some ws) (sym (append_assoc ts us vs))
