-- ===== src/Commands/Named.antt =====
-- The loop over items whose files are apart: each item is found by its name.
use litharness_contracts.Prelude.{
  String, ◌≡◌, refl, true, false, not, Option, some, List, [], ◌∷◌, str_eq, eq_iff, eq_refl,
  &&-true, Bool-cases, inl, inr, arith, contains, distinct, find, some-eq,
}
use litharness_contracts.Commands.Files.{World, ended, write_shown}
use litharness_contracts.Commands.Each.{write_each, write_text, text_at, file_names}

module _ {A : Type 0} (file_name : String → String) (render : String → A → Option String) where
  find-contains :
      (n : String) (a : A) (items : List (String × A))
      → find n items ≡ some a
      → contains (file_name n) (file_names file_name render items) ≡ true
  unfolding find
  find-contains n a [] h = absurd (cc)
  find-contains n a ((name, b) ∷ items) h = elim (Bool-cases (str_eq name n)) [
    | inl same ↦ rw ((eq_iff name n).0 same, eq_refl (file_name n)) refl
    | inr other ↦ let later = find-contains n a items (rw other at h) in ground arith
  ]

  -- An item's file is no later item's.
  pub later-apart :
      (name n : String) (a : A) (items : List (String × A))
      → contains (file_name name) (file_names file_name render items) ≡ false
      → find n items ≡ some a
      → str_eq (file_name name) (file_name n) ≡ false
  later-apart name n a items fresh h = elim (Bool-cases (str_eq (file_name name) (file_name n))) [
    | inr other ↦ other
    | inl same ↦
        let among = find-contains n a items h in
        let bad : true ≡ false =
          rw ((eq_iff (file_name name) (file_name n)).0 same, among) at fresh in
        absurd (cc)
  ]

  pub find-text_at :
      (n : String) (a : A) (items : List (String × A))
      → distinct (file_names file_name render items) ≡ true
      → find n items ≡ some a
      → text_at file_name render (file_name n) items ≡ render n a
  unfolding find text_at
  find-text_at n a [] apart h = absurd (cc)
  find-text_at n a ((name, b) ∷ items) apart h =
      let (fresh, rest) =
        &&-true (not (contains (file_name name) (file_names file_name render items)))
          (distinct (file_names file_name render items)) apart in
      elim (Bool-cases (str_eq name n)) [
        | inl same ↦
            let is : b ≡ a = some-eq (rw same at h) in
            rw ((eq_iff name n).0 same, eq_refl (file_name n), is) refl
        | inr other ↦
            let found = rw other at h in
            rw (later-apart name n a items (ground arith) found) (find-text_at n a items rest found)
      ]

  -- The loop ends where each item is rendered.
  pub write_each-total :
      (shown d : String) (items : List (String × A)) (w : World)
      → distinct (file_names file_name render items) ≡ true
      → ((n : String) (a : A) → find n items ≡ some a → (text : String) × (render n a ≡ some text))
      → (w' : World) × (write_each file_name render shown d items w ≡ ended w')
  unfolding find write_each write_text
  write_each-total shown d [] w apart h = (w, refl)
  write_each-total shown d ((name, b) ∷ items) w apart h =
      let (fresh, rest) =
        &&-true (not (contains (file_name name) (file_names file_name render items)))
          (distinct (file_names file_name render items)) apart in
      let (text, is) = h name b (rw (eq_refl name) refl) in
      let (w', later) =
        write_each-total shown d items (write_shown shown d (file_name name) text w) rest
          λ n a found. elim (Bool-cases (str_eq name n)) [
            | inr other ↦ h n a (rw other found)
            | inl same ↦
                let away = later-apart name n a items (ground arith) found in
                let bad : true ≡ false =
                  rw ((eq_iff name n).0 same, eq_refl (file_name n)) at away in
                absurd (cc)
          ] in
      (w', rw is later)
