-- ===== src/Commands/Each.antt =====
-- The loop of both commands: `for name, item in ...`, which writes a text for each item to a file of
-- one directory and prints its path.
use litharness_contracts.Prelude.{
  String, ◌≡◌, refl, sym, ◌∙◌, subst, true, false, not, Option, none, some, List, [], ◌∷◌, map,
  if◌then◌else◌, str_eq, eq_iff, &&-true, Bool-cases, Option-cases, inl, inr, arith, contains,
  distinct,
}
use litharness_contracts.Commands.Files.{
  Files, read, write, read-write, World, not_rendered, Ended, ended, raised, ◌>>=◌, ended-injective,
  write_shown, or_else,
}

module _ {A : Type 0} (file_name : String → String) (render : String → A → Option String) where
  abbrev pub file_names : List (String × A) → List String
  file_names items = map (λ p. file_name p.0) items

  -- The text of the item with a file's name.
  unfoldable pub text_at : String → List (String × A) → Option String
  text_at m [] = none
  text_at m ((name, a) ∷ items) =
      if str_eq (file_name name) m then render name a else text_at m items

  text_at-absent :
      (m : String) (items : List (String × A))
      → contains m (file_names items) ≡ false
      → text_at m items ≡ none
  unfolding text_at
  text_at-absent m [] h = refl
  text_at-absent m ((name, a) ∷ items) h = elim (Bool-cases (str_eq (file_name name) m)) [
    | inl same ↦ let bad : true ≡ false = rw same at h in absurd (cc)
    | inr other ↦ rw other (text_at-absent m items (rw other at h))
  ]

  module _ (shown d : String) where
    unfoldable pub write_text : String → Option String → World → Ended
    unfolding write_shown
    write_text name none w = raised not_rendered w
    write_text name (some text) w = ended (write_shown shown d (file_name name) text w)

    unfoldable pub write_each : List (String × A) → World → Ended
    unfolding write_text
    write_each [] w = ended w
    write_each ((name, a) ∷ items) w = write_text name (render name a) w >>= write_each items

    -- What is read after the loop where it writes nothing but `o` at the directory's file `m`.
    abbrev after : String → Option String → Option String → Option String
    after e o old = if str_eq d e then or_else o old else old

    after-write :
        (e m name text : String) (items : List (String × A)) (files : Files) {r : Option String}
        → contains (file_name name) (file_names items) ≡ false
        → r ≡ after e (text_at m items) (read e m (write d (file_name name) text files))
        → r
          ≡ after e
              (if str_eq (file_name name) m then some text else text_at m items)
              (read e m files)
    after-write e m name text items files {r} apart h =
        let step = read-write d (file_name name) e m text files in
        elim (Bool-cases (str_eq d e)) [
          | inr away ↦ h ∙ rw (step, away) refl
          | inl there ↦ elim (Bool-cases (str_eq (file_name name) m)) [
            | inr other ↦ h ∙ rw (step, there, other) refl
            | inl same ↦
                let none_later : text_at m items ≡ none = text_at-absent m items (
                  subst (λ s. contains s (file_names items) ≡ false)
                    ((eq_iff (file_name name) m).0 same) apart) in
                h ∙ rw (step, there, same, none_later) refl
          ]
        ]

    -- After the loop a file of the directory holds the text of its item, and any other file what it
    -- held before.
    pub write_each-read :
        (items : List (String × A)) (w w' : World)
        → distinct (file_names items) ≡ true
        → write_each items w ≡ ended w'
        → (e m : String)
        → read e m w'.files
          ≡ (if str_eq d e then or_else (text_at m items) (read e m w.files) else read e m w.files)
    unfolding write_each text_at
    write_each-read [] w w' apart h e m = rw (sym (ended-injective h)) (ground arith)
    write_each-read ((name, a) ∷ items) w w' apart h e m =
        let (fresh, rest) =
          &&-true (not (contains (file_name name) (file_names items))) (distinct (file_names items))
            apart in
        elim (Option-cases (render name a)) [
          | inl refused ↦
              let bad : raised not_rendered w ≡ ended w' = rw refused at h in absurd (cc)
          | inr (text, is) ↦
              let later : write_each items (write_shown shown d (file_name name) text w)
                  ≡ ended w' =
                rw is at h in
              let read_later = write_each-read items _ w' rest later e m in
              rw is (after-write e m name text items w.files (ground arith) read_later)
        ]

    -- Whether the loop ends does not depend on what there was before.
    pub write_each-ends :
        (items : List (String × A)) (w w' v : World)
        → write_each items w ≡ ended w'
        → (v' : World) × (write_each items v ≡ ended v')
    unfolding write_each
    write_each-ends [] w w' v h = (v, refl)
    write_each-ends ((name, a) ∷ items) w w' v h = elim (Option-cases (render name a)) [
      | inl refused ↦ let bad : raised not_rendered w ≡ ended w' = rw refused at h in absurd (cc)
      | inr (text, is) ↦
          let later : write_each items (write_shown shown d (file_name name) text w) ≡ ended w' =
            rw is at h in
          let (v', e) =
            write_each-ends items _ w' (write_shown shown d (file_name name) text v) later in
          (v', rw is e)
    ]

    -- Where the loop ends, each of its files has a text.
    pub write_each-renders :
        (items : List (String × A)) (w w' : World) (m : String)
        → write_each items w ≡ ended w'
        → contains m (file_names items) ≡ true
        → (text : String) × (text_at m items ≡ some text)
    unfolding write_each text_at
    write_each-renders [] w w' m h among = absurd (cc)
    write_each-renders ((name, a) ∷ items) w w' m h among = elim (Option-cases (render name a)) [
      | inl refused ↦ let bad : raised not_rendered w ≡ ended w' = rw refused at h in absurd (cc)
      | inr (text, is) ↦ elim (Bool-cases (str_eq (file_name name) m)) [
        | inl same ↦ (text, rw same is)
        | inr other ↦
            let later : write_each items (write_shown shown d (file_name name) text w) ≡ ended w' =
              rw is at h in
            let (t, e) = write_each-renders items _ w' m later (rw other at among) in
            (t, rw other e)
      ]
    ]
