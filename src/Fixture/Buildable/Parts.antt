-- ===== src/Fixture/Buildable/Parts.antt =====
-- When the calls that the methods share return.
use litharness_contracts.Prelude.{
  String, ◌≡◌, refl, sym, ◌∙◌, ap, Bool, true, false, ◌&&◌, ◌||◌, ◌==◌, Option, none, some, List,
  [], ◌∷◌, all, if◌then◌else◌, str_eq, contains, Bool-cases, Option-cases, inl, inr, arith,
}
use litharness_contracts.Value.{Value, Values}
use litharness_contracts.Types.{EnumClass, has_value}
use litharness_contracts.Fixture.Text.{count, is_prefix}
use litharness_contracts.Fixture.Spec.{Citation}
use litharness_contracts.Fixture.Errors.{Built, built, failed, each, ◌>>=◌}
use litharness_contracts.Fixture.Builder.{
  Digests, FixtureBuilder, get, is_some, scene_ref, record_ref, resolve_target,
  record_kind_to_resource,
}
use litharness_contracts.Fixture.Spans.{span, span_in, span_at}
use litharness_contracts.Fixture.Parts.{enum_value, spans}
use litharness_contracts.Fixture.Total.{SameKeys, span_of_one, has}
use litharness_contracts.Fixture.Buildable.{quotable, citable, resolvable, has_resource}

or_false : (p : Bool) → (p || false) ≡ p
or_false true = refl
or_false false = refl

-- The call returns.
abbrev pub is_built : {A : Type 0} → Built A → Bool
is_built (built a) = true
is_built (failed e) = false

-- A chain returns where its first call and what follows return.
pub is_built-then :
    {S T : Type 0} (r : Built S) (next : S → Built T) (p q : Bool)
    → is_built r ≡ p
    → (p ≡ true → (s : S) → is_built (next s) ≡ q)
    → is_built (r >>= next) ≡ (p && q)
is_built-then (built s) next p q h k = rw (← h) (k (sym h) s)
is_built-then (failed e) next p q h k = rw (← h) refl

pub is_built-last :
    {S T : Type 0} (r : Built S) (f : S → T) → is_built (r >>= λ s. built (f s)) ≡ is_built r
is_built-last (built s) f = refl
is_built-last (failed e) f = refl

pub enum_value-is_built : (e : EnumClass) (s : String) → is_built (enum_value e s) ≡ has_value e s
unfolding enum_value
enum_value-is_built e s = elim (Bool-cases (has_value e s)) [
  | inl has ↦ rw has refl
  | inr lacks ↦ rw lacks refl
]

pub each-is_built :
    {A : Type 0} (make : A → Built Value) (ok : A → Bool) (items : List A)
    → ((a : A) → is_built (make a) ≡ ok a)
    → is_built (each make items) ≡ all ok items
unfolding each
each-is_built make ok [] h = refl
each-is_built make ok (a ∷ items) h =
    is_built-then (make a) _ (ok a) (all ok items) (h a)
      λ _ v. is_built-last (each make items) (Values.cons v) ∙ each-is_built make ok items h

module _ (dg : Digests) (b : FixtureBuilder) (same : SameKeys b.scene_text b.scene_version) where
  pub span-is_built :
      (scene_id quote : String) → is_built (span dg b scene_id quote) ≡ quotable b scene_id quote
  unfolding span span_in span_at quotable
  span-is_built scene_id quote = elim (Option-cases (get scene_id b.scene_text)) [
    | inl unknown ↦ rw unknown refl
    | inr (text, e) ↦ elim (Bool-cases (count text quote == 1)) [
      | inr more ↦ rw (e, more) refl
      | inl one ↦
          let (v, is) = span_of_one dg b scene_id quote text same e (ground arith) in
          let returns : is_built (span dg b scene_id quote) ≡ true = rw is refl in
          returns ∙ rw (e, one) refl
    ]
  ]

  pub spans-is_built : (items : List Citation) → is_built (spans dg b items) ≡ all (citable b) items
  unfolding spans
  spans-is_built items = each-is_built _ (citable b) items (λ c. span-is_built c.scene c.quote)

  scene_ref-is_built : (id : String) → is_built (scene_ref b id) ≡ has id b.scene_text
  unfolding scene_ref
  scene_ref-is_built id = elim (Option-cases (get id b.scene_version)) [
    | inl lacks ↦ rw lacks (sym (same id ∙ ap is_some lacks))
    | inr (v, e) ↦ rw e (sym (same id ∙ ap is_some e))
  ]

  record_ref-is_built :
      (id : String) (o : Option String) → is_built (record_ref b id o) ≡ has_resource o
  unfolding record_ref has_resource
  record_ref-is_built id none = refl
  record_ref-is_built id (some kind) = elim (Option-cases (record_kind_to_resource kind)) [
    | inl lacks ↦ rw lacks refl
    | inr (r, e) ↦ rw e refl
  ]

  if_is_built :
      (c q : Bool) (v : Value) (y : Built Value)
      → is_built y ≡ q
      → is_built (if c then built v else y) ≡ (c || q)
  if_is_built true q v y h = refl
  if_is_built false q v y h = h

  pub resolve_target-is_built : (id : String) → is_built (resolve_target b id) ≡ resolvable b id
  unfolding resolve_target resolvable
  resolve_target-is_built id = elim (Bool-cases (str_eq id "book")) [
    | inl book ↦ rw book refl
    | inr other ↦ elim (Bool-cases (is_some (get id b.scene_text))) [
      | inl scene ↦ rw (other, scene) (scene_ref-is_built id ∙ scene)
      | inr no_scene ↦ elim (Bool-cases (is_some (get id b.record_kinds))) [
        | inl record_id ↦
            rw (other, no_scene, record_id) (record_ref-is_built id (get id b.record_kinds))
        | inr no_record ↦
            rw (other, no_scene, no_record)
              (if_is_built (contains id b.plan_ids) _ _ _ (
                if_is_built (contains id b.finding_ids) _ _ _ (
                  if_is_built (contains id b.derived) _ _ _ (
                    if_is_built (contains id b.query_ids) _ _ _ (
                      if_is_built (is_prefix "entity:" id) false _ _ refl
                      ∙ or_false (is_prefix "entity:" id))))))
      ]
    ]
  ]
