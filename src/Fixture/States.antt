-- ===== src/Fixture/States.antt =====
-- `FixtureBuilder.state`.
use litharness_contracts.Prelude.{String, [], ◌∷◌}
use litharness_contracts.Value.{Value, nothing, instance_of}
use litharness_contracts.Serde.Defaults.{fits}
use litharness_contracts.Contracts.State.{
  state_record_kind, state_authority, state_record, state_snapshot,
}
use litharness_contracts.Fixture.Spec.{StateSpec}
use litharness_contracts.Fixture.Errors.{Built, built, each, ◌>>=◌, Yields, yields, Yields-bind}
use litharness_contracts.Fixture.Builder.{Digests, FixtureBuilder, make_ref}
use litharness_contracts.Fixture.Manuscript.{attributes, make_meta}
use litharness_contracts.Fixture.Parts.{
  enum_value, text_or_none, data_or_none, text_values, spans, Fits, enum_value-Fits, each-AllFit,
  spans-AllFit, text_or_none-Fits, data_or_none-Fits, text_values-AllFit,
}

unfoldable pub position_of : String → Value
position_of order_key =
    instance_of "StoryPosition"
      (attributes (("order_key", Value.str order_key) ∷ ("label", nothing) ∷ []))

module _ (dg : Digests) (b : FixtureBuilder) where
  unfoldable pub state_record_of : StateSpec → Built Value
  unfolding enum_value data_or_none text_or_none text_values spans position_of
  state_record_of r = do
    kind ← enum_value state_record_kind r.kind
    authority ← enum_value state_authority r.authority
    evidence ← spans dg b r.evidence
    built (
        instance_of "StateRecord" (
          attributes (
            ("record_id", Value.str r.id)
            ∷ ("kind", kind)
            ∷ ("subject", Value.str r.subject)
            ∷ ("predicate", Value.str r.predicate)
            ∷ ("value", data_or_none r.value)
            ∷ ("object_ref", nothing)
            ∷ ("story_position", position_of r.position)
            ∷ ("authority", authority)
            ∷ ("pov_visibility", Value.list (text_values r.pov_visibility))
            ∷ ("evidence", Value.list evidence)
            ∷ ("confidence", nothing)
            ∷ ("predicate_registry_version", Value.str "fixture.v1")
            ∷ ("note", text_or_none r.note)
            ∷ [])))

  unfoldable pub state : Built Value
  unfolding state_record_of each make_meta
  state = do
    records ← each state_record_of b.spec.state_records
    built (
        instance_of "StateSnapshot" (
          attributes (
            ("meta", make_meta dg b "state_snapshot" "r1")
            ∷ ("book_id", Value.str b.book_id)
            ∷ ("branch_id", Value.str b.branch_id)
            ∷ ("revision_id", Value.str b.revision_id)
            ∷ ("records", Value.list records)
            ∷ ("as_of", nothing)
            ∷ [])))

  state_record_of-Fits : (r : StateSpec) → Yields (Fits state_record) (state_record_of r)
  unfolding state_record_of fits position_of
  state_record_of-Fits r = Yields-bind (enum_value-Fits state_record_kind r.kind) λ kind hk.
      Yields-bind (enum_value-Fits state_authority r.authority) λ authority ha.
        Yields-bind (spans-AllFit dg b r.evidence) λ evidence he. yields (
          rw (
            hk,
            data_or_none-Fits r.value,
            ha,
            text_values-AllFit r.pov_visibility,
            he,
            text_or_none-Fits r.note,
          ))

  pub state-Fits : Yields (Fits state_snapshot) state
  unfolding state fits make_meta make_ref
  state-Fits =
      Yields-bind
        (each-AllFit state_record_of state_record b.spec.state_records state_record_of-Fits)
        λ records h. yields (rw h)
