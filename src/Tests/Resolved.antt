-- ===== src/Tests/Resolved.antt =====
-- Target ids of a small book.
use litharness_contracts.Prelude.{◌≡◌, refl, sym, ◌∙◌, ap, String, true, false, eq_iff, some-eq}
use litharness_contracts.Value.{Value, nothing}
use litharness_contracts.Serde.Typing.{HasType}
use litharness_contracts.Contracts.Ids.{resource_ref}
use litharness_contracts.Fixture.Errors.{built}
use litharness_contracts.Fixture.Text.{is_prefix, replace_crlf}
use litharness_contracts.Fixture.Builder.{
  builder_with, get, load_texts, load_versions, assign, make_ref, record_ref,
  record_kind_to_resource, resolve_target, is_some,
}
use litharness_contracts.Fixture.Resolved.{
  Names, names_book, names_scene, names_record, names_plan, names_finding, names_derived,
  names_query, names_entity, NamesOne, RecordsAreKnown, Resolves, resource_name,
  resolve_target-Resolves, resolve_target_sole,
}
use litharness_contracts.Tests.Samples.{digests}
use litharness_contracts.Tests.Build.{small_book, made, makes}

resolves_event : resolve_target made "k1" ≡ built (make_ref made "k1" "state_event" nothing)
unfolding resolve_target get record_ref record_kind_to_resource builder_with load_texts
    load_versions assign replace_crlf
resolves_event = refl

resolve_target-Resolves_example :
    HasType resource_ref (make_ref made "k1" "state_event" nothing)
    × Resolves made "k1" (make_ref made "k1" "state_event" nothing)
resolve_target-Resolves_example =
    resolve_target-Resolves made "k1" (make_ref made "k1" "state_event" nothing) resolves_event

event_is_known : RecordsAreKnown made "k1"
unfolding get builder_with record_kind_to_resource
event_is_known kind h = ap (λ k. is_some (record_kind_to_resource k)) (sym (some-eq h))

event_only :
    (kind : String) (version : Value)
    → Names made "k1" kind version
    → (kind ≡ "state_event") × (version ≡ nothing)
unfolding get builder_with load_versions assign is_prefix
event_only kind version (names_book is) =
    let bad : false ≡ true = (eq_iff "k1" "book").1 is in absurd (cc)
event_only kind version (names_scene v is) = absurd (cc)
event_only kind version (names_record k r is known name) =
    (name ∙ ap resource_name (sym (some-eq is)), refl)
event_only kind version (names_plan is) = absurd (cc)
event_only kind version (names_finding is) = absurd (cc)
event_only kind version (names_derived is) = absurd (cc)
event_only kind version (names_query is) = absurd (cc)
event_only kind version (names_entity is) = absurd (cc)

event_is_one : NamesOne made "k1"
event_is_one kind other version another h g =
    let (k, v) = event_only kind version h in
    let (j, w) = event_only other another g in (k ∙ sym j, v ∙ sym w)

k1_is_named : Names made "k1" "state_event" nothing
unfolding get builder_with
k1_is_named = names_record "event" "state_event" refl refl refl

resolve_target_sole_example :
    resolve_target made "k1" ≡ built (make_ref made "k1" "state_event" nothing)
resolve_target_sole_example =
    resolve_target_sole digests small_book made "k1" "state_event" nothing makes event_is_known
      event_is_one k1_is_named
