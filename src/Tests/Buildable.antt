-- ===== src/Tests/Buildable.antt =====
-- Which books can be built.
use litharness_contracts.Prelude.{String, ◌≡◌, ◌↔◌, refl, true, List, [], ◌∷◌}
use litharness_contracts.Json.{Json}
use litharness_contracts.Fixture.Errors.{built, failed, key_error}
use litharness_contracts.Fixture.Builder.{
  FixtureBuilder, builder_with, get, load_texts, load_versions, assign, record_kind_to_resource,
  record_ref, resolve_target,
}
use litharness_contracts.Fixture.Text.{count, count_after, is_prefix, replace_crlf}
use litharness_contracts.Fixture.Build.{build}
use litharness_contracts.Fixture.Buildable.{buildable, has_resource, quotable}
use litharness_contracts.Fixture.Buildable.Whole.{build_iff}
use litharness_contracts.Tests.Samples.{runtime, digests}
use litharness_contracts.Tests.Build.{small_book, made, makes}

build_iff_example :
    ((files : List (String × Json)) × (build digests made ≡ built files)) ↔ (buildable made ≡ true)
build_iff_example = build_iff runtime digests small_book made makes

can_be_built : buildable made ≡ true
unfolding buildable has_resource quotable builder_with get load_texts load_versions assign
    replace_crlf count count_after is_prefix record_kind_to_resource
can_be_built = refl

-- the same book, with a record whose kind is `unknown`
abbrev vague : FixtureBuilder
vague = record made { record_kinds = ("k1", "unknown") ∷ [] }

-- A target that is such a record raises the `KeyError` of the table of resource kinds.
vague_target : resolve_target vague "k1" ≡ failed (key_error "unknown")
unfolding resolve_target record_ref record_kind_to_resource get builder_with load_texts
    load_versions assign replace_crlf
vague_target = refl
