-- ===== src/Fixture.antt =====
-- The fixture builder, src/litharness_contracts/fixture_build.py, and the accessor of the built
-- files, src/litharness_contracts/fixtures/__init__.py.
pub mod Text
pub mod Occurrences
pub mod Spec
pub mod Errors
pub mod Builder
pub mod Spans
pub mod Bounds
pub mod Total
pub mod Typed
pub mod Manuscript
pub mod Parts
pub mod Plans
pub mod States
pub mod Findings
pub mod Contexts
pub mod Impacts
pub mod Meta
pub mod Whole
pub mod Build
pub mod Accessor
pub mod Wheel
pub mod Cited
pub mod Buildable
pub mod Resolved
