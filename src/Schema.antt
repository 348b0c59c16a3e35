-- ===== src/Schema.antt =====
-- JSON Schema generation, src/litharness_contracts/_schema.py.
pub mod Generate
pub mod Required
pub mod Total
pub mod Refs
pub mod Gives
pub mod Closed
pub mod Definitions
pub mod Plain
pub mod Validate
