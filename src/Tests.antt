-- ===== src/Tests.antt =====
-- Runs of the model on concrete data, and the theorems at inputs that meet their hypotheses.
mod Samples
mod Serializer
mod Compat
mod Fixtures
mod Build
mod Schemas
mod Commands
mod Validation
mod Buildable
mod Resolved
mod Reload
