-- ===== src/Contracts.antt =====
-- The contract types of src/litharness_contracts/, one module for each of its files.
pub mod Ids
pub mod Envelope
pub mod Manuscript
pub mod Plans
pub mod State
pub mod Context
pub mod Generation
pub mod Evaluation
pub mod Events
pub mod Propagation
pub mod Runs
pub mod Goldens
pub mod Conductor
pub mod Registry
pub mod Registered
pub mod Artifacts
pub mod Exports
