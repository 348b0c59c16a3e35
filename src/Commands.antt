-- ===== src/Commands.antt =====
-- The commands of tools/ that write files, and the two renderers that they call.
pub mod Files
pub mod Each
pub mod Named
pub mod Render
pub mod Fixtures
pub mod Rebuild
pub mod Schemas
pub mod Shipped
pub mod Reload
pub mod Left
pub mod Ascii
