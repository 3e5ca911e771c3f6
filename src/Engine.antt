-- ===== src/Engine.antt =====
-- internal/app/action: the use case that carries out an action.
pub mod Context
pub mod Intent
pub mod Stores
pub mod Report
pub mod Finalize
pub mod Objects
pub mod Checks
pub mod Seeds
pub mod Settling
pub mod Handlers
pub mod Persist
pub mod Execute
pub mod Samples
mod Tests
