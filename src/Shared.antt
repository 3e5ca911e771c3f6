-- ===== src/Shared.antt =====
-- internal/app/shared: what the use cases derive from a state and from its events.
pub mod Depletion
pub mod Stateview
pub mod Cooldown
mod Tests
