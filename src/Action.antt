-- ===== src/Action.antt =====
-- internal/app/action: what the handlers of actions decide.
pub mod Move
pub mod Retreat
mod Tests
