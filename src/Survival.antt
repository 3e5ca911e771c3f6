-- ===== src/Survival.antt =====
-- The domain of an agent that has to survive: internal/domain/survival.
pub mod Types
pub mod Value
pub mod Tuning
pub mod State
pub mod Rules
pub mod Production
pub mod Drain
pub mod Payload
pub mod Effect
pub mod Settlement
pub mod Costs
pub mod Tables
pub mod Samples
mod Tests
