-- ===== src/World.antt =====
-- The world: internal/domain/world, and its generation in internal/adapter/world/runtime.
pub mod Types
pub mod Clock
pub mod Terrain
pub mod Provider
mod Tests
