-- ===== src/Gorm.antt =====
-- internal/adapter/repo/gorm: the ports of the stores on the tables of a database.
pub mod Table
pub mod Rows
mod Transactions
pub mod States
pub mod Locking
pub mod Loading
pub mod Saving
pub mod Sleeping
pub mod Records
pub mod Objects
pub mod Credentials
pub mod Chunks
pub mod Registering
mod Samples
mod Tests
mod RegisterTests
