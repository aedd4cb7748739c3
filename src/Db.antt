-- ===== src/Db.antt =====
-- server/internal/db: the Postgres repository.
pub mod Platform
pub mod Tables
pub mod Rows
pub mod Statements
pub mod Accepted
pub mod Ensures
pub mod Repository
pub mod Transaction
pub mod Effects
pub mod Invariant
pub mod Redelivery
pub mod Reordering
pub mod Frontier
pub mod Atomicity
pub mod Finality
pub mod Fuel
pub mod Progress
pub mod Outbox
pub mod Expiry
