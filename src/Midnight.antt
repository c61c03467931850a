-- ===== src/Midnight.antt =====
-- The midnight pallet, which keeps the state key of the ledger: pallets/midnight/src/lib.rs.
pub mod Types
pub mod Calls
pub mod Hooks
pub mod Validation
pub mod Applying
pub mod Clock
pub mod Blocks
mod Tests
