-- ===== src/CNightObservation.antt =====
-- The cNIGHT observation: primitives/cnight-observation/src/lib.rs (`Position`, `Order`) and the
-- pallet pallets/cnight-observation/src/lib.rs (the other children). Hashes are byte lists where
-- the code orders or concatenates their bytes; reward addresses and DUST keys are natural numbers,
-- since the code only compares them and passes them on.
pub mod Position
pub mod Order
pub mod Types
pub mod Mappings
pub mod Utxos
pub mod Process
pub mod Genesis
pub mod Inherent
pub mod Registrations
pub mod Observer
pub mod Ownership
pub mod Blocks
pub mod Layer
mod Tests
