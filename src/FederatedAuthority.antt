-- ===== src/FederatedAuthority.antt =====
-- The federated authority pallet: pallets/federated-authority/src/lib.rs and, in the child
-- `Origins`, pallets/federated-authority/src/types.rs. The dispatchable calls are functions from
-- the pallet's storage to a result and the new storage, as the Rust bodies run; `Runtime` is what
-- they take from the configuration trait and from FRAME.
pub mod Origins
pub mod Types
pub mod Calls
pub mod Approvals
pub mod Closing
pub mod Invariant
pub mod History
pub mod SetSizes
pub mod Given
pub mod Unanimity
mod Tests
