-- ===== src/FederatedAuthorityObservation.antt =====
-- The federated authority observation pallet:
-- pallets/federated-authority-observation/src/lib.rs. Account ids, mainchain member ids, addresses
-- and policy ids are natural numbers: the code orders the first and compares the others.
pub mod Types
pub mod Members
pub mod Duplicates
pub mod Calls
pub mod Inherent
pub mod Reset
mod Tests
