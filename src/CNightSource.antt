-- ===== src/CNightSource.antt =====
-- The source of observed cNIGHT UTXOs, primitives/mainchain-follower/src/data_source/cnight_observation.rs
-- and the queries of primitives/mainchain-follower/src/db. Rows, Decoding and Source are the code;
-- Capacity and Merging are the end of `get_utxos_up_to_capacity`. Tables and Limits are about one
-- query, Hidden, Covering and Complete about the four together, and Resuming about several calls.
pub mod Sorting
pub mod Capacity
pub mod Counting
pub mod Truncating
pub mod Merging
pub mod Agreement
pub mod Occurring
pub mod Completeness
pub mod Hidden
pub mod Covering
pub mod Rows
pub mod Decoding
pub mod Source
pub mod Tables
pub mod Limits
pub mod Observing
pub mod Complete
pub mod CatchingUp
pub mod Resuming
pub mod Tests
