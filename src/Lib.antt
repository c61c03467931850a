-- ===== src/Lib.antt =====
-- The Midnight node is a Substrate node: its runtime is a set of FRAME pallets, which share the
-- storage of the chain, and its state on the Midnight side is kept in a ledger behind a host
-- interface. Modelled are seven pallets with their data types, the source of the cNIGHT observations,
-- the filter of the transaction pool, and the reordering of UTXOs.
--
-- The parts and how they interact:
--
-- * pallets/throttle is a transaction extension. `validate` looks at the bytes that the signer has
--   used in the current window, `prepare` charges a transaction. Both stand in Throttle, the
--   accounting over sequences of transactions and blocks in Throttle.Trace, Throttle.Bounds and
--   Throttle.Windows.
-- * pallets/federated-authority collects approvals of a call from authority bodies. `motion_approve`,
--   `motion_revoke`, `motion_close` and their helpers stand in FederatedAuthority.Calls over the data
--   of FederatedAuthority.Types; the proportions and the origins of types.rs stand in
--   FederatedAuthority.Origins. Approvals, Closing and Invariant are about these calls, History,
--   Given and Unanimity about sequences of calls and blocks, and SetSizes about sets of approvals.
-- * pallets/federated-authority-observation copies the members of the two bodies from Cardano by an
--   inherent. Members has the sorting and the test for duplicates, Calls the calls, the genesis and
--   the hook, and Inherent the making and the checking of the inherent. The members of the bodies go
--   to two membership pallets, which are parameters.
-- * primitives/cnight-observation gives positions and headers their order
--   (CNightObservation.Position). pallets/cnight-observation follows cNIGHT UTXOs and registrations
--   on Cardano: Types has its storage, Mappings the registrations, Utxos the creation and the
--   spending, Process the call `process_tokens` and the hook, Genesis the genesis and Inherent the
--   inherent. Order, Registrations, Ownership, Observer, Blocks and Layer are about these, the last
--   one about the call in its storage layer. It sends system
--   transactions to the ledger through an executor, which is a parameter.
-- * pallets/system-parameters keeps the terms and conditions and the D-parameter:
--   SystemParameters, and SystemParameters.History for sequences of calls.
-- * ledger/src/versions/common/types.rs has the errors of the ledger and their codes: LedgerErrors,
--   with one child module for each enumeration.
-- * pallets/midnight keeps the state key of the ledger and passes transactions on to it: Types has its
--   storage and the interface of the ledger, Calls the calls and `mut_ledger_state`, Hooks the hooks
--   and the genesis, Validation the checks of transactions and the getters. Applying, Clock and
--   Blocks are about these. The codes of its invalid transactions are those of LedgerErrors.
-- * pallets/midnight-system applies system transactions to the same state key: MidnightSystem, and
--   MidnightSystem.Executing about it.
-- * primitives/mainchain-follower reads the observations from a database of Cardano. CNightSource has
--   `get_utxos_up_to_capacity` of data_source/cnight_observation.rs: Rows the rows and the queries of
--   db/, Decoding and Source the UTXOs of the rows, Merging and Capacity the sorting and the truncation
--   to the transactions of a block. Agreement is about the order, Sorting, Counting, Truncating,
--   Occurring and Completeness about the truncation, Tables, Limits, Hidden, Covering and Observing about the queries, and
--   Complete, CatchingUp and Resuming about the whole. The inherent data provider of
--   idp/cnight_observation.rs, over the runtime API of runtime/src/lib.rs, stands in CNightInherents;
--   it gives the observations to pallets/cnight-observation. CNightInherents.Accepted is about one
--   inherent in `process_tokens`, and CNightInherents.Chain about blocks one after the other.
-- * data_source/federated_authority_observation.rs of the same crate decodes the members of the
--   federated authority from Cardano: FederatedAuthoritySource, and FederatedAuthoritySource.Decoded
--   about it. Its data go to the inherent of pallets/federated-authority-observation.
-- * node/src/filtering_pool.rs keeps extrinsics from the transaction pool by the operations of their
--   transactions: FilteringPool, FilteringPool.Policy about what passes and FilteringPool.Accounting
--   about its counters, of which that of prometheus for the denials is a parameter.
-- * ledger/src/versions/common/utxo_ordering_override.rs puts the UTXOs of some transactions in a
--   recorded order: UtxoOrdering, with Removing and Reordering about it.
--
-- How the code is written down: the storage items of a pallet are a record, a storage map is a
-- function from keys, and a function of the pallet takes the storage and returns the new one with its
-- result. A call's error is a constructor of a result type; a panic is `none`. Where FRAME wraps a call
-- in a storage layer, which undoes the changes of a call that fails, the body of the call stands
-- apart, and the theorem on the call takes the layer as a parameter with this behaviour. Where another pallet, the ledger or the node's database has
-- a state, this is the `World` of the storage. Hashes, account ids, block numbers and weights of the
-- configured types are numbers or parameters, and vectors of bytes are lists of numbers.
--
-- Bounds: an addition that saturates in the source is cut off at the largest value of its 32 or 64
-- bits (`saturating_u32`, `saturating_u64`), a cast to 32 bits is a remainder, and a bounded vector
-- is tested for its length. Numbers that the source only compares are not bounded; so the
-- numbers of blocks and transactions in a query, which the source casts to `i32`, are taken as below
-- 2 ^ 31. All loops of the
-- modelled code run over lists, and so do the definitions; none of them takes fuel. Only `catch_up`
-- of CNightSource.Resuming and `blocks` of CNightInherents.Chain, which are not in the code, make a
-- given number of calls or blocks. The
-- overestimate of 64 rows for a transaction in the limit of a query is a hypothesis on the tables.
--
-- What the code calls and this library cannot read is a parameter: origins, membership
-- handlers, the dispatch of a call, bounded sets, weights, hash functions, the ledger. Records of laws
-- (`IsMembership`, `BoundedSet`, `IsPrometheus`) state what is relied on of them, and the Tests modules give concrete
-- ones.
--
-- Not modelled: benchmarks and weights, which are measurements; SCALE encodings and metadata; log
-- lines; the runtime's configuration; the node's service, command line and networking,
-- which are input and output; the joins of the queries of primitives/mainchain-follower and its
-- other data sources; the ledger behind ledger/src, which calls crates outside this repository; the
-- relay and the tools.
pub mod Prelude
pub mod Throttle
pub mod FederatedAuthority
pub mod FederatedAuthorityObservation
pub mod CNightObservation
pub mod SystemParameters
pub mod LedgerErrors
pub mod Midnight
pub mod MidnightSystem
pub mod UtxoOrdering
pub mod FilteringPool
pub mod CNightSource
pub mod CNightInherents
pub mod FederatedAuthoritySource
