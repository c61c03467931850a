-- ===== src/CNightObservation/Types.antt =====
-- The data that the mainchain follower observes, the storage and the events of the pallet, and
-- what it takes from the ledger and from FRAME.
use midnight_node.Prelude.{ℕ, Bool, Option, List, ◌≡◌, refl, ◌⊎◌, inl, inr}
use midnight_node.CNightObservation.Position.{CardanoPosition, ObservedUtxoHeader}

pub record RegistrationData : Type 0 where
  pub cardano_reward_address : ℕ
  pub dust_public_key : ℕ

pub record DeregistrationData : Type 0 where
  pub cardano_reward_address : ℕ
  pub dust_public_key : ℕ

pub record CreateData : Type 0 where
  pub value : ℕ
  pub owner : ℕ
  pub utxo_tx_hash : List ℕ
  pub utxo_tx_index : ℕ

pub record SpendData : Type 0 where
  pub value : ℕ
  pub owner : ℕ
  pub utxo_tx_hash : List ℕ
  pub utxo_tx_index : ℕ
  pub spending_tx_hash : List ℕ

pub data ObservedUtxoData : Type 0 where
  registration : RegistrationData → ObservedUtxoData
  deregistration : DeregistrationData → ObservedUtxoData
  asset_create : CreateData → ObservedUtxoData
  asset_spend : SpendData → ObservedUtxoData

pub record ObservedUtxo : Type 0 where
  pub header : ObservedUtxoHeader
  pub payload : ObservedUtxoData

pub record MappingEntry : Type 0 where
  pub cardano_reward_address : ℕ
  pub dust_public_key : ℕ
  pub utxo_tx_hash : List ℕ
  pub utxo_index : ℕ

pub record CmstHeader : Type 0 where
  pub block_hash : List ℕ
  pub tx_index_in_block : ℕ

-- The first two hold an address and a key, the last the hash of the system transaction.
pub data Event : Type 0 where
  registered : ℕ → ℕ → Event
  deregistered : ℕ → ℕ → Event
  mapping_added : MappingEntry → Event
  mapping_removed : MappingEntry → Event
  system_transaction_applied : CmstHeader → ℕ → Event

pub data Error : Type 0 where
  max_cardano_addr_length_exceeded inherent_already_executed : Error
  cardano_position_regression too_many_utxos bad_origin : Error
  -- An error of the executor of system transactions, by its code.
  execution : ℕ → Error

-- The storage items of the pallet; a missing key of `Mappings` reads as the empty list.
pub record Storage (World : Type 0) : Type 0 where
  pub mapping_validator_address : List ℕ
  pub auth_token_asset_name : List ℕ
  pub cnight_policy_id : List ℕ
  pub cnight_asset_name : List ℕ
  pub mappings : ℕ → List MappingEntry
  pub utxo_owners : ℕ → Option ℕ
  pub next_cardano_position : CardanoPosition
  pub cardano_block_window_size : ℕ
  pub cardano_tx_capacity_per_block : ℕ
  pub inherent_executed_this_block : Bool
  pub events : List Event
  pub world : World

pub data Execution : Type 0 where
  executed : ℕ → Execution
  not_executed : ℕ → Execution

pub Execution-cases :
    (x : Execution)
    → ((tx_hash : ℕ) × (x ≡ executed tx_hash)) ⊎ ((code : ℕ) × (x ≡ not_executed code))
Execution-cases (executed tx_hash) = inl (tx_hash, refl)
Execution-cases (not_executed code) = inr (code, refl)

-- `LedgerApi`, the hash of the runtime, the executor of system transactions and the origins. A
-- serialised event is made of a value, a key, a time, the action and a nonce.
pub record Runtime (Origin World : Type 0) : Type 0 where
  pub hash : List ℕ → ℕ
  pub construct_event : ℕ → ℕ → ℕ → ℕ → ℕ → Option (List ℕ)
  pub construct_system_tx : List (List ℕ) → Option (List ℕ)
  pub execute_system_transaction : List ℕ → World → Execution × World
  pub ensure_none : Origin → Bool
  pub ensure_root : Origin → Bool
