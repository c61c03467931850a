-- ===== src/Midnight/Types.antt =====
-- The storage of the pallet, with the two items of other pallets that it reads, and the interface of
-- the ledger. The records of the ledger are those of ledger/src/common/types.rs and
-- ledger/src/versions/block_context/post_ledger_8.rs; hashes are numbers, a key, a transaction, an
-- address and a text are byte lists.
use midnight_node.Prelude.{ℕ, Bool, Option, List}
use midnight_node.LedgerErrors.{
  LedgerApiError, deserialization, serialization, transaction, ledger_cache_error, no_ledger_state,
  ledger_state_scale_decoding_error, contract_call_cost_error, block_limit_exceeded_error,
  fee_calculation_error, host_api_error, get_transaction_context_error, TransactionError,
}
use midnight_node.LedgerErrors.Deserialization.{DeserializationError}
use midnight_node.LedgerErrors.Serialization.{SerializationError}

abbrev pub Bytes : Type 0
Bytes = List ℕ

pub record BlockContext : Type 0 where
  pub tblock : ℕ
  pub tblock_err : ℕ
  pub parent_block_hash : Bytes
  pub last_block_time : ℕ

pub record UtxoInfo : Type 0 where
  pub address : ℕ
  pub token_type : ℕ
  pub intent_hash : ℕ
  pub value : ℕ
  pub output_no : ℕ

-- `TransactionAppliedStateRoot`.
pub record Applied : Type 0 where
  pub state_root : Bytes
  pub tx_hash : ℕ
  pub all_applied : Bool
  pub call_addresses : List Bytes
  pub deploy_addresses : List Bytes
  pub maintain_addresses : List Bytes
  pub claim_rewards : List ℕ
  pub unshielded_utxos_created : List UtxoInfo
  pub unshielded_utxos_spent : List UtxoInfo

pub data Event : Type 0 where
  contract_call contract_deploy : ℕ → Bytes → Event
  tx_applied : ℕ → Event
  contract_maintain : ℕ → Bytes → Event
  payout_minted : ℕ → Bytes → Event
  claim_rewards : ℕ → ℕ → Event
  unshielded_tokens : List UtxoInfo → List UtxoInfo → Event
  tx_partial_success : ℕ → Event

pub data Error : Type 0 where
  new_state_out_of_bounds : Error
  deserialization_error : DeserializationError → Error
  serialization_error : SerializationError → Error
  transaction_error : TransactionError → Error
  cache_error missing_ledger_state scale_decoding_error call_cost_error limit_exceeded_error
        cost_error host_error network_id_not_string context_error :
      Error
  -- An error of `ensure_root`.
  bad_origin : Error

-- `From<LedgerApiError> for Error`.
unfoldable pub from_ledger : LedgerApiError → Error
from_ledger (deserialization e) = deserialization_error e
from_ledger (serialization e) = serialization_error e
from_ledger (transaction e) = transaction_error e
from_ledger ledger_cache_error = cache_error
from_ledger no_ledger_state = missing_ledger_state
from_ledger ledger_state_scale_decoding_error = scale_decoding_error
from_ledger contract_call_cost_error = call_cost_error
from_ledger block_limit_exceeded_error = limit_exceeded_error
from_ledger fee_calculation_error = cost_error
from_ledger host_api_error = host_error
from_ledger get_transaction_context_error = context_error

-- A value, or an error.
pub data Result (E A : Type 0) : Type 0 where
  ok : A → Result E A
  err : E → Result E A

-- The calls of the ledger that change its database or fill its caches return the rest of the chain,
-- in which these are; the others only read it.
pub record Ledger (World : Type 0) : Type 0 where
  pub ensure_storage_initialized : World → World
  pub flush_storage : World → World
  pub post_block_update : Bytes → BlockContext → World → Result LedgerApiError Bytes × World
  pub apply_transaction :
      Bytes → Bytes → BlockContext → ℕ → World → Result LedgerApiError Applied × World
  pub validate_transaction :
      Bytes → Bytes → BlockContext → ℕ → ℕ → World → Result LedgerApiError ℕ × World
  pub validate_guaranteed_execution :
      Bytes → Bytes → BlockContext → ℕ → World → Result LedgerApiError Unit × World
  pub get_contract_state : Bytes → Bytes → World → Result LedgerApiError Bytes
  pub get_zswap_chain_state : Bytes → Bytes → World → Result LedgerApiError Bytes
  pub get_unclaimed_amount : Bytes → Bytes → World → Result LedgerApiError ℕ
  pub get_ledger_parameters : Bytes → World → Result LedgerApiError Bytes
  pub get_transaction_cost : Bytes → Bytes → BlockContext → ℕ → World → Result LedgerApiError ℕ
  pub get_zswap_state_root : Bytes → World → Result LedgerApiError Bytes
  pub get_ledger_state_root : Bytes → World → Result LedgerApiError Bytes

-- The configuration, with the specification version, the largest `ref_time` of a block and the
-- operations on weights.
pub record Runtime (Origin Weight World : Type 0) : Type 0 where
  pub ledger : Ledger World
  pub ensure_root : Origin → Bool
  pub slot_duration : ℕ
  pub spec_version : ℕ
  pub max_block_ref_time : ℕ
  pub from_ref_time : ℕ → Weight
  pub add_weight : Weight → Weight → Weight

-- `timestamp` is the `Now` of the timestamp pallet in milliseconds, and `parent_hash` that of
-- `frame_system`.
pub record Storage (Weight World : Type 0) : Type 0 where
  pub state_key : Option Bytes
  pub parent_timestamp : ℕ
  pub network_id : Option Bytes
  pub transaction_size_weight : Weight
  pub on_initialize_weight : Weight
  pub on_runtime_upgrade_weight : Weight
  pub max_skipped_slots : ℕ
  pub timestamp : ℕ
  pub parent_hash : Bytes
  pub events : List Event
  pub world : World

pub data Call (Weight : Type 0) : Type 0 where
  send_mn_transaction : Bytes → Call Weight
  set_tx_size_weight : Weight → Call Weight

-- `TransactionValidity`: the provided tag, with the prefix `Midnight`, and the longevity; or the code
-- of `InvalidTransaction::Custom`.
pub data Validity : Type 0 where
  valid : ℕ → ℕ → Validity
  custom : ℕ → Validity
