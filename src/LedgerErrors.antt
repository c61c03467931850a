-- ===== src/LedgerErrors.antt =====
-- The errors of the ledger interface and their codes: ledger/src/versions/common/types.rs. The
-- five enumerations inside `LedgerApiError` have a child module each.
pub mod Deserialization
pub mod Serialization
pub mod Invalid
pub mod Malformed
pub mod SystemTransaction
pub mod Codes
pub mod Ranges
mod Tests
use midnight_node.Prelude.{ℕ, Option, none, some, List, [], ◌∷◌, ◌++◌, map, ◌==◌, if◌then◌else◌}
use midnight_node.LedgerErrors.Deserialization
use midnight_node.LedgerErrors.Deserialization.{DeserializationError}
use midnight_node.LedgerErrors.Serialization
use midnight_node.LedgerErrors.Serialization.{SerializationError}
use midnight_node.LedgerErrors.Invalid
use midnight_node.LedgerErrors.Invalid.{InvalidError}
use midnight_node.LedgerErrors.Malformed
use midnight_node.LedgerErrors.Malformed.{MalformedError}
use midnight_node.LedgerErrors.SystemTransaction
use midnight_node.LedgerErrors.SystemTransaction.{SystemTransactionError}

pub data TransactionError : Type 0 where
  invalid : InvalidError → TransactionError
  malformed : MalformedError → TransactionError
  system_transaction : SystemTransactionError → TransactionError

pub data LedgerApiError : Type 0 where
  deserialization : DeserializationError → LedgerApiError
  serialization : SerializationError → LedgerApiError
  transaction : TransactionError → LedgerApiError
  ledger_cache_error no_ledger_state ledger_state_scale_decoding_error contract_call_cost_error
        block_limit_exceeded_error fee_calculation_error host_api_error
        get_transaction_context_error :
      LedgerApiError

unfoldable pub transaction_code : TransactionError → ℕ
transaction_code (invalid e) = Invalid.code e
transaction_code (malformed e) = Malformed.code e
transaction_code (system_transaction e) = SystemTransaction.code e

-- The byte that stands for an error in the validity of a transaction: `From<LedgerApiError> for u8`.
unfoldable pub code : LedgerApiError → ℕ
code (deserialization e) = Deserialization.code e
code (serialization e) = Serialization.code e
code (transaction e) = transaction_code e
code ledger_cache_error = 150
code no_ledger_state = 151
code ledger_state_scale_decoding_error = 152
code contract_call_cost_error = 153
code block_limit_exceeded_error = 154
code fee_calculation_error = 155
code get_transaction_context_error = 165
code host_api_error = 255
