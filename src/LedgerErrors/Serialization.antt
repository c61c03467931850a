-- ===== src/LedgerErrors/Serialization.antt =====
-- The errors `SerializationError` of ledger/src/versions/common/types.rs, with their codes in the order of
-- the source.
use midnight_node.Prelude.{ℕ, List, [], ◌∷◌}

pub data SerializationError : Type 0 where
  transaction_identifier zswap_state ledger_state ledger_parameters contract_address contract_state
        contract_state_to_json unknown_type merkle_tree_digest typed_arena_key versioned_arena_key
        cnight_generates_dust_event system_transaction arena_hash :
      SerializationError

-- The code of an error in the conversion of `LedgerApiError` into a byte.
unfoldable pub code : SerializationError → ℕ
code transaction_identifier = 50
code ledger_state = 51
code ledger_parameters = 52
code contract_address = 53
code contract_state = 54
code contract_state_to_json = 55
code zswap_state = 56
code unknown_type = 57
code merkle_tree_digest = 58
code versioned_arena_key = 59
code typed_arena_key = 60
code cnight_generates_dust_event = 61
code system_transaction = 62
code arena_hash = 63

-- All of the errors.
abbrev pub errors : List SerializationError
errors =
    transaction_identifier ∷ zswap_state ∷ ledger_state ∷ ledger_parameters ∷ contract_address
    ∷ contract_state ∷ contract_state_to_json ∷ unknown_type ∷ merkle_tree_digest ∷ typed_arena_key
    ∷ versioned_arena_key ∷ cnight_generates_dust_event ∷ system_transaction ∷ arena_hash ∷ []
