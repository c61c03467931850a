-- ===== src/LedgerErrors/Deserialization.antt =====
-- The errors `DeserializationError` of ledger/src/versions/common/types.rs, with their codes in the order of
-- the source.
use midnight_node.Prelude.{ℕ, List, [], ◌∷◌}

pub data DeserializationError : Type 0 where
  network_id transaction ledger_state contract_address public_key typed_arena_key
        versioned_arena_key user_address system_transaction dust_public_key
        cnight_generates_dust_action_type cnight_generates_dust_event :
      DeserializationError

-- The code of an error in the conversion of `LedgerApiError` into a byte.
unfoldable pub code : DeserializationError → ℕ
code network_id = 0
code transaction = 1
code ledger_state = 2
code contract_address = 3
code public_key = 4
code versioned_arena_key = 5
code user_address = 6
code typed_arena_key = 7
code system_transaction = 8
code dust_public_key = 9
code cnight_generates_dust_action_type = 10
code cnight_generates_dust_event = 11

-- All of the errors.
abbrev pub errors : List DeserializationError
errors =
    network_id ∷ transaction ∷ ledger_state ∷ contract_address ∷ public_key ∷ typed_arena_key
    ∷ versioned_arena_key ∷ user_address ∷ system_transaction ∷ dust_public_key
    ∷ cnight_generates_dust_action_type ∷ cnight_generates_dust_event ∷ []
