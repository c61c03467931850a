-- ===== src/LedgerErrors/Tests.antt =====
-- The theorems at concrete errors.
use midnight_node.Prelude.{◌≡◌, refl, true}
use midnight_node.LedgerErrors.{
  deserialization, transaction, malformed, no_ledger_state, transaction_code, code,
}
use midnight_node.LedgerErrors.Deserialization
use midnight_node.LedgerErrors.Malformed
use midnight_node.LedgerErrors.Codes.{code_injective}
use midnight_node.LedgerErrors.Ranges.{in_range, code-in_range}

-- The code of an unknown network is the code 0, that the midnight pallet also gives where the state
-- key is missing.
network_id_code : code (deserialization Deserialization.network_id) ≡ 0
unfolding code Deserialization.code
network_id_code = refl

code_injective_example : no_ledger_state ≡ no_ledger_state
code_injective_example = code_injective no_ledger_state no_ledger_state refl

code-in_range_example :
    in_range (transaction (malformed Malformed.out_of_dust_validity_window)) 171 ≡ true
unfolding code Malformed.code transaction_code
code-in_range_example =
    code-in_range (transaction (malformed Malformed.out_of_dust_validity_window))
