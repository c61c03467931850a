-- ===== src/LedgerErrors/Invalid.antt =====
-- The errors `InvalidError` of ledger/src/versions/common/types.rs, with their codes in the order of
-- the source.
use midnight_node.Prelude.{ℕ, List, [], ◌∷◌}

pub data InvalidError : Type 0 where
  effects_mismatch contract_already_deployed contract_not_present zswap transcript
        insufficient_claimable verifier_key_not_found verifier_key_already_present
        replay_counter_mismatch replay_protection_violation balance_check_out_of_bounds
        input_not_in_utxos dust_double_spend dust_deregistration_not_registered
        generation_info_already_present invariant_violation reward_too_small unknown_error :
      InvalidError

-- The code of an error in the conversion of `LedgerApiError` into a byte.
unfoldable pub code : InvalidError → ℕ
code effects_mismatch = 100
code contract_already_deployed = 101
code contract_not_present = 102
code zswap = 103
code transcript = 104
code insufficient_claimable = 105
code verifier_key_not_found = 106
code verifier_key_already_present = 107
code replay_counter_mismatch = 108
code replay_protection_violation = 193
code balance_check_out_of_bounds = 194
code input_not_in_utxos = 195
code dust_double_spend = 196
code dust_deregistration_not_registered = 197
code generation_info_already_present = 198
code invariant_violation = 199
code reward_too_small = 200
code unknown_error = 109

-- All of the errors.
abbrev pub errors : List InvalidError
errors =
    effects_mismatch ∷ contract_already_deployed ∷ contract_not_present ∷ zswap ∷ transcript
    ∷ insufficient_claimable ∷ verifier_key_not_found ∷ verifier_key_already_present
    ∷ replay_counter_mismatch ∷ replay_protection_violation ∷ balance_check_out_of_bounds
    ∷ input_not_in_utxos ∷ dust_double_spend ∷ dust_deregistration_not_registered
    ∷ generation_info_already_present ∷ invariant_violation ∷ reward_too_small ∷ unknown_error ∷ []
