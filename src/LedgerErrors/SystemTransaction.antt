-- ===== src/LedgerErrors/SystemTransaction.antt =====
-- The errors `SystemTransactionError` of ledger/src/versions/common/types.rs, with their codes in the order of
-- the source.
use midnight_node.Prelude.{ℕ, List, [], ◌∷◌}

pub data SystemTransactionError : Type 0 where
  illegal_payout insufficient_treasury_funds commitment_already_present unknown_error
        replay_protection_failure illegal_reserve_distribution generation_info_already_present
        invalid_basis_points invariant_violation treasury_disabled :
      SystemTransactionError

-- The code of an error in the conversion of `LedgerApiError` into a byte.
unfoldable pub code : SystemTransactionError → ℕ
code illegal_payout = 201
code insufficient_treasury_funds = 202
code commitment_already_present = 203
code unknown_error = 204
code replay_protection_failure = 205
code illegal_reserve_distribution = 206
code generation_info_already_present = 207
code invalid_basis_points = 208
code invariant_violation = 209
code treasury_disabled = 210

-- All of the errors.
abbrev pub errors : List SystemTransactionError
errors =
    illegal_payout ∷ insufficient_treasury_funds ∷ commitment_already_present ∷ unknown_error
    ∷ replay_protection_failure ∷ illegal_reserve_distribution ∷ generation_info_already_present
    ∷ invalid_basis_points ∷ invariant_violation ∷ treasury_disabled ∷ []
