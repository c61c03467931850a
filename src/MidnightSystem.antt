-- ===== src/MidnightSystem.antt =====
-- The system transactions of the ledger: pallets/midnight-system/src/lib.rs. The pallet changes the
-- state key of the midnight pallet through `mut_ledger_state`; a panic of that is `none`. What the
-- ledger does with a system transaction is a parameter, as are the origin check and the version.
pub mod Executing
mod Tests
use midnight_node.Prelude.{ℕ, Bool, Option, none, some, List, [], ◌∷◌, ◌++◌, if◌then◌else◌}
use midnight_node.LedgerErrors.{LedgerApiError}
use midnight_node.Midnight.Types
use midnight_node.Midnight.Types.{Bytes, BlockContext, Result, ok, err}
use midnight_node.Midnight.Calls.{get_block_context, mut_ledger_state}

pub data Event : Type 0 where
  system_transaction_applied : ℕ → Bytes → Event

pub data Error : Type 0 where
  ledger_api_error : LedgerApiError → Error
  system_transaction_not_allowed_for_governance : Error
  -- An error of `ensure_root`.
  bad_origin : Error

-- The result of `apply_system_transaction` is the new state root and the hash.
pub record Runtime (Origin World : Type 0) : Type 0 where
  pub ensure_root : Origin → Bool
  pub is_governance_allowed_system_tx : Bytes → Bool
  pub apply_system_transaction :
      Bytes → Bytes → BlockContext → ℕ → World → Result LedgerApiError (Bytes × ℕ) × World
  pub spec_version : ℕ

pub record Storage (Weight World : Type 0) : Type 0 where
  pub midnight : Types.Storage Weight World
  pub events : List Event

abbrev map_err : Result LedgerApiError (Bytes × ℕ) → Result Error (Bytes × ℕ)
map_err (ok r) = ok r
map_err (err e) = err (ledger_api_error e)

module _ {Origin World : Type 0} (rt : Runtime Origin World) where
  -- The closure that `mut_ledger_state` takes.
  abbrev apply_with : Bytes → BlockContext → Bytes → World → Result Error (Bytes × ℕ) × World
  apply_with tx context key w =
      let (result, w') = rt.apply_system_transaction key tx context rt.spec_version w in
      (map_err result, w')

module _ {Weight World : Type 0} where
  abbrev deposit_applied :
      Bytes
      → Option (Result Error ℕ × Types.Storage Weight World)
      → Storage Weight World
      → Option (Result Error ℕ × Storage Weight World)
  deposit_applied tx none s = none
  deposit_applied tx (some (err e, m)) s = some (err e, record s { midnight = m })
  deposit_applied tx (some (ok hash, m)) s = some (
    ok hash,
    record s { midnight = m; events = s.events ++ system_transaction_applied hash tx ∷ [] },
  )

  abbrev forget_hash :
      Option (Result Error ℕ × Storage Weight World)
      → Option (Result Error Unit × Storage Weight World)
  forget_hash none = none
  forget_hash (some (ok hash, s)) = some (ok tt, s)
  forget_hash (some (err e, s)) = some (err e, s)

module _ {Origin Weight World : Type 0} (rt : Runtime Origin World) where
  unfoldable pub execute_system_transaction :
      Bytes → Storage Weight World → Option (Result Error ℕ × Storage Weight World)
  unfolding mut_ledger_state
  execute_system_transaction tx s =
      deposit_applied tx
        (mut_ledger_state (apply_with rt tx (get_block_context s.midnight)) s.midnight) s

  unfoldable pub send_mn_system_transaction :
      Origin → Bytes → Storage Weight World → Option (Result Error Unit × Storage Weight World)
  unfolding execute_system_transaction
  send_mn_system_transaction origin tx s =
      if rt.ensure_root origin
      then if rt.is_governance_allowed_system_tx tx
        then forget_hash (execute_system_transaction tx s)
        else some (err system_transaction_not_allowed_for_governance, s)
      else some (err bad_origin, s)
