-- ===== src/Midnight/Validation.antt =====
-- The validation of transactions and the getters of pallets/midnight/src/lib.rs.
use midnight_node.Prelude.{ℕ, ◌+◌, ◌*◌, ◌/◌, Option, none, some, saturating_u64}
use midnight_node.LedgerErrors.{LedgerApiError, no_ledger_state, code}
use midnight_node.Midnight.Types.{
  Bytes, BlockContext, Result, ok, err, Runtime, Storage, Call, send_mn_transaction,
  set_tx_size_weight, Validity, valid, custom,
}
use midnight_node.Midnight.Calls.{get_block_context}

-- The code that `Default` gives.
abbrev pub default_code : ℕ
default_code = 0

abbrev pub longevity : ℕ
longevity = 600

module _ {Origin Weight World : Type 0} (rt : Runtime Origin Weight World) where
  open rt use {ledger}

  -- The context of the pool: `tblock` is that of the block expected after the skipped slots.
  unfoldable pub pool_context : Storage Weight World → BlockContext
  pool_context s =
      let slot_duration_secs = saturating_u64 rt.slot_duration / 1000 in
      let skipped_slots_margin = saturating_u64 (slot_duration_secs * s.max_skipped_slots) in
      let context = get_block_context s in
      record context {
        tblock =
            saturating_u64
              (saturating_u64 (context.tblock + slot_duration_secs) + skipped_slots_margin);
      }

  abbrev validity : Result LedgerApiError ℕ → Validity
  validity (ok tx_hash) = valid tx_hash longevity
  validity (err e) = custom (code e)

  abbrev validate_with :
      Option Bytes → Bytes → BlockContext → Storage Weight World → Validity × Storage Weight World
  validate_with none midnight_tx context s = (custom default_code, s)
  validate_with (some key) midnight_tx context s =
      let (result, w) =
        ledger.validate_transaction key midnight_tx context rt.spec_version rt.max_block_ref_time
          s.world in
      (validity result, record s { world = w })

  -- `Pallet::validate_unsigned`, in a given context.
  unfoldable pub validate_in_context :
      Call Weight → BlockContext → Storage Weight World → Validity × Storage Weight World
  validate_in_context (send_mn_transaction midnight_tx) context s =
      validate_with s.state_key midnight_tx context s
  validate_in_context (set_tx_size_weight new_weight) context s = (custom default_code, s)

  unfoldable pub validate_unsigned :
      Call Weight → Storage Weight World → Validity × Storage Weight World
  unfolding pool_context
  validate_unsigned call s = validate_in_context call (pool_context s) s

  abbrev pub dispatchable : Result LedgerApiError Unit → Result ℕ Unit
  dispatchable (ok u) = ok tt
  dispatchable (err e) = err (code e)

  abbrev pre_dispatch_with :
      Option Bytes → Bytes → Storage Weight World → Result ℕ Unit × Storage Weight World
  pre_dispatch_with none midnight_tx s = (err default_code, s)
  pre_dispatch_with (some key) midnight_tx s =
      let (result, w) =
        ledger.validate_guaranteed_execution key midnight_tx (get_block_context s) rt.spec_version
          s.world in
      (dispatchable result, record s { world = w })

  -- The result is the code of the invalid transaction, if there is one.
  unfoldable pub pre_dispatch :
      Call Weight → Storage Weight World → Result ℕ Unit × Storage Weight World
  pre_dispatch (send_mn_transaction midnight_tx) s = pre_dispatch_with s.state_key midnight_tx s
  pre_dispatch (set_tx_size_weight new_weight) s = (err default_code, s)

  -- `StateKey::get().ok_or(NoLedgerState)?` before a call of the ledger.
  abbrev with_key :
      {A : Type 0} → Option Bytes → (Bytes → Result LedgerApiError A) → Result LedgerApiError A
  with_key none f = err no_ledger_state
  with_key (some key) f = f key

  unfoldable pub get_contract_state : Bytes → Storage Weight World → Result LedgerApiError Bytes
  get_contract_state address s =
      with_key s.state_key (λ key. ledger.get_contract_state key address s.world)

  unfoldable pub get_zswap_chain_state : Bytes → Storage Weight World → Result LedgerApiError Bytes
  get_zswap_chain_state address s =
      with_key s.state_key (λ key. ledger.get_zswap_chain_state key address s.world)

  unfoldable pub get_unclaimed_amount : Bytes → Storage Weight World → Result LedgerApiError ℕ
  get_unclaimed_amount beneficiary s =
      with_key s.state_key (λ key. ledger.get_unclaimed_amount key beneficiary s.world)

  unfoldable pub get_ledger_parameters : Storage Weight World → Result LedgerApiError Bytes
  get_ledger_parameters s = with_key s.state_key (λ key. ledger.get_ledger_parameters key s.world)

  unfoldable pub get_transaction_cost : Bytes → Storage Weight World → Result LedgerApiError ℕ
  get_transaction_cost tx s = with_key s.state_key (λ key.
      ledger.get_transaction_cost key tx (get_block_context s) rt.max_block_ref_time s.world)

  unfoldable pub get_zswap_state_root : Storage Weight World → Result LedgerApiError Bytes
  get_zswap_state_root s = with_key s.state_key (λ key. ledger.get_zswap_state_root key s.world)

  unfoldable pub get_ledger_state_root : Storage Weight World → Result LedgerApiError Bytes
  get_ledger_state_root s = with_key s.state_key (λ key. ledger.get_ledger_state_root key s.world)

  abbrev cost_weight : Result LedgerApiError ℕ → Weight
  cost_weight (ok gas_cost) = rt.from_ref_time gas_cost
  cost_weight (err e) = rt.from_ref_time 20000000000

  unfoldable pub get_tx_weight : Bytes → Storage Weight World → Weight
  unfolding get_transaction_cost
  get_tx_weight tx s =
      rt.add_weight (cost_weight (get_transaction_cost tx s)) s.transaction_size_weight
