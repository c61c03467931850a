-- ===== src/Midnight/Calls.antt =====
-- The block context, the two calls and the changes of the state key: pallets/midnight/src/lib.rs.
use midnight_node.Prelude.{
  ℕ, ◌/◌, ◌&&◌, Option, none, some, List, [], ◌∷◌, ◌++◌, map, leb, if◌then◌else◌, is_empty, length,
  saturating_u64,
}
use midnight_node.LedgerErrors.{LedgerApiError}
use midnight_node.Midnight.Types.{
  Bytes, BlockContext, Applied, Event, contract_call, contract_deploy, contract_maintain,
  claim_rewards, unshielded_tokens, tx_applied, tx_partial_success, Error, missing_ledger_state,
  new_state_out_of_bounds, bad_origin, from_ledger, Result, ok, err, Runtime, Storage,
}

-- `StateKeyLength` and `MaxNetworkIdLength`.
abbrev pub state_key_length : ℕ
state_key_length = 1065

abbrev pub max_network_id_length : ℕ
max_network_id_length = 64

-- `try_into` of a vector into a `BoundedVec`.
abbrev pub bounded : ℕ → Bytes → Option Bytes
bounded n key = if leb (length key) n then some key else none

module _ {Weight World : Type 0} where
  abbrev pub get_block_context : Storage Weight World → BlockContext
  get_block_context s = record {
    tblock = saturating_u64 (s.timestamp / 1000);
    tblock_err = 30;
    parent_block_hash = s.parent_hash;
    last_block_time = s.parent_timestamp;
  }

  -- `StateKey::put` of a new key that is in bounds; `none` is the panic of the `expect`.
  abbrev pub put_state_key : Bytes → Storage Weight World → Option (Storage Weight World)
  put_state_key key s =
      if leb (length key) state_key_length then some (record s { state_key = some key }) else none

-- The events of an applied transaction, in their order.
abbrev unshielded_event : Applied → List Event
unshielded_event a =
    if is_empty a.unshielded_utxos_created && is_empty a.unshielded_utxos_spent
    then []
    else unshielded_tokens a.unshielded_utxos_spent a.unshielded_utxos_created ∷ []

abbrev pub final_event : Applied → Event
final_event a = if a.all_applied then tx_applied a.tx_hash else tx_partial_success a.tx_hash

unfoldable pub applied_events : Applied → List Event
applied_events a =
    map (contract_call a.tx_hash) a.call_addresses
    ++ map (contract_deploy a.tx_hash) a.deploy_addresses
    ++ map (contract_maintain a.tx_hash) a.maintain_addresses
    ++ map (claim_rewards a.tx_hash) a.claim_rewards
    ++ unshielded_event a
    ++ final_event a ∷ []

module _ {Origin Weight World : Type 0} (rt : Runtime Origin Weight World) where
  open rt use {ledger}

  abbrev store_applied :
      Option Bytes → Applied → Storage Weight World → Result Error Unit × Storage Weight World
  store_applied none a s = (err new_state_out_of_bounds, s)
  store_applied (some key) a s =
      (ok tt, record s { state_key = some key; events = s.events ++ applied_events a })

  abbrev pub after_apply :
      Result LedgerApiError Applied
      → Storage Weight World
      → Result Error Unit × Storage Weight World
  after_apply (err e) s = (err (from_ledger e), s)
  after_apply (ok a) s = store_applied (bounded state_key_length a.state_root) a s

  abbrev apply_to :
      Option Bytes → Bytes → Storage Weight World → Result Error Unit × Storage Weight World
  apply_to none midnight_tx s = (err missing_ledger_state, s)
  apply_to (some key) midnight_tx s =
      let (result, w) =
        ledger.apply_transaction key midnight_tx (get_block_context s) rt.spec_version s.world in
      after_apply result (record s { world = w })

  unfoldable pub send_mn_transaction :
      Bytes → Storage Weight World → Result Error Unit × Storage Weight World
  send_mn_transaction midnight_tx s = apply_to s.state_key midnight_tx s

  unfoldable pub set_tx_size_weight :
      Origin → Weight → Storage Weight World → Result Error Unit × Storage Weight World
  set_tx_size_weight origin new_weight s =
      if rt.ensure_root origin
      then (ok tt, record s { transaction_size_weight = new_weight })
      else (err bad_origin, s)

module _ {Weight World E R : Type 0} where
  abbrev store_mutated :
      Result E (Bytes × R) → Storage Weight World → Option (Result E R × Storage Weight World)
  store_mutated (err e) s = some (err e, s)
  store_mutated (ok (key, r)) s =
      if leb (length key) state_key_length
      then some (ok r, record s { state_key = some key })
      else none

  abbrev mutate_key :
      (Bytes → World → Result E (Bytes × R) × World)
      → Option Bytes
      → Storage Weight World
      → Option (Result E R × Storage Weight World)
  mutate_key f none s = none
  mutate_key f (some key) s =
      let (result, w) = f key s.world in store_mutated result (record s { world = w })

  -- `mut_ledger_state`; `none` is a panic.
  unfoldable pub mut_ledger_state :
      (Bytes → World → Result E (Bytes × R) × World)
      → Storage Weight World
      → Option (Result E R × Storage Weight World)
  mut_ledger_state f s = mutate_key f s.state_key s
