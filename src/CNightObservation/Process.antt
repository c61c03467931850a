-- ===== src/CNightObservation/Process.antt =====
-- The call `process_tokens`, the other calls and the hook.
use Prim.Native.Nat.{Ordering}
use midnight_node.Prelude.{
  ℕ, ◌*◌, ◌/◌, ◌%◌, Bool, true, false, not, Option, none, some, List, [], ◌∷◌, ◌++◌, leb,
  if◌then◌else◌, length, is_empty, saturating_u32,
}
use midnight_node.CNightObservation.Position.{CardanoPosition, position_compare, ObservedUtxoHeader}
use midnight_node.CNightObservation.Types.{
  ObservedUtxo, ObservedUtxoData, registration, deregistration, asset_create, asset_spend,
  system_transaction_applied, Error, max_cardano_addr_length_exceeded, inherent_already_executed,
  cardano_position_regression, too_many_utxos, bad_origin, execution, Storage, executed,
  not_executed, Runtime,
}
use midnight_node.CNightObservation.Mappings.{
  deposit_event, handle_registration, handle_registration_removal,
}
use midnight_node.CNightObservation.Utxos.{handle_create, handle_spend}

-- The number of UTXOs that a call reports to have processed, or an error.
pub data Outcome : Type 0 where
  processed : ℕ → Outcome
  failed : Error → Outcome

-- `UTXO_PER_TX_OVERESTIMATE`.
abbrev pub utxo_per_tx_overestimate : ℕ
utxo_per_tx_overestimate = 64

-- `events.push`, of what a handler returns.
abbrev pub push : List (List ℕ) → Option (List ℕ) → List (List ℕ)
push events none = events
push events (some e) = events ++ e ∷ []

module _ {Origin World : Type 0} (rt : Runtime Origin World) where
  -- One round of the loop, on the events so far.
  unfoldable pub process_utxo :
      ℕ
      → ObservedUtxoHeader
      → ObservedUtxoData
      → List (List ℕ)
      → Storage World
      → List (List ℕ) × Storage World
  process_utxo now header (registration d) events s = (events, handle_registration header d s)
  process_utxo now header (deregistration d) events s =
      (events, handle_registration_removal header d s)
  process_utxo now header (asset_create d) events s =
      let (event, t) = handle_create rt now d s in (push events event, t)
  process_utxo now header (asset_spend d) events s =
      let (event, t) = handle_spend rt now d s in (push events event, t)

  unfoldable pub process_utxos :
      List ObservedUtxo → List (List ℕ) → Storage World → List (List ℕ) × Storage World
  process_utxos [] events s = (events, s)
  process_utxos (u ∷ us) events s =
      let now = u.header.tx_position.block_timestamp / 1000 in
      let (events', t) = process_utxo now u.header u.payload events s in process_utxos us events' t

  apply_system_tx : ℕ → CardanoPosition → List ℕ → Storage World → Outcome × Storage World
  unfolding deposit_event
  apply_system_tx count position tx s =
      let (result, w) = rt.execute_system_transaction tx s.world in
      elim result [
        | executed tx_hash ↦ (
          processed count,
          deposit_event
              (system_transaction_applied
                (record {
                  block_hash = position.block_hash;
                  tx_index_in_block = position.tx_index_in_block;
                })
                tx_hash)
              (record s { world = w }),
        )
        | not_executed code ↦ (failed (execution code), record s { world = w })
      ]

  -- After the loop: the new position, and the system transaction if there are events.
  unfoldable pub finish :
      ℕ → CardanoPosition → List (List ℕ) → Storage World → Outcome × Storage World
  unfolding apply_system_tx
  finish count position events s =
      let t = record s { next_cardano_position = position } in
      if is_empty events then (processed count, t) else elim (rt.construct_system_tx events) [
        | some tx ↦ apply_system_tx count position tx t
        | none ↦ (processed count, t)
      ]

  -- `next_cardano_position >= prev`.
  abbrev pub advances : CardanoPosition → CardanoPosition → Bool
  advances prev next = elim (position_compare next prev) [ Ordering.lt ↦ false | _ ↦ true ]

  -- The body behind the guard against a second inherent. A jump beyond the block window is only
  -- logged.
  unfoldable pub process_batch :
      ℕ → List ObservedUtxo → CardanoPosition → Storage World → Outcome × Storage World
  process_batch count utxos position s =
      if not (advances s.next_cardano_position position)
      then (failed cardano_position_regression, s)
      else let (events, t) = process_utxos utxos [] s in finish count position events t

  abbrev pub capacity : Storage World → ℕ
  capacity s = saturating_u32 (s.cardano_tx_capacity_per_block * utxo_per_tx_overestimate)

  -- 2 ^ 32, for the cast of a length to `u32`.
  unfoldable pub process_tokens :
      Origin → List ObservedUtxo → CardanoPosition → Storage World → Outcome × Storage World
  process_tokens origin utxos position s =
      let count = length utxos % 4294967296 in
      if not (rt.ensure_none origin)
      then (failed bad_origin, s)
      else if not (leb count (capacity s))
      then (failed too_many_utxos, s)
      else if s.inherent_executed_this_block
      then (failed inherent_already_executed, s)
      else process_batch count utxos position (record s { inherent_executed_this_block = true })

  unfoldable pub on_finalize : Storage World → Storage World
  on_finalize s = record s { inherent_executed_this_block = false }

  -- `CARDANO_BECH32_ADDRESS_MAX_LENGTH` is 108.
  unfoldable pub set_mapping_validator_contract_address :
      Origin → List ℕ → Storage World → Option Error × Storage World
  set_mapping_validator_contract_address origin address s =
      if not (rt.ensure_root origin)
      then (some bad_origin, s)
      else if leb (length address) 108
      then (none, record s { mapping_validator_address = address })
      else (some max_cardano_addr_length_exceeded, s)
