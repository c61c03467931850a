-- ===== src/CNightSource/Capacity.antt =====
-- The truncation of the sorted UTXOs to the transactions that a block has room for, from
-- `get_utxos_up_to_capacity`.
use Prim.Native.Nat.{Ordering}
use midnight_node.Prelude.{
  ℕ, ◌+◌, Bool, true, false, Option, none, some, List, [], ◌∷◌, ltb, ◌==◌, if◌then◌else◌,
}
use midnight_node.CNightObservation.Position.{CardanoPosition, position_compare, increment}
use midnight_node.CNightObservation.Types.{ObservedUtxo}

-- The operator `<` on positions.
unfoldable pub before : CardanoPosition → CardanoPosition → Bool
unfolding position_compare
before p q = elim (position_compare p q) [ Ordering.lt ↦ true | _ ↦ false ]

abbrev pub position_of : ObservedUtxo → CardanoPosition
position_of u = u.header.tx_position

-- Whether a UTXO is the first of another transaction than the current one.
abbrev pub starts_tx : Option CardanoPosition → ObservedUtxo → Bool
starts_tx none u = true
starts_tx (some p) u = before p (position_of u)

-- The loop over the UTXOs: the ones that are kept, and the number of transactions at the end.
unfoldable pub truncate : ℕ → ℕ → Option CardanoPosition → List ObservedUtxo → List ObservedUtxo × ℕ
truncate tx_capacity num_txs cur_tx [] = ([], num_txs)
truncate tx_capacity num_txs cur_tx (u ∷ us) =
    let first = starts_tx cur_tx u in
    let n = if first then num_txs + 1 else num_txs in
    let tx = if first then some (position_of u) else cur_tx in
    let rest = truncate tx_capacity n tx us in
    if n == tx_capacity then ([], n) else (u ∷ rest.0, rest.1)

abbrev pub last_position : CardanoPosition → List ObservedUtxo → CardanoPosition
last_position p [] = p
last_position p (u ∷ us) = last_position (position_of u) us

pub record ObservedUtxos : Type 0 where
  pub start : CardanoPosition
  pub end' : CardanoPosition
  pub utxos : List ObservedUtxo

-- The range of what was kept of a range: all of it, or up to the last UTXO that was kept.
unfoldable pub range_of :
    CardanoPosition → CardanoPosition → ℕ → List ObservedUtxo × ℕ → ObservedUtxos
range_of start end' tx_capacity (truncated_utxos, num_txs) =
    if ltb num_txs tx_capacity
    then record { start = start; end' = end'; utxos = truncated_utxos }
    else record {
      start = start;
      end' = increment (last_position start truncated_utxos);
      utxos = truncated_utxos;
    }

-- The result for the sorted UTXOs of a range.
unfoldable pub up_to_capacity :
    CardanoPosition → CardanoPosition → ℕ → List ObservedUtxo → ObservedUtxos
unfolding truncate range_of
up_to_capacity start end' tx_capacity utxos =
    range_of start end' tx_capacity (truncate tx_capacity 0 none utxos)
