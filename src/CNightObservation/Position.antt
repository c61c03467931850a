-- ===== src/CNightObservation/Position.antt =====
-- Positions on Cardano, the observed UTXOs and the order in which they are processed.
use Prim.Native.Nat.{compare, Ordering}
use midnight_node.Prelude.{ℕ, ◌+◌, Bool, true, false, List, [], ◌∷◌, list_eq}

-- `block_timestamp` is the bit pattern of an `i64`, so that its cast to `u64` is itself.
pub record CardanoPosition : Type 0 where
  pub block_hash : List ℕ
  pub block_number : ℕ
  pub block_timestamp : ℕ
  pub tx_index_in_block : ℕ

-- `CardanoPosition::increment`; the index is below the largest `u32`.
unfoldable pub increment : CardanoPosition → CardanoPosition
increment p = record p { tx_index_in_block = p.tx_index_in_block + 1 }

-- The order of the first comparison, or of the second where the first finds no difference.
abbrev pub then_compare : Ordering → Ordering → Ordering
then_compare Ordering.lt o = Ordering.lt
then_compare Ordering.eq o = o
then_compare Ordering.gt o = Ordering.gt

-- `partial_cmp` of positions, which is never `None`.
unfoldable pub position_compare : CardanoPosition → CardanoPosition → Ordering
position_compare p q =
    then_compare (compare p.block_number q.block_number)
      (compare p.tx_index_in_block q.tx_index_in_block)

pub record ObservedUtxoHeader : Type 0 where
  pub tx_position : CardanoPosition
  pub tx_hash : List ℕ
  pub utxo_tx_hash : List ℕ
  pub utxo_index : ℕ

abbrev pub is_create : ObservedUtxoHeader → Bool
is_create h = list_eq h.tx_hash h.utxo_tx_hash

-- The order of two byte arrays.
abbrev pub bytes_compare : List ℕ → List ℕ → Ordering
bytes_compare [] [] = Ordering.eq
bytes_compare [] (b ∷ bs) = Ordering.lt
bytes_compare (a ∷ as') [] = Ordering.gt
bytes_compare (a ∷ as') (b ∷ bs) = then_compare (compare a b) (bytes_compare as' bs)

-- A header that creates its UTXO comes before one that spends another's.
abbrev pub create_compare : Bool → Bool → Ordering
create_compare true true = Ordering.eq
create_compare true false = Ordering.lt
create_compare false true = Ordering.gt
create_compare false false = Ordering.eq

-- `partial_cmp` of headers, which is never `None`, so the `unwrap` of `ObservedUtxo::cmp` is safe.
unfoldable pub header_compare : ObservedUtxoHeader → ObservedUtxoHeader → Ordering
unfolding position_compare
header_compare h k = then_compare (position_compare h.tx_position k.tx_position) (
    then_compare (create_compare (is_create h) (is_create k)) (
      then_compare (bytes_compare h.utxo_tx_hash k.utxo_tx_hash)
        (compare h.utxo_index k.utxo_index)))
