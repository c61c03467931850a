-- ===== src/UtxoOrdering.antt =====
-- The ordering of unshielded UTXOs that old blocks were made with:
-- ledger/src/versions/common/utxo_ordering_override.rs. The parsed overrides are an argument: the
-- file that they come from and the hexadecimal digits in it are input.
pub mod Removing
pub mod Reordering
mod Tests
use midnight_node.Prelude.{
  ℕ, zero, suc, Bool, ◌&&◌, ◌||◌, not, Option, none, some, List, [], ◌∷◌, ◌++◌, ltb, ◌==◌,
  if◌then◌else◌, is_empty, length, get_elem?, set,
}
use midnight_node.Midnight.Types.{UtxoInfo}

-- An intent hash and an output number.
abbrev pub Key : Type 0
Key = ℕ × ℕ

abbrev pub key_of : UtxoInfo → Key
key_of u = (u.intent_hash, u.output_no)

abbrev pub key_eq : Key → Key → Bool
key_eq (h, n) (h', n') = h == h' && n == n'

pub record UtxoOrder : Type 0 where
  pub created : List Key
  pub spent : List Key

-- `iter().position(…)`.
abbrev after : Option ℕ → Option ℕ
after none = none
after (some i) = some (suc i)

unfoldable pub position : Key → List UtxoInfo → Option ℕ
position k [] = none
position k (u ∷ us) = if key_eq (key_of u) k then some 0 else after (position k us)

-- A list by its last element.
unfoldable pub split_last : UtxoInfo → List UtxoInfo → List UtxoInfo × UtxoInfo
split_last u [] = ([], u)
split_last u (v ∷ us) = (u ∷ (split_last v us).0, (split_last v us).1)

-- `Vec::swap_remove`: the last element takes the place of the removed one. `none` is a panic.
abbrev pub take_at : List UtxoInfo → UtxoInfo → ℕ → Option UtxoInfo → UtxoInfo × List UtxoInfo
take_at front last i none = (last, front)
take_at front last i (some u) = (u, set front i last)

unfoldable pub swap_remove : ℕ → List UtxoInfo → Option (UtxoInfo × List UtxoInfo)
unfolding split_last
swap_remove i [] = none
swap_remove i (u ∷ us) =
    let (front, last) = split_last u us in
    if ltb (length front) i then none else some (take_at front last i (get_elem? front i))

-- `swap_remove` at the position of a key, if there is one.
abbrev remove_at : Option ℕ → List UtxoInfo → Option (UtxoInfo × List UtxoInfo)
remove_at none us = none
remove_at (some i) us = swap_remove i us

unfoldable pub take_key : Key → List UtxoInfo → Option (UtxoInfo × List UtxoInfo)
unfolding position swap_remove
take_key k us = remove_at (position k us) us

-- The loop of `reorder`: where an entry is not found, it returns with `utxos` as they then are.
unfoldable pub reorder_loop : List Key → List UtxoInfo → List UtxoInfo → List UtxoInfo
reorder_loop [] utxos reordered = reordered
reorder_loop (k ∷ ks) utxos reordered = elim (take_key k utxos) [
  | none ↦ utxos
  | some (u, rest) ↦ reorder_loop ks rest (reordered ++ u ∷ [])
]

unfoldable pub reorder : List UtxoInfo → List Key → List UtxoInfo
reorder utxos expected =
    if is_empty expected || not (length utxos == length expected)
    then utxos
    else reorder_loop expected utxos []

-- `UtxoOrdering::apply`, on the outputs and the inputs.
unfoldable pub apply :
    UtxoOrder → List UtxoInfo → ℕ → List UtxoInfo → ℕ → List UtxoInfo × List UtxoInfo
apply o outputs output_segments inputs input_segments = (
  if ltb 1 output_segments then reorder outputs o.created else outputs,
  if ltb 1 input_segments then reorder inputs o.spent else inputs,
)
