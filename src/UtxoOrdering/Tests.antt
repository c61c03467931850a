-- ===== src/UtxoOrdering/Tests.antt =====
-- The test of the source, and the theorems at its UTXOs.
use mathlib.Core.List.{Perm}
use midnight_node.Prelude.{ℕ, ◌+◌, ◌≡◌, ◌≤◌, refl, List, [], ◌∷◌, map, length, arith}
use midnight_node.Midnight.Types.{UtxoInfo}
use midnight_node.UtxoOrdering.{Key, key_of, take_key, reorder_loop, reorder, apply}
use midnight_node.UtxoOrdering.Removing.{count_key}
use midnight_node.UtxoOrdering.Reordering.{count_expected, reorder-expected, reorder-stale}

abbrev make : ℕ → UtxoInfo
make ih = record { address = 0; token_type = 0; intent_hash = ih; value = 100; output_no = 0 }

abbrev utxos : List UtxoInfo
utxos = make 1 ∷ make 2 ∷ make 3 ∷ []

abbrev expected : List Key
expected = (3, 0) ∷ (1, 0) ∷ (2, 0) ∷ []

reorder_utxos : reorder utxos expected ≡ make 3 ∷ make 1 ∷ make 2 ∷ []
unfolding reorder reorder_loop take_key
reorder_utxos = refl

-- One segment is left as it is.
apply_segments :
    apply (record { created = expected; spent = expected }) utxos 2 utxos 1
    ≡ (make 3 ∷ make 1 ∷ make 2 ∷ [], utxos)
unfolding apply reorder reorder_loop take_key
apply_segments = refl

-- The entry 9 is not found, and the UTXO 3 is lost.
reorder_stale_utxos : reorder utxos ((3, 0) ∷ (9, 0) ∷ (2, 0) ∷ []) ≡ make 1 ∷ make 2 ∷ []
unfolding reorder reorder_loop take_key
reorder_stale_utxos = refl

same_counts : (k : Key) → count_key k utxos ≡ count_expected k expected
unfolding count_key count_expected
same_counts k = ground arith

reorder-expected_example :
    (map key_of (reorder utxos expected) ≡ expected) × Perm (reorder utxos expected) utxos
reorder-expected_example = reorder-expected utxos expected same_counts

one_found : (k : Key) → count_expected k ((3, 0) ∷ []) ≤ count_key k utxos
unfolding count_key count_expected
one_found k = ground arith

reorder-stale_example : length (reorder utxos ((3, 0) ∷ (9, 0) ∷ (2, 0) ∷ [])) + 1 ≡ 3
unfolding count_key count_expected
reorder-stale_example = reorder-stale ((3, 0) ∷ []) (9, 0) ((2, 0) ∷ []) utxos refl one_found refl
