-- ===== src/CNightSource/Agreement/Tests.antt =====
-- Two nodes that merge the same four UTXOs.
use mathlib.Core.List.{Permᴰ}
use midnight_node.Prelude.{ℕ, ◌≡◌, refl, Bool, true, false, List, [], ◌∷◌, if◌then◌else◌}
use midnight_node.CNightObservation.Position.{header_compare}
use midnight_node.CNightObservation.Types.{ObservedUtxo, asset_create, asset_spend}
use midnight_node.CNightSource.Sorting.{sort}
use midnight_node.CNightSource.Merging.{merge}
use midnight_node.CNightSource.Agreement.{InTurn, merge-agrees}

abbrev seen : ℕ → ℕ → Bool → List ℕ → ℕ → ObservedUtxo
seen block tx created hash index = record {
  header = record {
    tx_position = record {
      block_hash = block ∷ [];
      block_number = block;
      block_timestamp = 1000;
      tx_index_in_block = tx;
    };
    tx_hash = if created then hash else 0 ∷ hash;
    utxo_tx_hash = hash;
    utxo_index = index;
  };
  payload =
      if created
      then asset_create
          (record { value = 10; owner = 3; utxo_tx_hash = hash; utxo_tx_index = index })
      else asset_spend (record {
        value = 10;
        owner = 3;
        utxo_tx_hash = hash;
        utxo_tx_index = index;
        spending_tx_hash = 0 ∷ hash;
      });
}

abbrev early : ObservedUtxo
early = seen 5 0 true (7 ∷ []) 0

abbrev created : ObservedUtxo
created = seen 5 2 true (9 ∷ []) 1

abbrev sibling : ObservedUtxo
sibling = seen 5 2 true (9 ∷ []) 0

abbrev spent : ObservedUtxo
spent = seen 5 2 false (7 ∷ []) 0

merge-agrees_example :
    (merge [] [] (created ∷ sibling ∷ early ∷ []) (spent ∷ [])
      ≡ merge [] [] (sibling ∷ created ∷ early ∷ []) (spent ∷ []))
    × InTurn (merge [] [] (created ∷ sibling ∷ early ∷ []) (spent ∷ []))
merge-agrees_example =
    merge-agrees seen [] [] (created ∷ sibling ∷ early ∷ []) (spent ∷ []) [] []
      (sibling ∷ created ∷ early ∷ []) (spent ∷ []) (Permᴰ.swap refl refl)
      (refl, (refl, (refl, (refl, tt))))

merged :
    merge [] [] (created ∷ sibling ∷ early ∷ []) (spent ∷ [])
    ≡ early ∷ sibling ∷ created ∷ spent ∷ []
unfolding sort header_compare
merged = refl
