-- ===== src/CNightInherents/Tests.antt =====
-- A chain whose inherents observe the tables of the data source's tests.
use midnight_node.Prelude.{
  ℕ, ◌+◌, ◌≡◌, refl, inr, Bool, true, false, none, some, List, [], ◌∷◌, length, replicate, arith,
}
use midnight_node.CNightObservation.Types.{Storage, Runtime, executed}
use midnight_node.CNightObservation.Process.{process_tokens}
use midnight_node.CNightObservation.Blocks.{Passed}
use midnight_node.CNightSource.Capacity.{before, position_of}
use midnight_node.CNightSource.Tables.{same_tx}
use midnight_node.CNightSource.Complete.{observable}
use midnight_node.CNightSource.Tests.{
  lib, db, config, position, registration_row, deregistration_row, create_rows, spend_row,
  tables-IsObservable, observable_count, length-filter,
}
use midnight_node.CNightInherents.{Provider, created, new}
use midnight_node.CNightInherents.Accepted.{IsReady, process_tokens-new}
use midnight_node.CNightInherents.Chain.{blocks, blocks-tip}

abbrev is_utf8 : List ℕ → Bool
is_utf8 text = true

-- Only `true` is the origin of an inherent, and the world counts the system transactions.
abbrev rt : Runtime Bool ℕ
rt = record {
  hash = λ bytes. length bytes;
  construct_event = λ value key now action nonce. some (value ∷ key ∷ []);
  construct_system_tx = λ events. some (length events ∷ []);
  execute_system_transaction = λ tx w. (executed w, w + 1);
  ensure_none = λ origin. origin;
  ensure_root = λ origin. false;
}

abbrev genesis : Storage ℕ
genesis = record {
  mapping_validator_address = 1 ∷ 2 ∷ [];
  auth_token_asset_name = [];
  cnight_policy_id = replicate 28 0;
  cnight_asset_name = [];
  mappings = λ address. [];
  utxo_owners = λ nonce. none;
  next_cardano_position = position 5 0;
  cardano_block_window_size = 1000;
  cardano_tx_capacity_per_block = 3;
  inherent_executed_this_block = false;
  events = [];
  world = 0;
}

genesis-IsReady :
    IsReady lib db is_utf8 [] 0 2
      (position 6 5)
      (registration_row ∷ [])
      (deregistration_row ∷ [])
      create_rows
      (spend_row ∷ [])
      genesis
unfolding before
genesis-IsReady = record {
  address_text = refl;
  token_text = refl;
  asset_text = refl;
  policy_length = refl;
  tables = tables-IsObservable;
  large = omega arith;
  small = omega arith;
  few = λ p. omega (
    arith,
    length-filter (λ u. same_tx p (position_of u))
        (observable lib db config 0 (position 5 0) (position 6 5) (registration_row ∷ [])
          (deregistration_row ∷ []) create_rows (spend_row ∷ [])),
    observable_count,
  );
  not_past = refl;
  unmarked = refl;
}

process_tokens-new_example :
    (p : Provider) × (new lib db is_utf8 genesis [] ≡ created p)
    × Passed rt p.utxos p.next_cardano_position
        (process_tokens rt true p.utxos p.next_cardano_position genesis)
process_tokens-new_example =
    process_tokens-new lib db is_utf8 rt true refl [] 0 2 (position 6 5) (registration_row ∷ [])
      (deregistration_row ∷ []) create_rows (spend_row ∷ []) genesis genesis-IsReady

blocks-tip_example :
    (t : Storage ℕ) × (blocks lib db is_utf8 rt true [] 6 genesis ≡ some t)
    × (t.next_cardano_position ≡ position 6 5)
blocks-tip_example =
    blocks-tip lib db is_utf8 rt true [] refl (λ tx w. (w, refl)) 0 2 (position 6 5)
      (registration_row ∷ []) (deregistration_row ∷ []) create_rows (spend_row ∷ []) 6 genesis
      genesis-IsReady (inr (omega (arith, observable_count)))
