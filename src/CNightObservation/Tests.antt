-- ===== src/CNightObservation/Tests.antt =====
-- A runtime with a simple hash and ledger, runs of the pallet under it, and the theorems at
-- concrete observations.
use midnight_node.Prelude.{
  ℕ, ◌+◌, ◌*◌, ◌%◌, ◌≡◌, ◌≢◌, ◌⊎◌, refl, Bool, true, false, not, none, some, List, [], ◌∷◌, ◌++◌,
  ◌≤◌, arith, length,
}
use midnight_node.CNightObservation.Position.{CardanoPosition, ObservedUtxoHeader, position_compare}
use midnight_node.CNightObservation.Types.{
  CreateData, Error, SpendData, ObservedUtxo, registration, deregistration, asset_create,
  asset_spend, registered, deregistered, mapping_added, mapping_removed, system_transaction_applied,
  Storage, executed, Runtime,
}
use midnight_node.CNightObservation.Mappings.{
  get_registration, registration_entry, handle_registration, handle_registration_removal,
  remove_first,
}
use midnight_node.CNightObservation.Utxos.{preimage, nonce_of, handle_create, handle_spend}
use midnight_node.CNightObservation.Process.{
  Outcome, processed, failed, process_utxos, process_tokens, on_finalize, advances, capacity,
  process_batch, process_utxo, finish,
}
use midnight_node.CNightObservation.Registrations.{
  transition, registration_data, deregistration_data, handle_registration_removal_lem,
  handle_registration_removal-handle_registration,
}
use midnight_node.CNightObservation.Observer.{IsInformed, process_tokens-IsInformed, replay}
use midnight_node.CNightObservation.Ownership.{preimage_injective, handle_spend-handle_create}
use midnight_node.CNightObservation.Blocks.{here, next, inherent, finalize, Reach-advances}
use midnight_node.CNightObservation.Layer.{Refused, process_tokens_in_layer}

abbrev digest : List ℕ → ℕ
digest [] = 7
digest (b ∷ bs) = (b + 31 * digest bs) % 1000003

-- Origin `false` is the inherent's; the ledger refuses no event.
abbrev rt : Runtime Bool (List (List ℕ))
rt = record {
  hash = digest;
  construct_event = λ value key time action nonce. some (value ∷ key ∷ time ∷ action ∷ nonce ∷ []);
  construct_system_tx = λ events. some (length events ∷ []);
  execute_system_transaction = λ tx w. (executed (length tx), tx ∷ w);
  ensure_none = λ origin. not origin;
  ensure_root = λ origin. origin;
}

abbrev position : ℕ → ℕ → CardanoPosition
position block index = record {
  block_hash = block ∷ [];
  block_number = block;
  block_timestamp = 1000 * block;
  tx_index_in_block = index;
}

abbrev header : ℕ → ObservedUtxoHeader
header block = record {
  tx_position = position block 0;
  tx_hash = block ∷ [];
  utxo_tx_hash = 11 ∷ [];
  utxo_index = 0;
}

abbrev genesis : Storage (List (List ℕ))
genesis = record {
  mapping_validator_address = [];
  auth_token_asset_name = [];
  cnight_policy_id = [];
  cnight_asset_name = [];
  mappings = λ address. [];
  utxo_owners = λ nonce. none;
  next_cardano_position = position 5 0;
  cardano_block_window_size = 1000;
  cardano_tx_capacity_per_block = 200;
  inherent_executed_this_block = false;
  events = [];
  world = [];
}

abbrev created : CreateData
created = record { value = 9; owner = 1; utxo_tx_hash = 21 ∷ []; utxo_tx_index = 3 }

abbrev spent : SpendData
spent = record {
  value = 9;
  owner = 1;
  utxo_tx_hash = 21 ∷ [];
  utxo_tx_index = 3;
  spending_tx_hash = 22 ∷ [];
}

abbrev register : ObservedUtxo
register = record { header = header 11; payload = registration (registration_data 1 500) }

abbrev deregister : ObservedUtxo
deregister = record { header = header 12; payload = deregistration (deregistration_data 1 500) }

abbrev batch : List ObservedUtxo
batch =
    register
    ∷ record { header = header 11; payload = asset_create created }
    ∷ deregister
    ∷ record { header = header 13; payload = asset_spend spent }
    ∷ []

batch_events :
    (process_tokens rt false batch (position 14 0) genesis).1.events
    ≡ registered 1 500
      ∷ mapping_added (registration_entry (header 11) 1 500)
      ∷ deregistered 1 500
      ∷ mapping_removed (registration_entry (header 12) 1 500)
      ∷ system_transaction_applied (record { block_hash = 14 ∷ []; tx_index_in_block = 0 }) 1
      ∷ []
unfolding process_tokens process_batch process_utxos process_utxo finish handle_registration
    handle_registration_removal handle_create handle_spend remove_first position_compare preimage
batch_events = refl

abbrev registered_state : Storage (List (List ℕ))
registered_state = handle_registration (header 11) (registration_data 1 500) genesis

handle_registration_removal_lem_example :
    let t = handle_registration_removal (header 12) (deregistration_data 1 500) registered_state in
    let e = registration_entry (header 12) 1 500 in
    (t.mappings 1 ≡ remove_first e (registered_state.mappings 1))
    × ((other : ℕ) → other ≢ 1 → t.mappings other ≡ registered_state.mappings other)
    × (t.events
        ≡ (registered_state.events
            ++ transition 1 (get_registration registered_state 1) (get_registration t 1))
          ++ mapping_removed e ∷ [])
handle_registration_removal_lem_example =
    handle_registration_removal_lem (header 12) (deregistration_data 1 500) registered_state

handle_registration_removal-handle_registration_example :
    let removed =
      handle_registration_removal (header 12) (deregistration_data 1 500) registered_state in
    removed.mappings 1 ≡ []
handle_registration_removal-handle_registration_example =
    handle_registration_removal-handle_registration (header 11) (header 12) 1 500 genesis refl refl
      tt 1

process_tokens-IsInformed_example :
    IsInformed (λ address. none) (process_tokens rt false batch (position 14 0) genesis).1
unfolding replay
process_tokens-IsInformed_example =
    process_tokens-IsInformed rt (λ address. none) false batch (position 14 0) genesis
      (λ address. refl)

preimage_injective_example : (◌≡◌ {A = List ℕ} (21 ∷ []) (21 ∷ [])) × (◌≡◌ {A = ℕ} 3 3)
preimage_injective_example =
    preimage_injective (21 ∷ []) (21 ∷ []) 3 3 refl (omega arith) (omega arith) refl

handle_spend-handle_create_example :
    let nonce = nonce_of rt (21 ∷ []) 3 in
    let (made, s1) = handle_create rt 11 created registered_state in
    let s2 = (process_utxos rt (deregister ∷ []) [] s1).1 in
    let (gone, s3) = handle_spend rt 13 spent s2 in
    (made ≡ some (9 ∷ 500 ∷ 11 ∷ 0 ∷ nonce ∷ []))
    × (gone ≡ some (9 ∷ 500 ∷ 13 ∷ 1 ∷ nonce ∷ []))
    × (s3.utxo_owners nonce ≡ none)
    × (handle_spend rt 14 spent s3 ≡ (none, s3))
unfolding handle_registration
handle_spend-handle_create_example =
    handle_spend-handle_create rt 11 13 14 created spent registered_state 500
      (9 ∷ 500 ∷ 11 ∷ 0 ∷ nonce_of rt (21 ∷ []) 3 ∷ []) (deregister ∷ []) [] refl refl refl refl
      (tt, tt)

abbrev after_batch : Storage (List (List ℕ))
after_batch = (process_tokens rt false batch (position 14 0) genesis).1

Reach-advances_example :
    advances rt genesis.next_cardano_position (on_finalize rt after_batch).next_cardano_position
    ≡ true
Reach-advances_example =
    Reach-advances rt (next (next here (inherent false batch (position 14 0))) finalize)

abbrev State : Type 0
State = Storage (List (List ℕ))

abbrev keep_or_undo : State → Outcome × State → Outcome × State
keep_or_undo s (processed n, t) = (processed n, t)
keep_or_undo s (failed e, t) = (failed e, s)

abbrev layer : (State → Outcome × State) → State → Outcome × State
layer f s = keep_or_undo s (f s)

undone :
    (s : State) (r : Outcome × State) (e : Error)
    → r.0 ≡ failed e
    → keep_or_undo s r ≡ (failed e, s)
undone s (processed n, t) e h = cc
undone s (failed e', t) e h = cc

retained : (s : State) (r : Outcome × State) (n : ℕ) → r.0 ≡ processed n → keep_or_undo s r ≡ r
retained s (processed n', t) n h = refl
retained s (failed e, t) n h = cc

process_tokens_in_layer_example :
    let (out, t) = layer (process_tokens rt false batch (position 14 0)) genesis in
    ((e : Error) × (out ≡ failed e)
      × (t ≡ genesis)
      × Refused rt false batch (position 14 0) genesis e)
    ⊎ ((out ≡ processed 4)
        × (true ≡ true)
        × (false ≡ false)
        × (t.inherent_executed_this_block ≡ true)
        × (advances rt (position 5 0) (position 14 0) ≡ true)
        × (t.next_cardano_position ≡ position 14 0)
        × (4 ≤ capacity rt genesis)
        × ((o : Bool) (us : List ObservedUtxo) (p : CardanoPosition)
            → (e : Error) × (layer (process_tokens rt o us p) t ≡ (failed e, t))))
process_tokens_in_layer_example =
    process_tokens_in_layer rt layer (λ f s. undone s (f s)) (λ f s. retained s (f s)) false batch
      (position 14 0) genesis
