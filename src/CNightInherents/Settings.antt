-- ===== src/CNightInherents/Settings.antt =====
-- What the processing of an inherent leaves as it is: the settings that the provider reads.
use midnight_node.Prelude.{
  ℕ, ◌/◌, ◌≡◌, refl, ◌∙◌, true, List, [], ◌∷◌, is_empty, arith, Bool-cases, Option-cases, inl, inr,
}
use midnight_node.CNightObservation.Position.{CardanoPosition, ObservedUtxoHeader}
use midnight_node.CNightObservation.Types.{
  ObservedUtxo, ObservedUtxoData, registration, deregistration, asset_create, asset_spend, Storage,
  Execution-cases, executed, Runtime,
}
use midnight_node.CNightObservation.Mappings.{handle_registration, handle_registration_removal}
use midnight_node.CNightObservation.Utxos.{handle_create, handle_spend}
use midnight_node.CNightObservation.Process.{
  processed, process_utxo, process_utxos, finish, process_batch, advances,
}
use midnight_node.CNightInherents.{config_of}

module _ {Origin World : Type 0} (rt : Runtime Origin World) where
  -- The settings of the second storage are those of the first.
  abbrev pub SameSettings : Storage World → Storage World → Type 0
  SameSettings s t =
      (config_of t ≡ config_of s)
      × (t.cardano_tx_capacity_per_block ≡ s.cardano_tx_capacity_per_block)

  SameSettings-trans :
      (s t u : Storage World) → SameSettings s t → SameSettings t u → SameSettings s u
  SameSettings-trans s t u (a, b) (c, d) = (c ∙ a, d ∙ b)

  process_utxo-SameSettings :
      (now : ℕ) (header : ObservedUtxoHeader) (payload : ObservedUtxoData) (events : List (List ℕ))
      (s : Storage World)
      → SameSettings s (process_utxo rt now header payload events s).1
  unfolding process_utxo handle_registration handle_registration_removal handle_create handle_spend
  process_utxo-SameSettings now header (registration d) events s = (ground arith, ground arith)
  process_utxo-SameSettings now header (deregistration d) events s = (ground arith, ground arith)
  process_utxo-SameSettings now header (asset_create d) events s = (ground arith, ground arith)
  process_utxo-SameSettings now header (asset_spend d) events s = (ground arith, ground arith)

  process_utxos-SameSettings :
      (us : List ObservedUtxo) (events : List (List ℕ)) (s : Storage World)
      → SameSettings s (process_utxos rt us events s).1
  unfolding process_utxos
  process_utxos-SameSettings [] events s = (refl, refl)
  process_utxos-SameSettings (u ∷ us) events s =
      let now = u.header.tx_position.block_timestamp / 1000 in
      let (events', t) = process_utxo rt now u.header u.payload events s in
      SameSettings-trans s t (process_utxos rt us events' t).1
        (process_utxo-SameSettings now u.header u.payload events s)
        (process_utxos-SameSettings us events' t)

  finish-SameSettings :
      (count : ℕ) (position : CardanoPosition) (events : List (List ℕ)) (s : Storage World)
      → SameSettings s (finish rt count position events s).1
  unfolding finish
  finish-SameSettings count position events s = elim (Bool-cases (is_empty events)) [
    | inl no_events ↦ (ground arith, ground arith)
    | inr some_events ↦ elim (Option-cases (rt.construct_system_tx events)) [
      | inl broken ↦ (ground arith, ground arith)
      | inr (tx, built) ↦ elim (Execution-cases (rt.execute_system_transaction tx s.world).0) [
        | inl (tx_hash, ran) ↦ (ground arith, ground arith)
        | inr (code, refused) ↦ (ground arith, ground arith)
      ]
    ]
  ]

  pub process_batch-SameSettings :
      (count : ℕ) (us : List ObservedUtxo) (position : CardanoPosition) (s : Storage World)
      → SameSettings s (process_batch rt count us position s).1
  unfolding process_batch
  process_batch-SameSettings count us position s =
      elim (Bool-cases (advances rt s.next_cardano_position position)) [
        | inr back ↦ rw (back, process_batch) (refl, refl)
        | inl ahead ↦
            let (events, t) = process_utxos rt us [] s in
            rw (ahead, process_batch)
              (SameSettings-trans s t (finish rt count position events t).1
                (process_utxos-SameSettings us [] s) (finish-SameSettings count position events t))
      ]

  -- Every system transaction is executed.
  abbrev pub Executes : Type 0
  Executes =
      (tx : List ℕ) (w : World)
      → (tx_hash : ℕ) × ((rt.execute_system_transaction tx w).0 ≡ executed tx_hash)

  finish-processed :
      (count : ℕ) (position : CardanoPosition) (events : List (List ℕ)) (s : Storage World)
      → Executes
      → (finish rt count position events s).0 ≡ processed count
  unfolding finish
  finish-processed count position events s runs = elim (Bool-cases (is_empty events)) [
    | inl no_events ↦ ground arith
    | inr some_events ↦ elim (Option-cases (rt.construct_system_tx events)) [
      | inl broken ↦ ground arith
      | inr (tx, built) ↦ let (tx_hash, ran) = runs tx s.world in ground arith
    ]
  ]

  pub process_batch-processed :
      (count : ℕ) (us : List ObservedUtxo) (position : CardanoPosition) (s : Storage World)
      → Executes
      → advances rt s.next_cardano_position position ≡ true
      → (process_batch rt count us position s).0 ≡ processed count
  unfolding process_batch
  process_batch-processed count us position s runs ahead =
      let (events, t) = process_utxos rt us [] s in
      rw (ahead, process_batch) (finish-processed count position events t runs)
