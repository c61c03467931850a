-- ===== src/CNightObservation/Ownership.antt =====
-- Who owns a cNIGHT UTXO: the key at its creation, until it is spent.
use midnight_node.Prelude.{
  ℕ, ◌/◌, ◌<◌, ◌≡◌, ◌≢◌, refl, ap₂, ◌∙◌, none, some, List, [], ◌∷◌, ◌++◌, length, arith, All,
}
use midnight_node.CNightObservation.Position.{ObservedUtxoHeader}
use midnight_node.CNightObservation.Types.{
  CreateData, SpendData, ObservedUtxo, ObservedUtxoData, registration, deregistration, asset_create,
  asset_spend, Storage, Runtime,
}
use midnight_node.CNightObservation.Mappings.{
  get_registration, handle_registration, handle_registration_removal,
}
use midnight_node.CNightObservation.Utxos.{
  preimage, nonce_of, create, destroy, handle_create, handle_spend, to_be_bytes,
}
use midnight_node.CNightObservation.Process.{process_utxo, process_utxos}

append_cancel :
    (xs ys as' bs : List ℕ) → length xs ≡ length ys → xs ++ as' ≡ ys ++ bs → (xs ≡ ys) × (as' ≡ bs)
append_cancel [] [] as' bs n e = (refl, e)
append_cancel [] (y ∷ ys) as' bs n e = absurd (omega arith)
append_cancel (x ∷ xs) [] as' bs n e = absurd (omega arith)
append_cancel (x ∷ xs) (y ∷ ys) as' bs n e =
    let (same, rest) = append_cancel xs ys as' bs (omega arith) (cc) in (cc, rest)

-- Two UTXOs are hashed from the same bytes only if they are the same, if their transaction hashes
-- have one length and their indices are `u16`s.
pub preimage_injective :
    (h h' : List ℕ) (i i' : ℕ)
    → length h ≡ length h'
    → i < 65536
    → i' < 65536
    → preimage h i ≡ preimage h' i'
    → (h ≡ h') × (i ≡ i')
unfolding preimage
preimage_injective h h' i i' n p q e =
    let (same, bytes) = append_cancel h h' (to_be_bytes i) (to_be_bytes i') n (cc) in
    (same, ground arith)

module _ {Origin World : Type 0} (rt : Runtime Origin World) where
  -- An observation that is not of the UTXO with this nonce.
  abbrev pub Avoids : ℕ → ObservedUtxo → Type 0
  Avoids nonce u = elim u.payload [
    | registration d ↦ Unit
    | deregistration d ↦ Unit
    | asset_create d ↦ nonce ≢ nonce_of rt d.utxo_tx_hash d.utxo_tx_index
    | asset_spend d ↦ nonce ≢ nonce_of rt d.utxo_tx_hash d.utxo_tx_index
  ]

  process_utxo_kept :
      (nonce now : ℕ) (header : ObservedUtxoHeader) (payload : ObservedUtxoData)
      (events : List (List ℕ)) (s : Storage World)
      → Avoids nonce (record { header = header; payload = payload })
      → (process_utxo rt now header payload events s).1.utxo_owners nonce ≡ s.utxo_owners nonce
  unfolding process_utxo handle_registration handle_registration_removal handle_create handle_spend
  process_utxo_kept nonce now header (registration d) events s h = ground arith
  process_utxo_kept nonce now header (deregistration d) events s h = ground arith
  process_utxo_kept nonce now header (asset_create d) events s h = ground arith
  process_utxo_kept nonce now header (asset_spend d) events s h = ground arith

  process_utxos_kept :
      (nonce : ℕ) (us : List ObservedUtxo) (events : List (List ℕ)) (s : Storage World)
      → All (Avoids nonce) us
      → (process_utxos rt us events s).1.utxo_owners nonce ≡ s.utxo_owners nonce
  unfolding process_utxos
  process_utxos_kept nonce [] events s h = refl
  process_utxos_kept nonce (u ∷ us) events s h =
      let now = u.header.tx_position.block_timestamp / 1000 in
      let (events', t) = process_utxo rt now u.header u.payload events s in
      process_utxos_kept nonce us events' t h.1
      ∙ process_utxo_kept nonce now u.header u.payload events s h.0

  created_owner :
      (now : ℕ) (c : CreateData) (s : Storage World) (key : ℕ) (event : List ℕ)
      → let nonce = nonce_of rt c.utxo_tx_hash c.utxo_tx_index in
        get_registration s c.owner ≡ some key
        → rt.construct_event c.value key now create nonce ≡ some event
        → ((handle_create rt now c s).0 ≡ some event)
          × ((handle_create rt now c s).1.utxo_owners nonce ≡ some key)
  unfolding handle_create
  created_owner now c s key event reg built = ground arith

  spent_owner :
      (later nonce : ℕ) (d : SpendData) (s : Storage World) (key : ℕ)
      → nonce_of rt d.utxo_tx_hash d.utxo_tx_index ≡ nonce
      → s.utxo_owners nonce ≡ some key
      → ((handle_spend rt later d s).0 ≡ rt.construct_event d.value key later destroy nonce)
        × ((handle_spend rt later d s).1.utxo_owners nonce ≡ none)
  unfolding handle_spend
  spent_owner later nonce d s key same owned = ground arith

  spent_unowned :
      (later nonce : ℕ) (d : SpendData) (s : Storage World)
      → nonce_of rt d.utxo_tx_hash d.utxo_tx_index ≡ nonce
      → s.utxo_owners nonce ≡ none
      → handle_spend rt later d s ≡ (none, s)
  unfolding handle_spend
  spent_unowned later nonce d s same unowned = ground arith

  -- A UTXO that was created for a registered owner is destroyed for the key that was registered
  -- then, whatever registrations and other UTXOs come between, and once only: spending it again
  -- gives no event and changes nothing.
  pub handle_spend-handle_create :
      (now later again : ℕ) (c : CreateData) (d : SpendData) (s : Storage World) (key : ℕ)
      (event : List ℕ) (between : List ObservedUtxo) (events : List (List ℕ))
      → let nonce = nonce_of rt c.utxo_tx_hash c.utxo_tx_index in
        d.utxo_tx_hash ≡ c.utxo_tx_hash
        → d.utxo_tx_index ≡ c.utxo_tx_index
        → get_registration s c.owner ≡ some key
        → rt.construct_event c.value key now create nonce ≡ some event
        → All (Avoids nonce) between
        → let (created, s1) = handle_create rt now c s in
          let s2 = (process_utxos rt between events s1).1 in
          let (spent, s3) = handle_spend rt later d s2 in
          (created ≡ some event)
          × (spent ≡ rt.construct_event d.value key later destroy nonce)
          × (s3.utxo_owners nonce ≡ none)
          × (handle_spend rt again d s3 ≡ (none, s3))
  handle_spend-handle_create now later again c d s key event between events hash index reg built
        avoid =
      let nonce = nonce_of rt c.utxo_tx_hash c.utxo_tx_index in
      let same : nonce_of rt d.utxo_tx_hash d.utxo_tx_index ≡ nonce =
        ap₂ (nonce_of rt) hash index in
      let s1 = (handle_create rt now c s).1 in
      let s2 = (process_utxos rt between events s1).1 in
      let (made, owned) = created_owner now c s key event reg built in
      let (spent, gone) =
        spent_owner later nonce d s2 key same
          (process_utxos_kept nonce between events s1 avoid ∙ owned) in
      (made, spent, gone, spent_unowned again nonce d (handle_spend rt later d s2).1 same gone)
