-- ===== src/CNightObservation/Utxos.antt =====
-- The creation and the spending of cNIGHT UTXOs: `handle_create` and `handle_spend`.
use midnight_node.Prelude.{ℕ, ◌/◌, ◌%◌, Option, none, some, List, [], ◌∷◌, ◌++◌, put}
use midnight_node.CNightObservation.Types.{CreateData, SpendData, Storage, Runtime}
use midnight_node.CNightObservation.Mappings.{get_registration}

-- The bytes of `asset_create`.
abbrev pub asset_create_tag : List ℕ
asset_create_tag =
    b'a' ∷ b's' ∷ b's' ∷ b'e' ∷ b't' ∷ b'_' ∷ b'c' ∷ b'r' ∷ b'e' ∷ b'a' ∷ b't' ∷ b'e' ∷ []

-- `u16::to_be_bytes`.
abbrev pub to_be_bytes : ℕ → List ℕ
to_be_bytes n = (n / 256) ∷ (n % 256) ∷ []

-- What is hashed to the nonce of a UTXO.
unfoldable pub preimage : List ℕ → ℕ → List ℕ
preimage utxo_tx_hash utxo_tx_index =
    asset_create_tag ++ (utxo_tx_hash ++ to_be_bytes utxo_tx_index)

-- `UtxoActionType::Create` and `UtxoActionType::Destroy`.
abbrev pub create : ℕ
create = 0

abbrev pub destroy : ℕ
destroy = 1

module _ {Origin World : Type 0} (rt : Runtime Origin World) where
  abbrev pub nonce_of : List ℕ → ℕ → ℕ
  nonce_of utxo_tx_hash utxo_tx_index = rt.hash (preimage utxo_tx_hash utxo_tx_index)

  insert_owner : ℕ → ℕ → Storage World → Option (List ℕ) → Option (List ℕ) × Storage World
  insert_owner nonce key s (some event) =
      (some event, record s { utxo_owners = put nonce (some key) s.utxo_owners })
  insert_owner nonce key s none = (none, s)

  unfoldable pub handle_create : ℕ → CreateData → Storage World → Option (List ℕ) × Storage World
  unfolding insert_owner
  handle_create cur_time d s = elim (get_registration s d.owner) [
    | none ↦ (none, s)
    | some key ↦
        let nonce = nonce_of d.utxo_tx_hash d.utxo_tx_index in
        insert_owner nonce key s (rt.construct_event d.value key cur_time create nonce)
  ]

  -- `UtxoOwners::take` removes the owner whether or not the event can be constructed.
  unfoldable pub handle_spend : ℕ → SpendData → Storage World → Option (List ℕ) × Storage World
  handle_spend cur_time d s =
      let nonce = nonce_of d.utxo_tx_hash d.utxo_tx_index in
      elim (s.utxo_owners nonce) [
        | none ↦ (none, s)
        | some key ↦ (
          rt.construct_event d.value key cur_time destroy nonce,
          record s { utxo_owners = put nonce none s.utxo_owners },
        )
      ]
