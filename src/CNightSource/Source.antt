-- ===== src/CNightSource/Source.antt =====
-- The observed UTXOs of the rows, and the whole of `get_utxos_up_to_capacity`.
use midnight_node.Prelude.{ℕ, ◌*◌, ◌%◌, ◌^◌, inl, inr, Option, none, some, List}
use midnight_node.CNightObservation.Position.{CardanoPosition, increment}
use midnight_node.CNightObservation.Types.{
  ObservedUtxo, registration, deregistration, asset_create, asset_spend,
}
use midnight_node.CNightSource.Capacity.{ObservedUtxos, up_to_capacity}
use midnight_node.CNightSource.Merging.{merge}
use midnight_node.CNightSource.Rows.{
  Result, ok, err, pure, ◌>>=◌, missing_block_reference, db_query_error, cardano_network_error,
  mapping_validator_invalid_address, not_enterprise_address, no_script_hash, RegistrationRow,
  DeregistrationRow, AssetCreateRow, AssetSpendRow, Block, block_position, query, get_registrations,
  get_deregistrations, get_asset_creates, get_asset_spends, registration_position,
  deregistration_position, create_position, spend_position,
}
use midnight_node.CNightSource.Decoding.{
  CardanoLib, then_some, filter_map, quantity_as_u128, decode_datum, decode_owner,
}

pub record CNightAddresses : Type 0 where
  pub mapping_validator_address : List ℕ
  pub auth_token_asset_name : List ℕ
  pub cnight_policy_id : List ℕ
  pub cnight_asset_name : List ℕ

-- The tables, joined and selected by what the configuration names; `none` is an error.
pub record Database (Datum Hash : Type 0) : Type 0 where
  pub block_by_hash : List ℕ → Option (Option Block)
  pub registrations : List ℕ → Hash → List ℕ → Option (List (RegistrationRow Datum))
  pub deregistrations : List ℕ → Option (List (DeregistrationRow Datum))
  pub asset_creates : List ℕ → List ℕ → Option (List AssetCreateRow)
  pub asset_spends : List ℕ → List ℕ → Option (List AssetSpendRow)

module _ {Datum Constr Hash Credential Address : Type 0}
    (lib : CardanoLib Datum Constr Hash Credential Address) where
  unfoldable pub registration_utxo : ℕ → RegistrationRow Datum → Option ObservedUtxo
  registration_utxo cardano_network row =
      then_some (decode_datum lib cardano_network row.full_datum) (λ (address, key). some (record {
        header = record {
          tx_position = registration_position row;
          tx_hash = row.tx_hash;
          utxo_tx_hash = row.tx_hash;
          utxo_index = row.utxo_index;
        };
        payload = registration (record { cardano_reward_address = address; dust_public_key = key });
      }))

  unfoldable pub deregistration_utxo : ℕ → DeregistrationRow Datum → Option ObservedUtxo
  deregistration_utxo cardano_network row =
      then_some (decode_datum lib cardano_network row.full_datum) (λ (address, key). some (record {
        header = record {
          tx_position = deregistration_position row;
          tx_hash = row.tx_hash;
          utxo_tx_hash = row.utxo_tx_hash;
          utxo_index = row.utxo_index;
        };
        payload =
            deregistration (record { cardano_reward_address = address; dust_public_key = key });
      }))

  unfoldable pub asset_create_utxo : ℕ → AssetCreateRow → Option ObservedUtxo
  unfolding quantity_as_u128
  asset_create_utxo cardano_network row =
      then_some (decode_owner lib cardano_network row.holder_address) (λ owner. some (record {
        header = record {
          tx_position = create_position row;
          tx_hash = row.tx_hash;
          utxo_tx_hash = row.tx_hash;
          utxo_index = row.utxo_index;
        };
        payload = asset_create (record {
          value = quantity_as_u128 row.quantity;
          owner = owner;
          utxo_tx_hash = row.tx_hash;
          utxo_tx_index = row.utxo_index;
        });
      }))

  unfoldable pub asset_spend_utxo : ℕ → AssetSpendRow → Option ObservedUtxo
  unfolding quantity_as_u128
  asset_spend_utxo cardano_network row =
      then_some (decode_owner lib cardano_network row.holder_address) (λ owner. some (record {
        header = record {
          tx_position = spend_position row;
          tx_hash = row.spending_tx_hash;
          utxo_tx_hash = row.utxo_tx_hash;
          utxo_index = row.utxo_index;
        };
        payload = asset_spend (record {
          value = quantity_as_u128 row.quantity;
          owner = owner;
          utxo_tx_hash = row.utxo_tx_hash;
          utxo_tx_index = row.utxo_index;
          spending_tx_hash = row.spending_tx_hash;
        });
      }))

  -- The network and the policy of the mapping validator's address.
  unfoldable pub mapping_validator : List ℕ → Result (ℕ × Hash)
  mapping_validator bech32 = elim (lib.from_bech32 bech32) [
    | inr e ↦ err (mapping_validator_invalid_address e)
    | inl address ↦ elim (lib.network_id address) [
      | none ↦ err (cardano_network_error bech32)
      | some cardano_network ↦ elim (lib.enterprise_payment_cred address) [
        | none ↦ err not_enterprise_address
        | some credential ↦ elim (lib.to_scripthash credential) [
          | none ↦ err no_script_hash
          | some policy_id ↦ ok (cardano_network, policy_id)
        ]
      ]
    ]
  ]

  -- The position after the last transaction of a block.
  unfoldable pub end_of : Database Datum Hash → List ℕ → Result CardanoPosition
  unfolding block_position increment
  end_of db current_tip = elim (db.block_by_hash current_tip) [
    | none ↦ err (db_query_error 0)
    | some none ↦ err (missing_block_reference current_tip)
    | some (some block) ↦ ok (increment (block_position block))
  ]

  -- The queries are tried together; none of them depends on another.
  unfoldable pub get_utxos_up_to_capacity :
      Database Datum Hash → CNightAddresses → CardanoPosition → List ℕ → ℕ → Result ObservedUtxos
  unfolding mapping_validator end_of query registration_utxo deregistration_utxo asset_create_utxo
      asset_spend_utxo up_to_capacity
  get_utxos_up_to_capacity db config start_position current_tip tx_capacity = do
    (cardano_network, policy_id) ← mapping_validator config.mapping_validator_address
    end' ← end_of db current_tip
    let utxo_capacity = tx_capacity * 64 % 2 ^ 64
    registrations ←
        get_registrations start_position end' utxo_capacity 0
          (db.registrations config.mapping_validator_address policy_id config.auth_token_asset_name)
    deregistrations ←
        get_deregistrations start_position end' utxo_capacity 0
          (db.deregistrations config.mapping_validator_address)
    creates ←
        get_asset_creates start_position end' utxo_capacity 0
          (db.asset_creates config.cnight_policy_id config.cnight_asset_name)
    spends ←
        get_asset_spends start_position end' utxo_capacity 0
          (db.asset_spends config.cnight_policy_id config.cnight_asset_name)
    pure (
        up_to_capacity start_position end' tx_capacity (
          merge (filter_map (registration_utxo cardano_network) registrations)
            (filter_map (deregistration_utxo cardano_network) deregistrations)
            (filter_map (asset_create_utxo cardano_network) creates)
            (filter_map (asset_spend_utxo cardano_network) spends)))
