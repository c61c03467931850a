-- ===== src/CNightSource/Complete.antt =====
-- `get_utxos_up_to_capacity` returns, and what it returns of the UTXOs of the tables.
use midnight_node.Prelude.{ℕ, suc, ◌*◌, ◌-◌, ◌^◌, ◌≤◌, ◌<◌, ◌≡◌, refl, ◌⊎◌, true, false, List}
use midnight_node.CNightObservation.Position.{CardanoPosition}
use midnight_node.CNightObservation.Types.{ObservedUtxo}
use midnight_node.CNightSource.Capacity.{before, ObservedUtxos, up_to_capacity}
use midnight_node.CNightSource.Merging.{merge}
use midnight_node.CNightSource.Occurring.{num_txs}
use midnight_node.CNightSource.Completeness.{IsPrefix}
use midnight_node.CNightSource.Covering.{AllShown, merged_complete, merged-IsPrefix}
use midnight_node.CNightSource.Rows.{
  ok, RegistrationRow, DeregistrationRow, AssetCreateRow, AssetSpendRow, select,
  registration_position, deregistration_position, create_position, spend_position,
  registration_order, deregistration_order, create_order, spend_order,
}
use midnight_node.CNightSource.Decoding.{CardanoLib, filter_map}
use midnight_node.CNightSource.Source.{
  CNightAddresses, Database, registration_utxo, deregistration_utxo, asset_create_utxo,
  asset_spend_utxo, mapping_validator, end_of, get_utxos_up_to_capacity,
}
use midnight_node.CNightSource.Limits.{ranged, select-IsShown}
use midnight_node.CNightSource.Observing.{
  IsReadable, query-some, registrations-IsTable, deregistrations-IsTable, creates-IsTable,
  spends-IsTable,
}

module _ {Datum Constr Hash Credential Address : Type 0}
    (lib : CardanoLib Datum Constr Hash Credential Address) (db : Database Datum Hash)
    (config : CNightAddresses) where
  -- What the code finds out first, and four tables that can be read.
  pub record IsObservable (current_tip : List ℕ) (cardano_network : ℕ) (policy_id : Hash)
      (end' : CardanoPosition) (rs : List (RegistrationRow Datum))
      (ds : List (DeregistrationRow Datum)) (cs : List AssetCreateRow) (ss : List AssetSpendRow)
      : Type 0 where
    pub validator :
        mapping_validator lib config.mapping_validator_address ≡ ok (cardano_network, policy_id)
    pub tip : end_of lib db current_tip ≡ ok end'
    pub registrations :
        IsReadable registration_position
          (registration_utxo lib cardano_network)
          (db.registrations config.mapping_validator_address policy_id config.auth_token_asset_name)
          rs
    pub deregistrations :
        IsReadable deregistration_position
          (deregistration_utxo lib cardano_network)
          (db.deregistrations config.mapping_validator_address)
          ds
    pub creates :
        IsReadable create_position
          (asset_create_utxo lib cardano_network)
          (db.asset_creates config.cnight_policy_id config.cnight_asset_name)
          cs
    pub spends :
        IsReadable spend_position
          (asset_spend_utxo lib cardano_network)
          (db.asset_spends config.cnight_policy_id config.cnight_asset_name)
          ss

  -- All UTXOs of a range, whatever the limit.
  abbrev pub observable :
      ℕ
      → CardanoPosition
      → CardanoPosition
      → List (RegistrationRow Datum)
      → List (DeregistrationRow Datum)
      → List AssetCreateRow
      → List AssetSpendRow
      → List ObservedUtxo
  observable cardano_network start end' rs ds cs ss =
      merge
        (filter_map (registration_utxo lib cardano_network)
          (ranged registration_position registration_order start end' rs))
        (filter_map (deregistration_utxo lib cardano_network)
          (ranged deregistration_position deregistration_order start end' ds))
        (filter_map (asset_create_utxo lib cardano_network)
          (ranged create_position create_order start end' cs))
        (filter_map (asset_spend_utxo lib cardano_network)
          (ranged spend_position spend_order start end' ss))

  module _ (start : CardanoPosition) (current_tip : List ℕ) (tx_capacity : ℕ) (cardano_network : ℕ)
      (policy_id : Hash) (end' : CardanoPosition) (rs : List (RegistrationRow Datum))
      (ds : List (DeregistrationRow Datum)) (cs : List AssetCreateRow) (ss : List AssetSpendRow)
      (large : 2 ≤ tx_capacity) (small : tx_capacity * 64 < 2 ^ 31 - 1)
      (o : IsObservable current_tip cardano_network policy_id end' rs ds cs ss) where
    shown : List ObservedUtxo
    shown =
        merge
          (filter_map (registration_utxo lib cardano_network)
            (select registration_position registration_order start end' (tx_capacity * 64) 0 rs))
          (filter_map (deregistration_utxo lib cardano_network) (
            select deregistration_position deregistration_order start end' (tx_capacity * 64) 0 ds))
          (filter_map (asset_create_utxo lib cardano_network)
            (select create_position create_order start end' (tx_capacity * 64) 0 cs))
          (filter_map (asset_spend_utxo lib cardano_network)
            (select spend_position spend_order start end' (tx_capacity * 64) 0 ss))

    returned :
        get_utxos_up_to_capacity lib db config start current_tip tx_capacity
        ≡ ok (up_to_capacity start end' tx_capacity shown)
    unfolding get_utxos_up_to_capacity shown
    returned =
        rw
          (
            o.validator,
            o.tip,
            query-some registration_position registration_order start end' tx_capacity rs
                (db.registrations config.mapping_validator_address policy_id
                  config.auth_token_asset_name)
                o.registrations.is_found small,
            query-some deregistration_position deregistration_order start end' tx_capacity ds
                (db.deregistrations config.mapping_validator_address) o.deregistrations.is_found
                small,
            query-some create_position create_order start end' tx_capacity cs
                (db.asset_creates config.cnight_policy_id config.cnight_asset_name)
                o.creates.is_found small,
            query-some spend_position spend_order start end' tx_capacity ss
                (db.asset_spends config.cnight_policy_id config.cnight_asset_name) o.spends.is_found
                small,
          )
          refl

    all_shown :
        AllShown start end' tx_capacity
          (filter_map
            (registration_utxo lib cardano_network)
            (select registration_position registration_order start end' (tx_capacity * 64) 0 rs))
          (filter_map (deregistration_utxo lib cardano_network) (
            select deregistration_position deregistration_order start end' (tx_capacity * 64) 0 ds))
          (filter_map
            (asset_create_utxo lib cardano_network)
            (select create_position create_order start end' (tx_capacity * 64) 0 cs))
          (filter_map
            (asset_spend_utxo lib cardano_network)
            (select spend_position spend_order start end' (tx_capacity * 64) 0 ss))
          (filter_map
            (registration_utxo lib cardano_network)
            (ranged registration_position registration_order start end' rs))
          (filter_map
            (deregistration_utxo lib cardano_network)
            (ranged deregistration_position deregistration_order start end' ds))
          (filter_map
            (asset_create_utxo lib cardano_network)
            (ranged create_position create_order start end' cs))
          (filter_map
            (asset_spend_utxo lib cardano_network)
            (ranged spend_position spend_order start end' ss))
    all_shown = record {
      registrations =
          select-IsShown (registrations-IsTable lib cardano_network) start end' tx_capacity rs
            o.registrations.decodes o.registrations.few;
      deregistrations =
          select-IsShown (deregistrations-IsTable lib cardano_network) start end' tx_capacity ds
            o.deregistrations.decodes o.deregistrations.few;
      creates =
          select-IsShown (creates-IsTable lib cardano_network) start end' tx_capacity cs
            o.creates.decodes o.creates.few;
      spends =
          select-IsShown (spends-IsTable lib cardano_network) start end' tx_capacity ss
            o.spends.decodes o.spends.few;
    }

    -- With a capacity of two transactions or more, which the `assert!`s of the queries admit,
    -- and four tables whose rows all decode and have at most 64 rows for a transaction, the call
    -- returns fewer transactions than the capacity, and either its end is the tip's, or it
    -- returns one transaction less than the capacity and its end is after its start; in both
    -- cases the end is not after the tip's.
    pub get_utxos_up_to_capacity_advances :
        (r : ObservedUtxos) × (get_utxos_up_to_capacity lib db config start current_tip tx_capacity
          ≡ ok r)
        × (num_txs r.utxos < tx_capacity)
        × ((r.end' ≡ end') ⊎ ((suc (num_txs r.utxos) ≡ tx_capacity) × (before start r.end' ≡ true)))
        × (before end' r.end' ≡ false)
    unfolding shown
    get_utxos_up_to_capacity_advances =
        let w = merged-IsPrefix large all_shown in
        (up_to_capacity start end' tx_capacity shown, returned, w.below, w.advance, w.upto)

    -- Both at once, for the module that calls it again.
    pub get_utxos-IsPrefix :
        (r : ObservedUtxos) × (get_utxos_up_to_capacity lib db config start current_tip tx_capacity
          ≡ ok r)
        × IsPrefix start end' tx_capacity (observable cardano_network start end' rs ds cs ss) r
    unfolding shown
    get_utxos-IsPrefix =
        let w = merged-IsPrefix large all_shown in
        (
          up_to_capacity start end' tx_capacity shown,
          returned,
          record {
            kept = merged_complete large all_shown;
            below = w.below;
            advance = w.advance;
            upto = w.upto;
          },
        )
