-- ===== src/CNightInherents.antt =====
-- The inherent data provider of primitives/mainchain-follower/src/idp/cnight_observation.rs, which
-- asks the runtime of runtime/src/lib.rs for the storage of the pallet and the data source for the
-- UTXOs, and the blocks that are made of it. Accepted and Chain are about one block and several.
pub mod Settings
pub mod Accepted
pub mod Chain
mod Tests
use midnight_node.Prelude.{
  ℕ, ◌≡◌, Bool, true, false, not, Option, none, some, List, [], replicate, length, ◌==◌,
  if◌then◌else◌,
}
use midnight_node.CNightObservation.Position.{CardanoPosition}
use midnight_node.CNightObservation.Types.{ObservedUtxo, Storage, Runtime}
use midnight_node.CNightObservation.Process.{
  Outcome, processed, failed, process_tokens, on_finalize,
}
use midnight_node.CNightObservation.Inherent.{TokenMovement}
use midnight_node.CNightSource.Capacity.{ObservedUtxos}
use midnight_node.CNightSource.Rows.{Result, ok, err, panicked, SourceError}
use midnight_node.CNightSource.Decoding.{CardanoLib}
use midnight_node.CNightSource.Source.{CNightAddresses, Database, get_utxos_up_to_capacity}

pub data IdpCreationError : Type 0 where
  data_source_error : SourceError → IdpCreationError
  string_decode_error auth_token_asset_name_not_string : IdpCreationError
  -- `InvalidOnchainStateCNight`, of the policy and of the asset name.
  invalid_cnight_policy_id invalid_cnight_asset_name : IdpCreationError

pub record Provider : Type 0 where
  pub utxos : List ObservedUtxo
  pub next_cardano_position : CardanoPosition

pub data Creation : Type 0 where
  created : Provider → Creation
  not_created : IdpCreationError → Creation
  creation_panicked : Creation

unfoldable pub provide_inherent_data : Provider → TokenMovement
provide_inherent_data p = record {
  utxos = p.utxos;
  next_cardano_position = p.next_cardano_position;
}

-- What the data source returns, passed on.
abbrev pub of_source : Result ObservedUtxos → Creation
of_source (ok r) = created (record { utxos = r.utxos; next_cardano_position = r.end' })
of_source (err e) = not_created (data_source_error e)
of_source panicked = creation_panicked

-- `CNightObservationApi` of the runtime.
module _ {World : Type 0} where
  abbrev pub get_mapping_validator_address : Storage World → List ℕ
  get_mapping_validator_address s = s.mapping_validator_address

  abbrev pub get_next_cardano_position : Storage World → CardanoPosition
  get_next_cardano_position s = s.next_cardano_position

  abbrev pub get_utxo_capacity_per_block : Storage World → ℕ
  get_utxo_capacity_per_block s = s.cardano_tx_capacity_per_block

  abbrev pub get_cnight_token_identifier : Storage World → List ℕ × List ℕ
  get_cnight_token_identifier s = (s.cnight_policy_id, s.cnight_asset_name)

  abbrev pub get_auth_token_asset_name : Storage World → List ℕ
  get_auth_token_asset_name s = s.auth_token_asset_name

  abbrev pub config_of : Storage World → CNightAddresses
  config_of s = record {
    mapping_validator_address = get_mapping_validator_address s;
    auth_token_asset_name = get_auth_token_asset_name s;
    cnight_policy_id = (get_cnight_token_identifier s).0;
    cnight_asset_name = (get_cnight_token_identifier s).1;
  }

module _ {Origin World : Type 0} (rt : Runtime Origin World) (origin : Origin) where
  -- A mandatory inherent that fails makes its block invalid.
  abbrev pub accept : Outcome × Storage World → Option (Storage World)
  accept (processed count, s) = some (on_finalize rt s)
  accept (failed e, s) = none

  abbrev pub apply_inherent : Creation → Storage World → Option (Storage World)
  apply_inherent (created p) s =
      let d = provide_inherent_data p in
      accept (process_tokens rt origin d.utxos d.next_cardano_position s)
  apply_inherent (not_created e) s = none
  apply_inherent creation_panicked s = none

module _ {Datum Constr Hash Credential Address World : Type 0}
    (lib : CardanoLib Datum Constr Hash Credential Address) (db : Database Datum Hash)
    (is_utf8 : List ℕ → Bool) where
  -- A call of the runtime's API reads the storage of the parent block.
  unfoldable pub new : Storage World → List ℕ → Creation
  unfolding get_utxos_up_to_capacity
  new s mc_hash =
      if not (is_utf8 (get_mapping_validator_address s))
      then not_created string_decode_error
      else if not (is_utf8 (get_auth_token_asset_name s))
      then not_created auth_token_asset_name_not_string
      else if not (length (get_cnight_token_identifier s).0 == 28)
      then not_created invalid_cnight_policy_id
      else if not (is_utf8 (get_cnight_token_identifier s).1)
      then not_created invalid_cnight_asset_name
      else of_source (
          get_utxos_up_to_capacity lib db (config_of s) (get_next_cardano_position s) mc_hash
            (get_utxo_capacity_per_block s))

  -- Without the pallet's API the data are empty.
  unfoldable pub new_if_pallet_present : Bool → Storage World → List ℕ → Creation
  unfolding new
  new_if_pallet_present has_api s mc_hash =
      if has_api
      then new s mc_hash
      else created (record {
        utxos = [];
        next_cardano_position = record {
          block_hash = replicate 32 0;
          block_number = 0;
          block_timestamp = 0;
          tx_index_in_block = 0;
        };
      })

  module _ {Origin : Type 0} (rt : Runtime Origin World) (origin : Origin) where
    -- A block of the inherent alone.
    unfoldable pub block : List ℕ → Storage World → Option (Storage World)
    unfolding new_if_pallet_present provide_inherent_data process_tokens on_finalize
    block mc_hash s = apply_inherent rt origin (new_if_pallet_present true s mc_hash) s
