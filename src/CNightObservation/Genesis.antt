-- ===== src/CNightObservation/Genesis.antt =====
-- The genesis of the pallet. Texts are byte lists; `none` is the panic of an `expect`.
use midnight_node.Prelude.{
  ℕ, Bool, ◌&&◌, Option, none, some, List, [], ◌∷◌, leb, if◌then◌else◌, put, length,
}
use midnight_node.CNightObservation.Position.{CardanoPosition}
use midnight_node.CNightObservation.Types.{MappingEntry, Storage}

-- `CNightGenesis` with the addresses in it.
pub record CNightGenesis : Type 0 where
  pub mapping_validator_address : List ℕ
  pub auth_token_asset_name : List ℕ
  pub cnight_policy_id : List ℕ
  pub cnight_asset_name : List ℕ
  pub mappings : List (ℕ × List MappingEntry)
  pub utxo_owners : List (ℕ × ℕ)
  pub next_cardano_position : CardanoPosition

insert_mappings : List (ℕ × List MappingEntry) → (ℕ → List MappingEntry) → ℕ → List MappingEntry
insert_mappings [] m = m
insert_mappings ((k, v) ∷ kvs) m = insert_mappings kvs (put k v m)

insert_owners : List (ℕ × ℕ) → (ℕ → Option ℕ) → ℕ → Option ℕ
insert_owners [] m = m
insert_owners ((k, v) ∷ kvs) m = insert_owners kvs (put k (some v) m)

-- The texts fit their storage items.
abbrev fits : CNightGenesis → Bool
fits g =
    leb (length g.mapping_validator_address) 108
    && leb (length g.cnight_policy_id) 28
    && leb (length g.cnight_asset_name) 32
    && leb (length g.auth_token_asset_name) 32

unfoldable pub build : {World : Type 0} → CNightGenesis → Storage World → Option (Storage World)
unfolding insert_mappings insert_owners
build g s =
    if fits g
    then some (record s {
      mapping_validator_address = g.mapping_validator_address;
      cnight_policy_id = g.cnight_policy_id;
      cnight_asset_name = g.cnight_asset_name;
      auth_token_asset_name = g.auth_token_asset_name;
      mappings = insert_mappings g.mappings s.mappings;
      utxo_owners = insert_owners g.utxo_owners s.utxo_owners;
      next_cardano_position = g.next_cardano_position;
    })
    else none
