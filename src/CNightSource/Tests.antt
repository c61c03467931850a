-- ===== src/CNightSource/Tests.antt =====
-- A database with five UTXOs of four transactions, and the results for them.
use midnight_node.Prelude.{
  ℕ, suc, ◌≤◌, ◌<◌, ◌≡◌, refl, ◌⊎◌, inl, inr, Bool, true, false, Bool-cases, none, some, List, [],
  ◌∷◌, length, filter, arith, get_elem?, replicate,
}
use midnight_node.CNightObservation.Position.{CardanoPosition, header_compare, position_compare}
use midnight_node.CNightSource.Capacity.{before, ObservedUtxos}
use midnight_node.CNightSource.Sorting.{sort}
use midnight_node.CNightSource.Truncating.{before_end}
use midnight_node.CNightSource.Occurring.{num_txs}
use midnight_node.CNightSource.Rows.{
  ok, in_range, RegistrationRow, DeregistrationRow, AssetCreateRow, AssetSpendRow,
  registration_position, deregistration_position, create_position, spend_position,
}
use midnight_node.CNightSource.Decoding.{CardanoLib, decode_datum, decode_owner}
use midnight_node.CNightSource.Source.{
  CNightAddresses, Database, get_utxos_up_to_capacity, mapping_validator, end_of, registration_utxo,
  deregistration_utxo, asset_create_utxo, asset_spend_utxo,
}
use midnight_node.CNightSource.Tables.{same_tx}
use midnight_node.CNightSource.Complete.{
  IsObservable, observable, get_utxos_up_to_capacity_advances,
}
use midnight_node.CNightSource.Resuming.{catch_up, catch_up_lem}

pub length-filter : {A : Type 0} (p : A → Bool) (xs : List A) → length (filter p xs) ≤ length xs
length-filter p [] = omega arith
length-filter p (x ∷ xs) = elim (Bool-cases (p x)) [
  | inl kept ↦ rw (kept, filter) (omega (arith, length-filter p xs))
  | inr gone ↦ rw (gone, filter) (omega (arith, length-filter p xs))
]

-- A datum is a key; every constructor has a script hash and the datum's key.
abbrev pub lib : CardanoLib ℕ ℕ ℕ ℕ ℕ
lib = record {
  as_constr_plutus_data = λ datum. some datum;
  alternative = λ constr. 1;
  fields = λ constr. constr ∷ constr ∷ [];
  as_bytes = λ datum. some (datum ∷ []);
  key_hash_from_bytes = λ bytes. none;
  script_hash_from_bytes = λ bytes. get_elem? bytes 0;
  from_keyhash = λ hash. hash;
  from_scripthash = λ hash. hash;
  to_scripthash = λ credential. some credential;
  from_bech32 = λ text. inl (length text);
  network_id = λ address. some 0;
  enterprise_payment_cred = λ address. some address;
  base_stake_cred = λ address. some address;
  reward_address_bytes = λ cardano_network credential. credential;
  key_number = λ bytes. length bytes;
}

abbrev pub registration_row : RegistrationRow ℕ
registration_row = record {
  full_datum = 7;
  block_number = 5;
  block_hash = [];
  block_timestamp = 0;
  tx_index_in_block = 2;
  tx_hash = 9 ∷ [];
  utxo_index = 0;
}

abbrev pub deregistration_row : DeregistrationRow ℕ
deregistration_row = record {
  full_datum = 7;
  block_number = 6;
  block_hash = [];
  block_timestamp = 0;
  tx_index_in_block = 1;
  tx_hash = 4 ∷ [];
  utxo_tx_hash = 9 ∷ [];
  utxo_index = 0;
}

abbrev create_row : ℕ → AssetCreateRow
create_row i = record {
  block_number = 5;
  block_hash = [];
  block_timestamp = 0;
  tx_index_in_block = 1;
  quantity = 10;
  holder_address = 1 ∷ [];
  tx_hash = 8 ∷ [];
  utxo_index = i;
}

abbrev pub spend_row : AssetSpendRow
spend_row = record {
  block_number = 6;
  block_hash = [];
  block_timestamp = 0;
  tx_index_in_block = 3;
  quantity = 10;
  holder_address = 1 ∷ [];
  utxo_tx_hash = 8 ∷ [];
  utxo_index = 0;
  spending_tx_hash = 3 ∷ [];
}

abbrev pub create_rows : List AssetCreateRow
create_rows = create_row 1 ∷ create_row 0 ∷ []

abbrev pub db : Database ℕ ℕ
db = record {
  block_by_hash = λ hash. some (
      some (record {
        block_number = 6;
        hash = hash;
        epoch_number = 0;
        slot_number = 0;
        time = 0;
        tx_count = 4;
      }));
  registrations = λ address policy_id asset_name. some (registration_row ∷ []);
  deregistrations = λ address. some (deregistration_row ∷ []);
  asset_creates = λ policy_id asset_name. some create_rows;
  asset_spends = λ policy_id asset_name. some (spend_row ∷ []);
}

abbrev pub config : CNightAddresses
config = record {
  mapping_validator_address = 1 ∷ 2 ∷ [];
  auth_token_asset_name = [];
  cnight_policy_id = replicate 28 0;
  cnight_asset_name = [];
}

abbrev pub position : ℕ → ℕ → CardanoPosition
position block index = record {
  block_hash = [];
  block_number = block;
  block_timestamp = 0;
  tx_index_in_block = index;
}

few :
    {Row : Type 0} (place : Row → CardanoPosition) (rows : List Row) (p : CardanoPosition)
    → length rows ≤ 64
    → length (filter (λ r. same_tx p (place r)) rows) ≤ 64
few place rows p h = omega (arith, h, length-filter (λ r. same_tx p (place r)) rows)

pub tables-IsObservable :
    IsObservable lib db config [] 0 2
      (position 6 5)
      (registration_row ∷ [])
      (deregistration_row ∷ [])
      create_rows
      (spend_row ∷ [])
unfolding mapping_validator end_of registration_utxo deregistration_utxo asset_create_utxo
    asset_spend_utxo decode_datum decode_owner
tables-IsObservable = record {
  validator = refl;
  tip = refl;
  registrations = record {
    is_found = refl;
    decodes = (refl, tt);
    few = λ p. few registration_position (registration_row ∷ []) p (omega arith);
  };
  deregistrations = record {
    is_found = refl;
    decodes = (refl, tt);
    few = λ p. few deregistration_position (deregistration_row ∷ []) p (omega arith);
  };
  creates = record {
    is_found = refl;
    decodes = (refl, (refl, tt));
    few = λ p. few create_position create_rows p (omega arith);
  };
  spends = record {
    is_found = refl;
    decodes = (refl, tt);
    few = λ p. few spend_position (spend_row ∷ []) p (omega arith);
  };
}

get_utxos_up_to_capacity_advances_example :
    (r : ObservedUtxos) × (get_utxos_up_to_capacity lib db config (position 5 0) [] 3 ≡ ok r)
    × (num_txs r.utxos < 3)
    × ((r.end' ≡ position 6 5)
        ⊎ ((suc (num_txs r.utxos) ≡ 3) × (before (position 5 0) r.end' ≡ true)))
    × (before (position 6 5) r.end' ≡ false)
get_utxos_up_to_capacity_advances_example =
    get_utxos_up_to_capacity_advances lib db config (position 5 0) [] 3 0 2 (position 6 5)
      (registration_row ∷ []) (deregistration_row ∷ []) create_rows (spend_row ∷ []) (omega arith)
      (omega arith) tables-IsObservable

start_early : before (position 6 5) (position 5 0) ≡ false
unfolding before
start_early = refl

pub observable_count :
    length (
      observable lib db config 0
        (position 5 0)
        (position 6 5)
        (registration_row ∷ [])
        (deregistration_row ∷ [])
        create_rows
        (spend_row ∷ []))
    ≡ 5
unfolding sort in_range registration_utxo deregistration_utxo asset_create_utxo asset_spend_utxo
    decode_datum decode_owner header_compare
observable_count = refl

catch_up_lem_example :
    catch_up lib db config [] 3 5 (position 5 0)
    ≡ ok (
        observable lib db config 0
          (position 5 0)
          (position 6 5)
          (registration_row ∷ [])
          (deregistration_row ∷ [])
          create_rows
          (spend_row ∷ []))
catch_up_lem_example =
    catch_up_lem lib db config [] 3 0 2 (position 6 5) (registration_row ∷ [])
      (deregistration_row ∷ []) create_rows (spend_row ∷ []) (omega arith) (omega arith)
      tables-IsObservable 5 (position 5 0) start_early (omega (arith, observable_count))

-- A capacity of three transactions: the two creates of one, and the registration.
two_txs :
    get_utxos_up_to_capacity lib db config (position 5 0) [] 3
    ≡ ok (record {
      start = position 5 0;
      end' = position 5 3;
      utxos = before_end (position 5 3) (
          observable lib db config 0
            (position 5 0)
            (position 6 5)
            (registration_row ∷ [])
            (deregistration_row ∷ [])
            create_rows
            (spend_row ∷ []));
    })
unfolding get_utxos_up_to_capacity sort in_range registration_utxo deregistration_utxo
    asset_create_utxo asset_spend_utxo decode_datum decode_owner header_compare before
two_txs = refl

-- A capacity of one transaction returns no UTXOs, and moves past the start.
one_tx :
    get_utxos_up_to_capacity lib db config (position 5 1) [] 1
    ≡ ok (record { start = position 5 1; end' = position 5 2; utxos = [] })
unfolding get_utxos_up_to_capacity decode_datum decode_owner header_compare position_compare
one_tx = refl
