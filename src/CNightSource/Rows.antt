-- ===== src/CNightSource/Rows.antt =====
-- The rows of the database and the queries over them, from
-- primitives/mainchain-follower/src/db/{types.rs,queries/cnight_observation.rs}. What a query joins
-- and selects by an address or an asset is a parameter; its range, order, limit and offset are not.
use Prim.Native.Nat.{compare, Ordering}
use midnight_node.Prelude.{
  ℕ, zero, suc, ◌-◌, ◌%◌, ◌^◌, Bool, Option, none, some, List, [], ◌∷◌, filter, ltb, leb, ◌==◌,
  ◌&&◌, ◌||◌, if◌then◌else◌,
}
use midnight_node.CNightObservation.Position.{CardanoPosition, position_compare, then_compare}
use midnight_node.CNightSource.Sorting.{sort}

pub data SourceError : Type 0 where
  -- The hash of the block, the error of the database, also where it is not wrapped, and the address.
  missing_block_reference : List ℕ → SourceError
  db_query_error : ℕ → SourceError
  cardano_network_error : List ℕ → SourceError
  -- The error of the library, by a code, or one of the two below.
  mapping_validator_invalid_address : ℕ → SourceError
  not_enterprise_address no_script_hash : SourceError

-- A failed `assert!` does not return.
pub data Result (A : Type 0) : Type 0 where
  ok : A → Result A
  err : SourceError → Result A
  panicked : Result A

abbrev pub pure : {A : Type 0} → A → Result A
pure = ok

module _ {A B : Type 0} where
  infixl 5 ◌>>=◌
  abbrev pub ◌>>=◌ : Result A → (A → Result B) → Result B
  ok a >>= k = k a
  err e >>= k = err e
  panicked >>= k = panicked

-- The hash of a block is a list of bytes and a time is the bit pattern of an `i64`.
pub record RegistrationRow (Datum : Type 0) : Type 0 where
  pub full_datum : Datum
  pub block_number : ℕ
  pub block_hash : List ℕ
  pub block_timestamp : ℕ
  pub tx_index_in_block : ℕ
  pub tx_hash : List ℕ
  pub utxo_index : ℕ

pub record DeregistrationRow (Datum : Type 0) : Type 0 where
  pub full_datum : Datum
  pub block_number : ℕ
  pub block_hash : List ℕ
  pub block_timestamp : ℕ
  pub tx_index_in_block : ℕ
  pub tx_hash : List ℕ
  pub utxo_tx_hash : List ℕ
  pub utxo_index : ℕ

-- `quantity` is the bit pattern of an `i64`.
pub record AssetCreateRow : Type 0 where
  pub block_number : ℕ
  pub block_hash : List ℕ
  pub block_timestamp : ℕ
  pub tx_index_in_block : ℕ
  pub quantity : ℕ
  pub holder_address : List ℕ
  pub tx_hash : List ℕ
  pub utxo_index : ℕ

pub record AssetSpendRow : Type 0 where
  pub block_number : ℕ
  pub block_hash : List ℕ
  pub block_timestamp : ℕ
  pub tx_index_in_block : ℕ
  pub quantity : ℕ
  pub holder_address : List ℕ
  pub utxo_tx_hash : List ℕ
  pub utxo_index : ℕ
  pub spending_tx_hash : List ℕ

-- `tx_count` is the bit pattern of an `i64`.
pub record Block : Type 0 where
  pub block_number : ℕ
  pub hash : List ℕ
  pub epoch_number : ℕ
  pub slot_number : ℕ
  pub time : ℕ
  pub tx_count : ℕ

-- `From<Block> for CardanoPosition`.
unfoldable pub block_position : Block → CardanoPosition
block_position b = record {
  block_hash = b.hash;
  block_number = b.block_number;
  block_timestamp = b.time;
  tx_index_in_block = b.tx_count % 2 ^ 32;
}

-- The positions of the rows.
abbrev pub registration_position : {Datum : Type 0} → RegistrationRow Datum → CardanoPosition
registration_position row = record {
  block_hash = row.block_hash;
  block_number = row.block_number;
  block_timestamp = row.block_timestamp;
  tx_index_in_block = row.tx_index_in_block;
}

abbrev pub deregistration_position : {Datum : Type 0} → DeregistrationRow Datum → CardanoPosition
deregistration_position row = record {
  block_hash = row.block_hash;
  block_number = row.block_number;
  block_timestamp = row.block_timestamp;
  tx_index_in_block = row.tx_index_in_block;
}

abbrev pub create_position : AssetCreateRow → CardanoPosition
create_position row = record {
  block_hash = row.block_hash;
  block_number = row.block_number;
  block_timestamp = row.block_timestamp;
  tx_index_in_block = row.tx_index_in_block;
}

abbrev pub spend_position : AssetSpendRow → CardanoPosition
spend_position row = record {
  block_hash = row.block_hash;
  block_number = row.block_number;
  block_timestamp = row.block_timestamp;
  tx_index_in_block = row.tx_index_in_block;
}

-- The two conditions of a `WHERE` clause on the block and the transaction of a row; the numbers are
-- below 2 ^ 31, so that the casts to `i32` keep them.
unfoldable pub in_range : CardanoPosition → CardanoPosition → CardanoPosition → Bool
in_range start end' p =
    leb start.block_number p.block_number
    && leb p.block_number end'.block_number
    && (ltb start.block_number p.block_number
        || (p.block_number == start.block_number
            && leb start.tx_index_in_block p.tx_index_in_block))
    && (ltb p.block_number end'.block_number
        || (p.block_number == end'.block_number && ltb p.tx_index_in_block end'.tx_index_in_block))

module _ {ℓ} {A : Type ℓ} where
  abbrev pub take : ℕ → List A → List A
  take zero xs = []
  take (suc n) [] = []
  take (suc n) (x ∷ xs) = x ∷ take n xs

  abbrev pub drop : ℕ → List A → List A
  drop zero xs = xs
  drop (suc n) [] = []
  drop (suc n) (x ∷ xs) = drop n xs

module _ {Row : Type 0} (position : Row → CardanoPosition) (cmp : Row → Row → Ordering) where
  -- `WHERE … ORDER BY … LIMIT … OFFSET …`.
  unfoldable pub select : CardanoPosition → CardanoPosition → ℕ → ℕ → List Row → List Row
  unfolding in_range sort
  select start end' limit offset rows =
      take limit (drop offset (sort cmp (filter (λ row. in_range start end' (position row)) rows)))

  -- A query with its two `assert!`s; `none` is an error of the database.
  unfoldable pub query :
      CardanoPosition → CardanoPosition → ℕ → ℕ → Option (List Row) → Result (List Row)
  unfolding select
  query start end' limit offset none =
      if ltb limit (2 ^ 31 - 1) && ltb offset (2 ^ 31 - 1) then err (db_query_error 0) else panicked
  query start end' limit offset (some rows) =
      if ltb limit (2 ^ 31 - 1) && ltb offset (2 ^ 31 - 1)
      then ok (select start end' limit offset rows)
      else panicked

-- The orders of the four queries.
abbrev pub registration_order :
    {Datum : Type 0} → RegistrationRow Datum → RegistrationRow Datum → Ordering
registration_order r s = position_compare (registration_position r) (registration_position s)

abbrev pub deregistration_order :
    {Datum : Type 0} → DeregistrationRow Datum → DeregistrationRow Datum → Ordering
deregistration_order r s = position_compare (deregistration_position r) (deregistration_position s)

abbrev pub create_order : AssetCreateRow → AssetCreateRow → Ordering
create_order r s =
    then_compare (position_compare (create_position r) (create_position s))
      (compare r.utxo_index s.utxo_index)

abbrev pub spend_order : AssetSpendRow → AssetSpendRow → Ordering
spend_order r s =
    then_compare (position_compare (spend_position r) (spend_position s))
      (compare r.utxo_index s.utxo_index)

module _ {Datum : Type 0} where
  abbrev pub get_registrations :
      CardanoPosition
      → CardanoPosition
      → ℕ
      → ℕ
      → Option (List (RegistrationRow Datum))
      → Result (List (RegistrationRow Datum))
  get_registrations = query registration_position registration_order

  abbrev pub get_deregistrations :
      CardanoPosition
      → CardanoPosition
      → ℕ
      → ℕ
      → Option (List (DeregistrationRow Datum))
      → Result (List (DeregistrationRow Datum))
  get_deregistrations = query deregistration_position deregistration_order

abbrev pub get_asset_creates :
    CardanoPosition
    → CardanoPosition
    → ℕ
    → ℕ
    → Option (List AssetCreateRow)
    → Result (List AssetCreateRow)
get_asset_creates = query create_position create_order

abbrev pub get_asset_spends :
    CardanoPosition
    → CardanoPosition
    → ℕ
    → ℕ
    → Option (List AssetSpendRow)
    → Result (List AssetSpendRow)
get_asset_spends = query spend_position spend_order
