-- ===== src/CNightSource/Observing.antt =====
-- `get_utxos_up_to_capacity` over the tables of the database.
use Prim.Native.Nat.{Ordering, compare}
use midnight_node.Prelude.{
  ℕ, ◌*◌, ◌-◌, ◌%◌, ◌^◌, ◌≤◌, ◌<◌, ◌≡◌, refl, sym, ap, ◌∙◌, true, false, Option, none, some, List,
  length, filter, All, ltb, arith,
}
use midnight_node.CNightObservation.Position.{CardanoPosition, position_compare, then_compare}
use midnight_node.CNightObservation.Order.{
  compare-IsOrder, then_compare-IsOrder, by_key-IsOrder, position_compare-IsOrder,
}
use midnight_node.CNightObservation.Types.{ObservedUtxo}
use midnight_node.CNightSource.Capacity.{before, position_of}
use midnight_node.CNightSource.Sorting.{is_gt}
use midnight_node.CNightSource.Rows.{
  ok, AssetCreateRow, AssetSpendRow, query, select, registration_position, deregistration_position,
  create_position, spend_position, registration_order, deregistration_order, create_order,
  spend_order,
}
use midnight_node.CNightSource.Decoding.{CardanoLib, then_some, decode_datum, decode_owner}
use midnight_node.CNightSource.Source.{
  registration_utxo, deregistration_utxo, asset_create_utxo, asset_spend_utxo,
}
use midnight_node.CNightSource.Tables.{same_tx, is_some}
use midnight_node.CNightSource.Limits.{IsTable}

-- A table that can be read, whose rows all decode, with at most 64 rows for a transaction.
pub record IsReadable {Row : Type 0} (position : Row → CardanoPosition)
    (decode : Row → Option ObservedUtxo) (found : Option (List Row)) (rows : List Row)
    : Type 0 where
  pub is_found : found ≡ some rows
  pub decodes : All (λ r. is_some (decode r) ≡ true) rows
  pub few : (p : CardanoPosition) → length (filter (λ r. same_tx p (position r)) rows) ≤ 64

pub query-some :
    {Row : Type 0} (position : Row → CardanoPosition) (cmp : Row → Row → Ordering)
    (start end' : CardanoPosition) (tx_capacity : ℕ) (rows : List Row) (found : Option (List Row))
    → found ≡ some rows
    → tx_capacity * 64 < 2 ^ 31 - 1
    → query position cmp start end' (tx_capacity * 64 % 2 ^ 64) 0 found
      ≡ ok (select position cmp start end' (tx_capacity * 64) 0 rows)
unfolding query
query-some position cmp start end' tx_capacity rows found e small =
    let fits : tx_capacity * 64 % 2 ^ 64 ≡ tx_capacity * 64 = omega (arith, small) in
    let test : ltb (tx_capacity * 64) (2 ^ 31 - 1) ≡ true = ground (arith, small) in
    rw (e, fits, test) refl

position_not_gt :
    (p q : CardanoPosition) → is_gt (position_compare p q) ≡ false → before q p ≡ false
unfolding before
position_not_gt p q h = ground (arith, h)

position_then_not_gt :
    (p q : CardanoPosition) (i j : ℕ)
    → is_gt (then_compare (position_compare p q) (compare i j)) ≡ false
    → before q p ≡ false
unfolding before
position_then_not_gt p q i j h = ground (arith, h)

position_or : CardanoPosition → Option ObservedUtxo → CardanoPosition
position_or p none = p
position_or p (some u) = position_of u

then_some-placed :
    {A : Type 0} (o : Option A) (f : A → ObservedUtxo) (p : CardanoPosition) (u : ObservedUtxo)
    → ((a : A) → position_of (f a) ≡ p)
    → then_some o (λ a. some (f a)) ≡ some u
    → position_of u ≡ p
unfolding position_or
then_some-placed none f p u k h = cc h
then_some-placed (some a) f p u k h = sym (ap (position_or p) h) ∙ k a

module _ {Datum Constr Hash Credential Address : Type 0}
    (lib : CardanoLib Datum Constr Hash Credential Address) (cardano_network : ℕ) where
  pub registrations-IsTable :
      IsTable registration_position registration_order (registration_utxo lib cardano_network)
  unfolding registration_utxo
  registrations-IsTable = record {
    order = by_key-IsOrder registration_position position_compare-IsOrder;
    by_position = λ r s. position_not_gt (registration_position r) (registration_position s);
    placed = λ r u.
        then_some-placed (decode_datum lib cardano_network r.full_datum) _ (registration_position r)
          u (λ a. refl);
  }

  pub deregistrations-IsTable :
      IsTable deregistration_position deregistration_order (deregistration_utxo lib cardano_network)
  unfolding deregistration_utxo
  deregistrations-IsTable = record {
    order = by_key-IsOrder deregistration_position position_compare-IsOrder;
    by_position = λ r s. position_not_gt (deregistration_position r) (deregistration_position s);
    placed = λ r u.
        then_some-placed (decode_datum lib cardano_network r.full_datum) _
          (deregistration_position r) u (λ a. refl);
  }

  pub creates-IsTable : IsTable create_position create_order (asset_create_utxo lib cardano_network)
  unfolding asset_create_utxo
  creates-IsTable = record {
    order =
        then_compare-IsOrder (by_key-IsOrder create_position position_compare-IsOrder)
          (by_key-IsOrder (λ (r : AssetCreateRow). r.utxo_index) compare-IsOrder);
    by_position = λ r s.
        position_then_not_gt (create_position r) (create_position s) r.utxo_index s.utxo_index;
    placed = λ r u.
        then_some-placed (decode_owner lib cardano_network r.holder_address) _ (create_position r) u
          (λ a. refl);
  }

  pub spends-IsTable : IsTable spend_position spend_order (asset_spend_utxo lib cardano_network)
  unfolding asset_spend_utxo
  spends-IsTable = record {
    order =
        then_compare-IsOrder (by_key-IsOrder spend_position position_compare-IsOrder)
          (by_key-IsOrder (λ (r : AssetSpendRow). r.utxo_index) compare-IsOrder);
    by_position =
        λ r s. position_then_not_gt (spend_position r) (spend_position s) r.utxo_index s.utxo_index;
    placed = λ r u.
        then_some-placed (decode_owner lib cardano_network r.holder_address) _ (spend_position r) u
          (λ a. refl);
  }
