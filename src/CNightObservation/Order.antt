-- ===== src/CNightObservation/Order.antt =====
-- The order in which observed headers are processed, and what it does not tell apart.
use Prim.Native.Nat.{compare, Ordering}
use midnight_node.Prelude.{ℕ, ◌≡◌, ◌↔◌, refl, ap, List, [], ◌∷◌, arith}
use midnight_node.CNightObservation.Position.{
  CardanoPosition, position_compare, increment, then_compare, ObservedUtxoHeader, is_create,
  bytes_compare, create_compare, header_compare,
}

abbrev flip : Ordering → Ordering
flip Ordering.lt = Ordering.gt
flip Ordering.eq = Ordering.eq
flip Ordering.gt = Ordering.lt

-- A comparison that turns round with its arguments, is transitive, and treats alike two values
-- between which it finds no difference.
pub record IsOrder {A : Type 0} (cmp : A → A → Ordering) : Type 0 where
  pub flips : (a b : A) → cmp b a ≡ flip (cmp a b)
  pub trans : (a b c : A) → cmp a b ≡ Ordering.lt → cmp b c ≡ Ordering.lt → cmp a c ≡ Ordering.lt
  pub alike : (a b c : A) → cmp a b ≡ Ordering.eq → cmp a c ≡ cmp b c

pub compare-IsOrder : IsOrder compare
compare-IsOrder = record {
  flips = λ a b. ground arith;
  trans = λ a b c h k. ground arith;
  alike = λ a b c h. ground arith;
}

create_compare-IsOrder : IsOrder create_compare
create_compare-IsOrder = record {
  flips = λ a b. ground arith;
  trans = λ a b c h k. ground arith;
  alike = λ a b c h. ground arith;
}

module _ {A : Type 0} {first second : A → A → Ordering} (f : IsOrder first)
    (s : IsOrder second) where
  -- The first comparison, and the second where that finds no difference.
  abbrev pub both : A → A → Ordering
  both a b = then_compare (first a b) (second a b)

  pub then_compare-IsOrder : IsOrder both
  then_compare-IsOrder = record {
    flips = λ a b. ground (arith, f.flips a b, s.flips a b);
    trans = λ a b c h k. ground (
      arith,
      f.trans a b c,
      s.trans a b c,
      f.alike a b c,
      f.alike b c a,
      f.flips a b,
      f.flips b c,
      f.flips a c,
    );
    alike = λ a b c h. ground (arith, f.alike a b c, s.alike a b c);
  }

bytes_flips : (as' bs : List ℕ) → bytes_compare bs as' ≡ flip (bytes_compare as' bs)
bytes_flips [] [] = refl
bytes_flips [] (b ∷ bs) = refl
bytes_flips (a ∷ as') [] = refl
bytes_flips (a ∷ as') (b ∷ bs) = ground (arith, bytes_flips as' bs)

bytes_eq : (as' bs : List ℕ) → bytes_compare as' bs ≡ Ordering.eq → as' ≡ bs
bytes_eq [] [] h = refl
bytes_eq [] (b ∷ bs) h = cc
bytes_eq (a ∷ as') [] h = cc
bytes_eq (a ∷ as') (b ∷ bs) h = ground (arith, bytes_eq as' bs)

bytes_trans :
    (as' bs cs : List ℕ)
    → bytes_compare as' bs ≡ Ordering.lt
    → bytes_compare bs cs ≡ Ordering.lt
    → bytes_compare as' cs ≡ Ordering.lt
bytes_trans [] [] cs h k = cc
bytes_trans [] (b ∷ bs) [] h k = cc
bytes_trans [] (b ∷ bs) (c ∷ cs) h k = refl
bytes_trans (a ∷ as') [] cs h k = cc
bytes_trans (a ∷ as') (b ∷ bs) [] h k = cc
bytes_trans (a ∷ as') (b ∷ bs) (c ∷ cs) h k = ground (arith, bytes_trans as' bs cs)

bytes_compare-IsOrder : IsOrder bytes_compare
bytes_compare-IsOrder = record {
  flips = bytes_flips;
  trans = bytes_trans;
  alike = λ as' bs cs h. ap (λ xs. bytes_compare xs cs) (bytes_eq as' bs h);
}

-- A comparison of values by a part of them.
abbrev pub by_key : {A B : Type 0} → (A → B) → (B → B → Ordering) → A → A → Ordering
by_key f cmp a b = cmp (f a) (f b)

pub by_key-IsOrder :
    {A B : Type 0} (f : A → B) {cmp : B → B → Ordering} → IsOrder cmp → IsOrder (by_key f cmp)
by_key-IsOrder f o = record {
  flips = λ a b. o.flips (f a) (f b);
  trans = λ a b c. o.trans (f a) (f b) (f c);
  alike = λ a b c. o.alike (f a) (f b) (f c);
}

pub position_compare-IsOrder : IsOrder position_compare
unfolding position_compare
position_compare-IsOrder =
    then_compare-IsOrder (by_key-IsOrder (λ (p : CardanoPosition). p.block_number) compare-IsOrder)
      (by_key-IsOrder (λ (p : CardanoPosition). p.tx_index_in_block) compare-IsOrder)

-- The comparison of two headers turns round with them, is transitive, and treats alike two headers
-- between which it finds no difference.
pub header_compare-IsOrder : IsOrder header_compare
unfolding header_compare
header_compare-IsOrder =
    then_compare-IsOrder
      (by_key-IsOrder (λ (h : ObservedUtxoHeader). h.tx_position) position_compare-IsOrder)
      (then_compare-IsOrder (by_key-IsOrder is_create create_compare-IsOrder) (
        then_compare-IsOrder
          (by_key-IsOrder (λ (h : ObservedUtxoHeader). h.utxo_tx_hash) bytes_compare-IsOrder)
          (by_key-IsOrder (λ (h : ObservedUtxoHeader). h.utxo_index) compare-IsOrder)))

bytes_compare_self : (as' : List ℕ) → bytes_compare as' as' ≡ Ordering.eq
bytes_compare_self [] = refl
bytes_compare_self (a ∷ as') = ground (arith, bytes_compare_self as')

-- Two headers compare equal exactly if they name the same UTXO at the same place on the chain and
-- both create it or both do not: block hash, timestamp and spending transaction do not count.
pub header_compare-eq :
    (h k : ObservedUtxoHeader)
    → (header_compare h k ≡ Ordering.eq) ↔ (
        (h.tx_position.block_number ≡ k.tx_position.block_number)
        × (h.tx_position.tx_index_in_block ≡ k.tx_position.tx_index_in_block)
        × (is_create h ≡ is_create k)
        × (h.utxo_tx_hash ≡ k.utxo_tx_hash)
        × (h.utxo_index ≡ k.utxo_index))
unfolding header_compare position_compare
header_compare-eq h k = (
  λ e. (
    ground arith,
    ground arith,
    ground arith,
    bytes_eq h.utxo_tx_hash k.utxo_tx_hash (ground arith),
    ground arith,
  ),
  λ (b, t, c, u, i). ground (arith, bytes_compare_self h.utxo_tx_hash),
)

-- The next position after one comes after it.
pub position_compare-increment :
    (p : CardanoPosition) → position_compare p (increment p) ≡ Ordering.lt
unfolding position_compare increment
position_compare-increment p = ground arith
