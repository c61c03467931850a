-- ===== src/CNightSource/Occurring.antt =====
-- The positions that occur in a list of UTXOs, and the number of transactions of a list whose
-- positions all occur in another one.
use midnight_node.Prelude.{
  ℕ, suc, ◌≤◌, ◌≡◌, refl, true, false, inl, inr, Bool-cases, List, [], ◌∷◌, ◌++◌, filter, All, ◌==◌,
  ◌&&◌, arith,
}
use midnight_node.CNightObservation.Position.{CardanoPosition, header_compare}
use midnight_node.CNightObservation.Types.{ObservedUtxo}
use midnight_node.CNightSource.Sorting.{insert, sort, IsSorted, is_gt}
use midnight_node.CNightSource.Capacity.{before, position_of}
use midnight_node.CNightSource.Counting.{
  IsOrdered, count_txs, count_txs-le, occurs, Covered, before_irrefl,
}
use midnight_node.CNightSource.Truncating.{before_end}
use midnight_node.CNightSource.Merging.{utxo_compare}

-- The UTXOs come in the order of their positions.
abbrev pub InOrder : List ObservedUtxo → Type 0
InOrder [] = Unit {0}
InOrder (u ∷ us) = IsOrdered (position_of u) us

-- The number of transactions of UTXOs that are in order.
abbrev pub num_txs : List ObservedUtxo → ℕ
num_txs [] = 0
num_txs (u ∷ us) = suc (count_txs (position_of u) us)

-- The positions of the first list occur in the second one.
abbrev pub AllOccur : List ObservedUtxo → List ObservedUtxo → Type 0
AllOccur us vs = All (λ u. occurs (position_of u) vs ≡ true) us

pub All-map :
    {P Q : ObservedUtxo → Type 0} (us : List ObservedUtxo)
    → ((u : ObservedUtxo) → P u → Q u)
    → All P us
    → All Q us
All-map [] f h = tt
All-map (u ∷ us) f (h, hs) = (f u h, All-map us f hs)

occurs_here :
    (p : CardanoPosition) (u : ObservedUtxo) (us : List ObservedUtxo)
    → position_of u ≡ p
    → occurs p (u ∷ us) ≡ true
unfolding occurs
occurs_here p u us h = ground (arith, h)

occurs_there :
    (p : CardanoPosition) (u : ObservedUtxo) (us : List ObservedUtxo)
    → occurs p us ≡ true
    → occurs p (u ∷ us) ≡ true
unfolding occurs
occurs_there p u us h = ground (arith, h)

pub AllOccur-refl : (us : List ObservedUtxo) → AllOccur us us
AllOccur-refl [] = tt
AllOccur-refl (u ∷ us) = (
  occurs_here (position_of u) u us refl,
  All-map us (λ v. occurs_there (position_of v) u us) (AllOccur-refl us),
)

pub occurs-++_left :
    (p : CardanoPosition) (us vs : List ObservedUtxo)
    → occurs p us ≡ true
    → occurs p (us ++ vs) ≡ true
unfolding occurs
occurs-++_left p [] vs h = ground (arith, h)
occurs-++_left p (u ∷ us) vs h = ground (arith, h, occurs-++_left p us vs)

pub occurs-++_right :
    (p : CardanoPosition) (us vs : List ObservedUtxo)
    → occurs p vs ≡ true
    → occurs p (us ++ vs) ≡ true
occurs-++_right p [] vs h = h
occurs-++_right p (u ∷ us) vs h = occurs_there p u (us ++ vs) (occurs-++_right p us vs h)

occurs-insert :
    (p : CardanoPosition) (u : ObservedUtxo) (us : List ObservedUtxo)
    → occurs p (u ∷ us) ≡ true
    → occurs p (insert utxo_compare u us) ≡ true
unfolding occurs insert
occurs-insert p u [] h = h
occurs-insert p u (v ∷ vs) h = elim (Bool-cases (is_gt (utxo_compare u v))) [
  | inl gt ↦ rw gt (ground (arith, h, occurs-insert p u vs))
  | inr le ↦ rw le h
]

occurs-sort :
    (p : CardanoPosition) (us : List ObservedUtxo)
    → occurs p us ≡ true
    → occurs p (sort utxo_compare us) ≡ true
unfolding occurs sort
occurs-sort p [] h = h
occurs-sort p (u ∷ us) h =
    occurs-insert p u (sort utxo_compare us) (ground (arith, h, occurs-sort p us))

before_alike :
    (p q e : CardanoPosition)
    → (p.block_number == q.block_number && p.tx_index_in_block == q.tx_index_in_block) ≡ true
    → before p e ≡ before q e
unfolding before
before_alike p q e h = ground (arith, h)

occurs-before_end :
    (p e : CardanoPosition) (us : List ObservedUtxo)
    → before p e ≡ true
    → occurs p us ≡ true
    → occurs p (before_end e us) ≡ true
unfolding occurs
occurs-before_end p e [] h k = k
occurs-before_end p e (u ∷ us) h k = elim (Bool-cases (before (position_of u) e)) [
  | inl early ↦ rw (early, filter) (ground (arith, k, occurs-before_end p e us h))
  | inr late ↦
      rw (late, filter)
        (ground (arith, k, h, late, before_alike p (position_of u) e, occurs-before_end p e us h))
]

-- Each of the UTXOs before the end is among the sorted ones before the end.
pub AllOccur-sort :
    (e : CardanoPosition) (us vs : List ObservedUtxo)
    → All (λ u. before (position_of u) e ≡ true) us
    → AllOccur us vs
    → AllOccur us (before_end e (sort utxo_compare vs))
AllOccur-sort e [] vs h k = tt
AllOccur-sort e (u ∷ us) vs (h, hs) (k, ks) = (
  occurs-before_end (position_of u) e (sort utxo_compare vs) h (occurs-sort (position_of u) vs k),
  AllOccur-sort e us vs hs ks,
)

-- The first UTXO of a list in order is at the earliest position that occurs.
first_earliest :
    (p lo : CardanoPosition) (us : List ObservedUtxo)
    → IsOrdered lo us
    → occurs p us ≡ true
    → before p lo ≡ false
unfolding before IsOrdered occurs
first_earliest p lo [] o h = ground (arith, h)
first_earliest p lo (u ∷ us) (o, os) h =
    ground (arith, o, h, first_earliest p (position_of u) us os)

first_earliest_cons :
    (p : CardanoPosition) (u : ObservedUtxo) (us : List ObservedUtxo)
    → IsOrdered (position_of u) us
    → occurs p (u ∷ us) ≡ true
    → before p (position_of u) ≡ false
unfolding before IsOrdered occurs
first_earliest_cons p u us o h =
    first_earliest p (position_of u) (u ∷ us) (before_irrefl (position_of u), o) h

Covered-step :
    (p : CardanoPosition) (u : ObservedUtxo) (v : ObservedUtxo) (vs : List ObservedUtxo)
    → before p (position_of v) ≡ false
    → occurs (position_of u) (v ∷ vs) ≡ true
    → before p (position_of u) ≡ true
    → (before (position_of v) (position_of u) ≡ true) × (occurs (position_of u) vs ≡ true)
unfolding before occurs
Covered-step p u v vs h k l =
    let late : before (position_of v) (position_of u) ≡ true = ground (arith, h, l) in
    (late, ground (arith, k, late))

Covered-occur :
    (p : CardanoPosition) (us : List ObservedUtxo) (v : ObservedUtxo) (vs : List ObservedUtxo)
    → before p (position_of v) ≡ false
    → AllOccur us (v ∷ vs)
    → Covered p (position_of v) vs us
Covered-occur p [] v vs h k = tt
Covered-occur p (u ∷ us) v vs h (k, ks) = (Covered-step p u v vs h k, Covered-occur p us v vs h ks)

pub num_txs-le :
    (us vs : List ObservedUtxo) → InOrder us → InOrder vs → AllOccur us vs → num_txs us ≤ num_txs vs
unfolding occurs
num_txs-le [] vs o o' h = omega arith
num_txs-le (u ∷ us) [] o o' (h, hs) = ground (arith, h)
num_txs-le (u ∷ us) (v ∷ vs) o o' (h, hs) =
    let low = first_earliest_cons (position_of u) v vs o' h in
    let fewer =
      count_txs-le (position_of u) (position_of v) us vs o o'
        (Covered-occur (position_of u) us v vs low hs) in
    omega (arith, fewer)

position_not_gt :
    (u v : ObservedUtxo)
    → is_gt (utxo_compare u v) ≡ false
    → before (position_of v) (position_of u) ≡ false
unfolding before header_compare
position_not_gt u v h = ground (arith, h)

InOrder-cons :
    (u : ObservedUtxo) (us : List ObservedUtxo)
    → IsSorted utxo_compare (u ∷ us)
    → IsOrdered (position_of u) us
unfolding IsOrdered
InOrder-cons u [] s = tt
InOrder-cons u (v ∷ vs) ((low, lows), s) = (position_not_gt u v low, InOrder-cons v vs s)

pub IsSorted-InOrder : (us : List ObservedUtxo) → IsSorted utxo_compare us → InOrder us
IsSorted-InOrder [] s = tt
IsSorted-InOrder (u ∷ us) s = InOrder-cons u us s
