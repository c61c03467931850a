-- ===== src/CNightSource/Hidden.antt =====
-- The UTXOs that a query does not show, compared with the position where the result ends.
use midnight_node.Prelude.{
  ℕ, ◌≤◌, ◌<◌, ◌≡◌, refl, ap, ◌⊎◌, Bool, true, false, inl, inr, Bool-cases, List, [], ◌∷◌, ◌++◌,
  filter, All, arith,
}
use midnight_node.CNightObservation.Position.{CardanoPosition}
use midnight_node.CNightObservation.Types.{ObservedUtxo}
use midnight_node.CNightSource.Capacity.{before, position_of}
use midnight_node.CNightSource.Counting.{IsOrdered, before_irrefl}
use midnight_node.CNightSource.Truncating.{before_end, before_end-none}
use midnight_node.CNightSource.Occurring.{InOrder, num_txs}

pub filter-++ :
    (p : ObservedUtxo → Bool) (us vs : List ObservedUtxo)
    → filter p (us ++ vs) ≡ filter p us ++ filter p vs
filter-++ p [] vs = refl
filter-++ p (u ∷ us) vs = elim (Bool-cases (p u)) [
  | inl kept ↦ rw (kept, filter) (ap (λ xs. u ∷ xs) (filter-++ p us vs))
  | inr gone ↦ rw (gone, filter) (filter-++ p us vs)
]

pub ++-[] : (us : List ObservedUtxo) → us ++ [] ≡ us
++-[] [] = refl
++-[] (u ∷ us) = ap (λ xs. u ∷ xs) (++-[] us)

before_trans :
    (p q e : CardanoPosition) → before q p ≡ false → before q e ≡ true → before p e ≡ true
unfolding before
before_trans p q e h k = ground (arith, h, k)

-- The UTXOs in front of one that is before a position are before it too.
before_front :
    (lo e : CardanoPosition) (us : List ObservedUtxo) (v : ObservedUtxo) (vs : List ObservedUtxo)
    → IsOrdered lo (us ++ v ∷ vs)
    → before (position_of v) e ≡ true
    → (before lo e ≡ true) × All (λ u. before (position_of u) e ≡ true) us
unfolding IsOrdered
before_front lo e [] v vs (o, os) h = (before_trans lo (position_of v) e o h, tt)
before_front lo e (u ∷ us) v vs (o, os) h =
    let (now, later) = before_front (position_of u) e us v vs os h in
    (before_trans lo (position_of u) e o now, (now, later))

All-before :
    (e : CardanoPosition) (us : List ObservedUtxo) (v : ObservedUtxo) (vs : List ObservedUtxo)
    → InOrder (us ++ v ∷ vs)
    → before (position_of v) e ≡ true
    → All (λ u. before (position_of u) e ≡ true) us
All-before e [] v vs o h = tt
All-before e (u ∷ us) v vs o h = before_front (position_of u) e us v vs o h

IsOrdered-left :
    (lo : CardanoPosition) (us vs : List ObservedUtxo) → IsOrdered lo (us ++ vs) → IsOrdered lo us
unfolding IsOrdered
IsOrdered-left lo [] vs o = tt
IsOrdered-left lo (u ∷ us) vs (o, os) = (o, IsOrdered-left (position_of u) us vs os)

pub InOrder-left : (us vs : List ObservedUtxo) → InOrder (us ++ vs) → InOrder us
InOrder-left [] vs o = tt
InOrder-left (u ∷ us) vs o = IsOrdered-left (position_of u) us vs o

IsOrdered-right :
    (lo : CardanoPosition) (us : List ObservedUtxo) (v : ObservedUtxo) (vs : List ObservedUtxo)
    → IsOrdered lo (us ++ v ∷ vs)
    → IsOrdered (position_of v) vs
unfolding IsOrdered
IsOrdered-right lo [] v vs (o, os) = os
IsOrdered-right lo (u ∷ us) v vs (o, os) = IsOrdered-right (position_of u) us v vs os

InOrder-right :
    (us : List ObservedUtxo) (v : ObservedUtxo) (vs : List ObservedUtxo)
    → InOrder (us ++ v ∷ vs)
    → IsOrdered (position_of v) vs
InOrder-right [] v vs o = o
InOrder-right (u ∷ us) v vs o = IsOrdered-right (position_of u) us v vs o

-- What a query has not shown is not before the end.
pub hidden-later :
    (e : CardanoPosition) (tx_capacity : ℕ) (shown hidden : List ObservedUtxo)
    → InOrder (shown ++ hidden)
    → (hidden ≡ []) ⊎ (tx_capacity ≤ num_txs shown)
    → (All (λ u. before (position_of u) e ≡ true) shown → num_txs shown < tx_capacity)
    → before_end e hidden ≡ []
unfolding IsOrdered
hidden-later e tx_capacity shown [] o enough few = refl
hidden-later e tx_capacity shown (v ∷ vs) o (inl none_hidden) few = cc none_hidden
hidden-later e tx_capacity shown (v ∷ vs) o (inr enough) few =
    elim (Bool-cases (before (position_of v) e)) [
      | inl early ↦ ground (arith, enough, few (All-before e shown v vs o early))
      | inr late ↦
          before_end-none (position_of v) e (v ∷ vs) late
            (before_irrefl (position_of v), InOrder-right shown v vs o)
    ]
