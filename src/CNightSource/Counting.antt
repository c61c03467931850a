-- ===== src/CNightSource/Counting.antt =====
-- The transactions of a list of UTXOs, as the loop counts them.
use midnight_node.Prelude.{
  ℕ, suc, ◌≤◌, ◌≡◌, refl, Bool, true, false, inl, inr, Bool-cases, List, [], ◌∷◌, ◌==◌, ◌||◌, ◌&&◌,
  if◌then◌else◌, arith,
}
use midnight_node.CNightObservation.Position.{CardanoPosition}
use midnight_node.CNightObservation.Types.{ObservedUtxo}
use midnight_node.CNightSource.Capacity.{before, position_of}

-- From a current position on, no UTXO comes before the one that precedes it.
unfoldable pub IsOrdered : CardanoPosition → List ObservedUtxo → Type 0
IsOrdered p [] = Unit {0}
IsOrdered p (u ∷ us) = (before (position_of u) p ≡ false) × IsOrdered (position_of u) us

unfoldable pub count_txs : CardanoPosition → List ObservedUtxo → ℕ
count_txs p [] = 0
count_txs p (u ∷ us) =
    if before p (position_of u)
    then suc (count_txs (position_of u) us)
    else count_txs (position_of u) us

-- Some UTXO of the list is at the position.
unfoldable pub occurs : CardanoPosition → List ObservedUtxo → Bool
occurs p [] = false
occurs p (u ∷ us) =
    (p.block_number == (position_of u).block_number
      && p.tx_index_in_block == (position_of u).tx_index_in_block)
    || occurs p us

-- The UTXOs past a position are at positions of UTXOs of another list that are past another one.
abbrev pub Covered :
    CardanoPosition → CardanoPosition → List ObservedUtxo → List ObservedUtxo → Type 0
Covered p q bs [] = Unit {0}
Covered p q bs (a ∷ as') =
    (before p (position_of a) ≡ true
      → (before q (position_of a) ≡ true) × (occurs (position_of a) bs ≡ true))
    × Covered p q bs as'

Covered-from :
    (p p' q : CardanoPosition) (as' bs : List ObservedUtxo)
    → before p' p ≡ false
    → Covered p q bs as'
    → Covered p' q bs as'
unfolding before
Covered-from p p' q [] bs h c = tt
Covered-from p p' q (a ∷ as') bs h (c, cs) =
    (λ k. c (ground (arith, h, k)), Covered-from p p' q as' bs h cs)

-- Past the first UTXO of the other list, if it comes before all that is left.
Covered-skip :
    (p q lo : CardanoPosition) (b : ObservedUtxo) (as' bs : List ObservedUtxo)
    → before (position_of b) lo ≡ true
    → IsOrdered lo as'
    → Covered p q (b ∷ bs) as'
    → Covered p (position_of b) bs as'
unfolding before IsOrdered occurs
Covered-skip p q lo b [] bs h o c = tt
Covered-skip p q lo b (a ∷ as') bs h (o, os) (c, cs) =
    let later : before (position_of b) (position_of a) ≡ true = ground (arith, h, o) in
    (
      λ k. (later, ground (arith, (c k).1, later)),
      Covered-skip p q (position_of a) b as' bs later os cs,
    )

-- Past the first UTXO of the other list, if it is at the position that is passed here.
Covered-past :
    (p p' q : CardanoPosition) (b : ObservedUtxo) (as' bs : List ObservedUtxo)
    → before p p' ≡ true
    → before p' (position_of b) ≡ false
    → Covered p q (b ∷ bs) as'
    → Covered p' (position_of b) bs as'
unfolding before occurs
Covered-past p p' q b [] bs h k c = tt
Covered-past p p' q b (a ∷ as') bs h k (c, cs) = (
  λ l.
      let far : before (position_of b) (position_of a) ≡ true = ground (arith, k, l) in
      (far, ground (arith, (c (ground (arith, h, l))).1, far)),
  Covered-past p p' q b as' bs h k cs,
)

occurs-early :
    (p lo : CardanoPosition) (bs : List ObservedUtxo)
    → before p lo ≡ true
    → IsOrdered lo bs
    → occurs p bs ≡ false
unfolding before IsOrdered occurs
occurs-early p lo [] h o = refl
occurs-early p lo (b ∷ bs) h (o, os) =
    ground (arith, h, o, occurs-early p (position_of b) bs (ground (arith, h, o)) os)

pub before_irrefl : (p : CardanoPosition) → before p p ≡ false
unfolding before
before_irrefl p = ground arith

before_same :
    (q p p' : CardanoPosition) → before q p ≡ true → before p' p ≡ false → before q p' ≡ true
unfolding before
before_same q p p' h k = ground arith

-- A list whose transactions all occur in another one has no more of them.
pub count_txs-le :
    (p q : CardanoPosition) (as' bs : List ObservedUtxo)
    → IsOrdered p as'
    → IsOrdered q bs
    → Covered p q bs as'
    → count_txs p as' ≤ count_txs q bs
unfolding count_txs IsOrdered occurs
count_txs-le p q [] bs oa ob c = omega arith
count_txs-le p q (a ∷ as') [] (o, oa) ob (c, cs) = elim (Bool-cases (before p (position_of a))) [
  | inl new ↦ cc ((c new).1)
  | inr old ↦
      rw old
        (count_txs-le (position_of a) q as' [] oa ob (Covered-from p (position_of a) q as' [] o cs))
]
count_txs-le p q (a ∷ as') (b ∷ bs) (o, oa) (o', ob) (c, cs) =
    elim (Bool-cases (before p (position_of a))) [
      | inr old ↦ rw old (
          count_txs-le (position_of a) q as' (b ∷ bs) oa (o', ob)
            (Covered-from p (position_of a) q as' (b ∷ bs) o cs))
      | inl new ↦ elim (Bool-cases (before (position_of b) (position_of a))) [
        | inl early ↦
            let skipped =
              Covered-skip p q (position_of a) b (a ∷ as') bs early
                (before_irrefl (position_of a), oa) (c, cs) in
            ground (arith, count_txs-le p (position_of b) (a ∷ as') bs (o, oa) ob skipped)
        | inr not_early ↦ elim (Bool-cases (before (position_of a) (position_of b))) [
          | inl late ↦ cc (
            (c new).1,
            occurs-early (position_of a) (position_of b) (b ∷ bs) late
                (before_irrefl (position_of b), ob),
          )
          | inr not_late ↦
              let passed = Covered-past p (position_of a) q b as' bs new not_late cs in
              let rest = count_txs-le (position_of a) (position_of b) as' bs oa ob passed in
              let first = before_same q (position_of a) (position_of b) (c new).0 not_early in
              rw (new, first) (omega (arith, rest))
        ]
      ]
    ]
