-- ===== src/CNightSource/Agreement.antt =====
-- Validators process the observed UTXOs in the same order, whatever the order of the rows of their
-- queries.
mod Tests
use Prim.Native.Nat.{Ordering}
use mathlib.Core.List.{Permᴰ}
use mathlib.Core.List.Permᴰ
use midnight_node.Prelude.{
  ℕ, ◌≤◌, ◌<◌, ◌≡◌, ◌⊎◌, inl, inr, refl, sym, ap, ◌∙◌, subst, ◌++◌, Bool, true, false, List, [],
  ◌∷◌, All, arith, Bool-cases,
}
use midnight_node.CNightObservation.Position.{
  ObservedUtxoHeader, is_create, position_compare, header_compare,
}
use midnight_node.CNightObservation.Order.{IsOrder, header_compare-eq}
use midnight_node.CNightObservation.Types.{ObservedUtxo}
use midnight_node.CNightSource.Sorting.{
  insert, sort, is_gt, NotBelow, IsSorted, sort-IsSorted, gt_trans, gt_flip,
}
use midnight_node.CNightSource.Merging.{merge, utxo_compare, utxo_compare-IsOrder}

module _ {A : Type 0} {cmp : A → A → Ordering} (o : IsOrder cmp) where
  no_difference :
      (x y : A) → is_gt (cmp x y) ≡ false → is_gt (cmp y x) ≡ false → cmp x y ≡ Ordering.eq
  no_difference x y h k = ground (arith, o.flips x y, h, k)

  -- The greater element passes the other one.
  insert-swap_gt :
      (x y : A) (zs : List A)
      → is_gt (cmp x y) ≡ true
      → insert cmp x (insert cmp y zs) ≡ insert cmp y (insert cmp x zs)
  unfolding insert
  insert-swap_gt x y [] gt = ground (arith, gt, gt_flip o x y gt)
  insert-swap_gt x y (z ∷ zs) gt = ground (
    arith,
    gt,
    gt_flip o x y gt,
    gt_trans o y x z,
    gt_trans o x z y,
    gt_trans o x y z,
    gt_flip o y z,
    insert-swap_gt x y zs gt,
  )

  -- Two insertions can be swapped, if elements between which there is no difference are equal.
  insert-swap :
      (x y : A) (zs : List A)
      → (cmp x y ≡ Ordering.eq → x ≡ y)
      → insert cmp x (insert cmp y zs) ≡ insert cmp y (insert cmp x zs)
  insert-swap x y zs same = elim (Bool-cases (is_gt (cmp x y))) [
    | inl gt ↦ insert-swap_gt x y zs gt
    | inr le ↦ elim (Bool-cases (is_gt (cmp y x))) [
      | inl gt ↦ sym (insert-swap_gt y x zs gt)
      | inr ge ↦ rw (same (no_difference x y le ge)) refl
    ]
  ]

-- What tells two UTXOs apart: the place on the chain, whether it is created, and which it is.
abbrev Names : (ℕ → ℕ → Bool → List ℕ → ℕ → ObservedUtxo) → ObservedUtxo → Type 0
Names seen u =
    let h = u.header in
    u
    ≡ seen h.tx_position.block_number h.tx_position.tx_index_in_block (is_create h) h.utxo_tx_hash
        h.utxo_index

Names-eq :
    (seen : ℕ → ℕ → Bool → List ℕ → ℕ → ObservedUtxo) (u v : ObservedUtxo)
    → Names seen u
    → Names seen v
    → utxo_compare u v ≡ Ordering.eq
    → u ≡ v
Names-eq seen u v named named' alike =
    let (b, t, c, x, i) = (header_compare-eq u.header v.header).0 alike in
    rw (named, named', b, t, c, x, i) refl

module _ (seen : ℕ → ℕ → Bool → List ℕ → ℕ → ObservedUtxo) where
  All-perm : {us vs : List ObservedUtxo} → Permᴰ us vs → All (Names seen) us → All (Names seen) vs
  All-perm Permᴰ.nil h = tt
  All-perm (Permᴰ.cons e p) (h, hs) = (subst (Names seen) e h, All-perm p hs)
  All-perm (Permᴰ.swap e e') (h, (h', hs)) =
      (subst (Names seen) e' h', (subst (Names seen) e h, hs))
  All-perm (Permᴰ.trans p q) h = All-perm q (All-perm p h)

  sort-perm :
      {us vs : List ObservedUtxo}
      → Permᴰ us vs
      → All (Names seen) us
      → sort utxo_compare us ≡ sort utxo_compare vs
  unfolding sort
  sort-perm Permᴰ.nil h = refl
  sort-perm (Permᴰ.cons e p) (h, hs) = rw (e, sort-perm p hs) refl
  sort-perm (Permᴰ.swap {a} {b} {l} e e') (h, (h', hs)) =
      insert-swap utxo_compare-IsOrder a b (sort utxo_compare l) (Names-eq seen a b h h')
      ∙ rw (e, e') refl
  sort-perm (Permᴰ.trans p q) h = sort-perm p h ∙ sort-perm q (All-perm p h)

-- By the place on the chain, and what a transaction creates before what it spends.
abbrev Precedes : ObservedUtxo → ObservedUtxo → Type 0
Precedes u v =
    let p = u.header.tx_position in
    let q = v.header.tx_position in
    (p.block_number < q.block_number)
    ⊎ ((p.block_number ≡ q.block_number) × (p.tx_index_in_block < q.tx_index_in_block))
    ⊎ ((p.block_number ≡ q.block_number)
        × (p.tx_index_in_block ≡ q.tx_index_in_block)
        × ((is_create u.header ≡ true) ⊎ (is_create v.header ≡ false)))

abbrev pub InTurn : List ObservedUtxo → Type 0
InTurn [] = Unit {0}
InTurn (u ∷ us) = All (Precedes u) us × InTurn us

le-Precedes : (u v : ObservedUtxo) → is_gt (utxo_compare u v) ≡ false → Precedes u v
unfolding header_compare position_compare
le-Precedes u v h = ground (arith, h)

NotBelow-Precedes :
    (u : ObservedUtxo) (us : List ObservedUtxo) → NotBelow utxo_compare u us → All (Precedes u) us
NotBelow-Precedes u [] h = tt
NotBelow-Precedes u (v ∷ us) (h, hs) = (le-Precedes u v h, NotBelow-Precedes u us hs)

IsSorted-InTurn : (us : List ObservedUtxo) → IsSorted utxo_compare us → InTurn us
IsSorted-InTurn [] h = tt
IsSorted-InTurn (u ∷ us) (h, hs) = (NotBelow-Precedes u us h, IsSorted-InTurn us hs)

-- Two nodes whose queries return the same UTXOs, in whatever order and from whichever query, process
-- them in the same order, if no two different ones have the same place on the chain, the same
-- transaction hash and index, and are both created or both not. They process them by their place on
-- the chain, and those that a transaction creates before those that it does not.
pub merge-agrees :
    (seen : ℕ → ℕ → Bool → List ℕ → ℕ → ObservedUtxo)
    (registrations deregistrations creates spends : List ObservedUtxo)
    (registrations' deregistrations' creates' spends' : List ObservedUtxo)
    → Permᴰ
        (registrations ++ deregistrations ++ creates ++ spends)
        (registrations' ++ deregistrations' ++ creates' ++ spends')
    → All (Names seen) (registrations ++ deregistrations ++ creates ++ spends)
    → (merge registrations deregistrations creates spends
        ≡ merge registrations' deregistrations' creates' spends')
      × InTurn (merge registrations deregistrations creates spends)
merge-agrees seen rs ds cs ss rs' ds' cs' ss' same named = (
  sort-perm seen same named,
  IsSorted-InTurn (merge rs ds cs ss) (sort-IsSorted utxo_compare-IsOrder (rs ++ ds ++ cs ++ ss)),
)
