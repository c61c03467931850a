-- ===== src/CNightSource/Tables.antt =====
-- What a query with a range, an order and a limit shows of the rows of a table.
use midnight_node.Prelude.{
  ℕ, zero, suc, ◌+◌, ◌*◌, ◌≤◌, ◌≡◌, refl, ap, ◌⊎◌, inl, inr, Bool, true, false, Bool-cases,
  Option-cases, Option, none, some, List, [], ◌∷◌, ◌++◌, length, filter, All, ◌==◌, ◌&&◌, arith,
}
use midnight_node.CNightObservation.Position.{CardanoPosition}
use midnight_node.CNightObservation.Types.{ObservedUtxo}
use midnight_node.CNightSource.Capacity.{before, position_of}
use midnight_node.CNightSource.Counting.{IsOrdered, count_txs}
use midnight_node.CNightSource.Occurring.{InOrder, num_txs}
use midnight_node.CNightSource.Rows.{take, drop}
use midnight_node.CNightSource.Decoding.{filter_map}

-- Two positions of one transaction.
abbrev pub same_tx : CardanoPosition → CardanoPosition → Bool
same_tx p q = p.block_number == q.block_number && p.tx_index_in_block == q.tx_index_in_block

-- The number of UTXOs of a transaction.
abbrev pub utxos_of : CardanoPosition → List ObservedUtxo → ℕ
utxos_of p us = length (filter (λ u. same_tx p (position_of u)) us)

pub utxos_of-cons_same :
    (p : CardanoPosition) (u : ObservedUtxo) (us : List ObservedUtxo)
    → same_tx p (position_of u) ≡ true
    → utxos_of p (u ∷ us) ≡ suc (utxos_of p us)
utxos_of-cons_same p u us h = rw (h, filter) refl

utxos_of-cons :
    (p : CardanoPosition) (u : ObservedUtxo) (us : List ObservedUtxo)
    → utxos_of p us ≤ utxos_of p (u ∷ us)
utxos_of-cons p u us = elim (Bool-cases (same_tx p (position_of u))) [
  | inl same ↦ rw (same, filter) (omega arith)
  | inr other ↦ rw (other, filter) (omega arith)
]

same_place : (p q : CardanoPosition) → before p q ≡ false → before q p ≡ false → same_tx p q ≡ true
unfolding before
same_place p q h k = ground (arith, h, k)

same_tx_refl : (p : CardanoPosition) → same_tx p p ≡ true
same_tx_refl p = ground arith

same_tx-alike : (p q r : CardanoPosition) → same_tx p q ≡ true → same_tx p r ≡ same_tx q r
same_tx-alike p q r h = ground (arith, h)

utxos_of-alike :
    (p q : CardanoPosition) (us : List ObservedUtxo)
    → same_tx p q ≡ true
    → utxos_of p us ≡ utxos_of q us
utxos_of-alike p q [] h = refl
utxos_of-alike p q (u ∷ us) h = elim (Bool-cases (same_tx q (position_of u))) [
  | inl same ↦
      rw (same, same_tx-alike p q (position_of u) h, filter)
        (rw same (ap suc (utxos_of-alike p q us h)))
  | inr other ↦
      rw (other, same_tx-alike p q (position_of u) h, filter) (rw other (utxos_of-alike p q us h))
]

-- Of UTXOs that are in order, with at most 64 in a transaction, this many are in these
-- transactions.
length-count_txs :
    (p : CardanoPosition) (us : List ObservedUtxo)
    → IsOrdered p us
    → ((q : CardanoPosition) → utxos_of q us ≤ 64)
    → length us ≤ utxos_of p us + 64 * count_txs p us
unfolding IsOrdered count_txs
length-count_txs p [] o few = omega arith
length-count_txs p (u ∷ us) (o, os) few =
    let less : (q : CardanoPosition) → utxos_of q us ≤ 64 =
      λ q. omega (arith, utxos_of-cons q u us, few q) in
    let rest = length-count_txs (position_of u) us os less in
    let here = utxos_of-cons_same (position_of u) u us (same_tx_refl (position_of u)) in
    elim (Bool-cases (before p (position_of u))) [
      | inl new ↦ rw new (omega (arith, rest, here, few (position_of u)))
      | inr old ↦
          let same = same_place p (position_of u) old o in
          rw old (
            omega (
              arith,
              rest,
              utxos_of-cons_same p u us same,
              utxos_of-alike p (position_of u) us same,
            ))
    ]

pub length-num_txs :
    (us : List ObservedUtxo)
    → InOrder us
    → ((q : CardanoPosition) → utxos_of q us ≤ 64)
    → length us ≤ 64 * num_txs us
length-num_txs [] o few = omega arith
length-num_txs (u ∷ us) o few =
    let less : (q : CardanoPosition) → utxos_of q us ≤ 64 =
      λ q. omega (arith, utxos_of-cons q u us, few q) in
    let here = utxos_of-cons_same (position_of u) u us (same_tx_refl (position_of u)) in
    omega (arith, length-count_txs (position_of u) us o less, here, few (position_of u))

pub length-filter-filter :
    {A : Type 0} (p q : A → Bool) (xs : List A)
    → length (filter p (filter q xs)) ≤ length (filter p xs)
length-filter-filter p q [] = omega arith
length-filter-filter p q (x ∷ xs) = elim (Bool-cases (q x)) [
  | inl b ↦ elim (Bool-cases (p x)) [
    | inl a ↦ rw (b, filter) (rw (a, filter) (omega (arith, length-filter-filter p q xs)))
    | inr a ↦ rw (b, filter) (rw (a, filter) (length-filter-filter p q xs))
  ]
  | inr b ↦ elim (Bool-cases (p x)) [
    | inl a ↦ rw (b, filter) (rw (a, filter) (omega (arith, length-filter-filter p q xs)))
    | inr a ↦ rw (b, filter) (rw (a, filter) (length-filter-filter p q xs))
  ]
]

pub length-filter-take :
    {A : Type 0} (p : A → Bool) (n : ℕ) (xs : List A)
    → length (filter p (take n xs)) ≤ length (filter p xs)
length-filter-take p zero xs = omega arith
length-filter-take p (suc n) [] = omega arith
length-filter-take p (suc n) (x ∷ xs) = elim (Bool-cases (p x)) [
  | inl a ↦ rw (a, filter) (omega (arith, length-filter-take p n xs))
  | inr a ↦ rw (a, filter) (length-filter-take p n xs)
]

pub take-drop : {A : Type 0} (n : ℕ) (xs : List A) → take n xs ++ drop n xs ≡ xs
take-drop zero xs = refl
take-drop (suc n) [] = refl
take-drop (suc n) (x ∷ xs) = ap (λ ys. x ∷ ys) (take-drop n xs)

-- Either a limit has left nothing out, or it was reached.
pub take_or_drop : {A : Type 0} (n : ℕ) (xs : List A) → (drop n xs ≡ []) ⊎ (length (take n xs) ≡ n)
take_or_drop zero xs = inr refl
take_or_drop (suc n) [] = inl refl
take_or_drop (suc n) (x ∷ xs) = elim (take_or_drop n xs) [
  | inl none_left ↦ inl none_left
  | inr reached ↦ inr (ap suc reached)
]

pub filter_map-++ :
    {A B : Type 0} (f : A → Option B) (xs ys : List A)
    → filter_map f (xs ++ ys) ≡ filter_map f xs ++ filter_map f ys
filter_map-++ f [] ys = refl
filter_map-++ f (x ∷ xs) ys = elim (Option-cases (f x)) [
  | inl e ↦ rw (e, filter_map) (filter_map-++ f xs ys)
  | inr (y, e) ↦ rw (e, filter_map) (ap (λ zs. y ∷ zs) (filter_map-++ f xs ys))
]

abbrev pub is_some : {A : Type 0} → Option A → Bool
is_some none = false
is_some (some a) = true

-- Every element passes.
pub length-filter_map :
    {A B : Type 0} (f : A → Option B) (xs : List A)
    → All (λ x. is_some (f x) ≡ true) xs
    → length (filter_map f xs) ≡ length xs
length-filter_map f [] h = refl
length-filter_map f (x ∷ xs) (h, hs) = elim (Option-cases (f x)) [
  | inl e ↦ ground (arith, h, e)
  | inr (y, e) ↦ rw (e, filter_map) (ap suc (length-filter_map f xs hs))
]
