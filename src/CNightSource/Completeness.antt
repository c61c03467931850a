-- ===== src/CNightSource/Completeness.antt =====
-- What `get_utxos_up_to_capacity` returns of all the UTXOs that its queries could have shown.
use midnight_node.Prelude.{
  ℕ, suc, ◌+◌, ◌≤◌, ◌<◌, ◌≡◌, refl, sym, subst, ap, ◌∙◌, ◌⊎◌, Bool, true, false, inl, inr,
  Bool-cases, none, some, List, [], ◌∷◌, ◌++◌, filter, All, ltb, ◌==◌, arith,
}
use midnight_node.CNightObservation.Position.{CardanoPosition, increment}
use midnight_node.CNightObservation.Types.{ObservedUtxo}
use midnight_node.CNightSource.Capacity.{
  before, position_of, truncate, last_position, ObservedUtxos, up_to_capacity, range_of,
}
use midnight_node.CNightSource.Counting.{count_txs, before_irrefl}
use midnight_node.CNightSource.Truncating.{before_end, truncate_lem, Outcome, increment-upto}
use midnight_node.CNightSource.Occurring.{InOrder, num_txs}

-- What a query with a limit shows of the UTXOs of its range, in the order of their positions: all
-- of them, or as many transactions as the capacity.
pub record IsShown (start end' : CardanoPosition) (tx_capacity : ℕ) (shown all : List ObservedUtxo)
    : Type 0 where
  pub hidden : List ObservedUtxo
  pub parts : all ≡ shown ++ hidden
  pub ordered : InOrder (shown ++ hidden)
  pub inside : All (λ u. before (position_of u) end' ≡ true) (shown ++ hidden)
  pub from_start : All (λ u. before (position_of u) start ≡ false) (shown ++ hidden)
  pub enough : (hidden ≡ []) ⊎ (tx_capacity ≤ num_txs shown)

-- What is returned of the sorted UTXOs.
pub record IsPrefix (start end' : CardanoPosition) (tx_capacity : ℕ) (us : List ObservedUtxo)
    (r : ObservedUtxos) : Type 0 where
  pub kept : r.utxos ≡ before_end r.end' us
  pub below : num_txs r.utxos < tx_capacity
  pub advance :
      (r.end' ≡ end') ⊎ ((suc (num_txs r.utxos) ≡ tx_capacity) × (before start r.end' ≡ true))
  pub upto : before end' r.end' ≡ false

pub All-filter_kept :
    {A : Type 0} (P : A → Type 0) (p : A → Bool) (xs : List A) → All P xs → All P (filter p xs)
All-filter_kept P p [] h = tt
All-filter_kept P p (x ∷ xs) (h, hs) = elim (Bool-cases (p x)) [
  | inl kept ↦ rw (kept, filter) (h, All-filter_kept P p xs hs)
  | inr gone ↦ rw (gone, filter) (All-filter_kept P p xs hs)
]

before_end-All :
    (e : CardanoPosition) (us : List ObservedUtxo)
    → All (λ u. before (position_of u) e ≡ true) us
    → before_end e us ≡ us
before_end-All e [] h = refl
before_end-All e (u ∷ us) (h, hs) = rw (h, filter) (ap (λ xs. u ∷ xs) (before_end-All e us hs))

truncate_first :
    (tx_capacity : ℕ) (u : ObservedUtxo) (us : List ObservedUtxo)
    → 2 ≤ tx_capacity
    → let rest = truncate tx_capacity 1 (some (position_of u)) us in
      truncate tx_capacity 0 none (u ∷ us) ≡ (u ∷ rest.0, rest.1)
unfolding truncate
truncate_first tx_capacity u us large =
    let room : (0 + 1 == tx_capacity) ≡ false = ground (arith, large) in rw room refl

range_of_whole :
    (start end' : CardanoPosition) (tx_capacity m : ℕ) (ts : List ObservedUtxo)
    → m < tx_capacity
    → range_of start end' tx_capacity (ts, m) ≡ record { start = start; end' = end'; utxos = ts }
unfolding range_of
range_of_whole start end' tx_capacity m ts small =
    let test : ltb m tx_capacity ≡ true = ground (arith, small) in rw test refl

range_of_cut :
    (start end' : CardanoPosition) (tx_capacity m : ℕ) (ts : List ObservedUtxo)
    → m ≡ tx_capacity
    → range_of start end' tx_capacity (ts, m)
      ≡ record { start = start; end' = increment (last_position start ts); utxos = ts }
unfolding range_of
range_of_cut start end' tx_capacity m ts full =
    let test : ltb m tx_capacity ≡ false = ground (arith, full) in rw test refl

before_later :
    (p q r : CardanoPosition)
    → before q p ≡ false
    → before r q ≡ false
    → before p (increment r) ≡ true
unfolding before increment
before_later p q r h k = ground (arith, h, k)

increment_inside : (p q : CardanoPosition) → before p q ≡ true → before q (increment p) ≡ false
unfolding before increment
increment_inside p q h = ground (arith, h)

last_inside :
    (e p : CardanoPosition) (ts : List ObservedUtxo)
    → before p e ≡ true
    → All (λ u. before (position_of u) e ≡ true) ts
    → before (last_position p ts) e ≡ true
last_inside e p [] h k = h
last_inside e p (t ∷ ts) h (k, ks) = last_inside e (position_of t) ts k ks

-- The result is what comes before its end; it holds fewer transactions than the capacity, and
-- either it ends with the range or it is as full as it can be and ends after the start.
IsPrefix-outcome :
    (start end' : CardanoPosition) (tx_capacity : ℕ) (u : ObservedUtxo) (us : List ObservedUtxo)
    (r : List ObservedUtxo × ℕ)
    → before (position_of u) start ≡ false
    → All (λ v. before (position_of v) end' ≡ true) (u ∷ us)
    → Outcome tx_capacity 1 (position_of u) us r
    → IsPrefix start end' tx_capacity (u ∷ us) (range_of start end' tx_capacity (u ∷ r.0, r.1))
IsPrefix-outcome start end' tx_capacity u us (ts, m) from inside (inl w) =
    subst (IsPrefix start end' tx_capacity (u ∷ us))
      (sym (range_of_whole start end' tx_capacity m (u ∷ ts) w.below))
      (record {
        kept = ap (λ xs. u ∷ xs) w.kept ∙ sym (before_end-All end' (u ∷ us) inside);
        below =
            let same = ap (count_txs (position_of u)) w.kept in
            omega (arith, same, w.counted, w.below);
        advance = inl refl;
        upto = before_irrefl end';
      })
IsPrefix-outcome start end' tx_capacity u us (ts, m) from inside (inr w) =
    let here = increment-upto (position_of u) (last_position (position_of u) ts) w.onward in
    subst (IsPrefix start end' tx_capacity (u ∷ us))
      (sym (range_of_cut start end' tx_capacity m (u ∷ ts) w.full))
      (record {
        kept = rw (here, filter) (ap (λ xs. u ∷ xs) (sym w.kept));
        below = omega (arith, w.counted);
        advance = inr (
          omega (arith, w.counted),
          before_later start (position_of u) (last_position (position_of u) ts) from w.onward,
        );
        upto = increment_inside (last_position (position_of u) ts) end' (
            last_inside end' (position_of u) ts inside.0 (
              subst (All (λ v. before (position_of v) end' ≡ true)) w.kept (
                All-filter_kept (λ v. before (position_of v) end' ≡ true)
                  (λ v. before (position_of v) (increment (last_position (position_of u) ts))) us
                  inside.1)));
      })

pub up_to_capacity-IsPrefix :
    (start end' : CardanoPosition) (tx_capacity : ℕ) (us : List ObservedUtxo)
    → 2 ≤ tx_capacity
    → InOrder us
    → All (λ u. before (position_of u) end' ≡ true) us
    → All (λ u. before (position_of u) start ≡ false) us
    → IsPrefix start end' tx_capacity us (up_to_capacity start end' tx_capacity us)
unfolding up_to_capacity truncate
up_to_capacity-IsPrefix start end' tx_capacity [] large o inside from =
    subst (IsPrefix start end' tx_capacity [])
      (sym (range_of_whole start end' tx_capacity 0 [] (omega (arith, large))))
      (record {
        kept = refl;
        below = omega (arith, large);
        advance = inl refl;
        upto = before_irrefl end';
      })
up_to_capacity-IsPrefix start end' tx_capacity (u ∷ us) large o inside (from, froms) =
    subst (λ r. IsPrefix start end' tx_capacity (u ∷ us) (range_of start end' tx_capacity r))
      (sym (truncate_first tx_capacity u us large))
      (IsPrefix-outcome start end' tx_capacity u us
        (truncate tx_capacity 1 (some (position_of u)) us) from inside
        (truncate_lem tx_capacity 1 (position_of u) (position_of u) us (omega (arith, large))
          (before_irrefl (position_of u)) (before_irrefl (position_of u)) o))
