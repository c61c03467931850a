-- ===== src/CNightSource/Limits.antt =====
-- What a query with a range, an order and a limit shows of the rows of a table, decoded.
use Prim.Native.Nat.{Ordering}
use midnight_node.Prelude.{
  ℕ, zero, suc, ◌*◌, ◌≤◌, ◌≡◌, sym, subst, ap, ◌∙◌, ◌⊎◌, inl, inr, Bool, true, false, Bool-cases,
  Option-cases, Option, some, List, [], ◌∷◌, length, filter, All, arith,
}
use midnight_node.CNightObservation.Position.{CardanoPosition}
use midnight_node.CNightObservation.Order.{IsOrder}
use midnight_node.CNightObservation.Types.{ObservedUtxo}
use midnight_node.CNightSource.Sorting.{
  sort, is_gt, NotBelow, IsSorted, sort-IsSorted, All-sort, length-sort, filter-sort,
}
use midnight_node.CNightSource.Capacity.{before, position_of}
use midnight_node.CNightSource.Counting.{IsOrdered}
use midnight_node.CNightSource.Occurring.{InOrder, num_txs}
use midnight_node.CNightSource.Completeness.{IsShown, All-filter_kept}
use midnight_node.CNightSource.Hidden.{InOrder-left}
use midnight_node.CNightSource.Rows.{in_range, take, drop, select}
use midnight_node.CNightSource.Decoding.{filter_map}
use midnight_node.CNightSource.Tables.{
  same_tx, utxos_of, length-num_txs, length-filter-filter, length-filter-take, take-drop,
  take_or_drop, filter_map-++, length-filter_map, is_some,
}

-- What the order and the decoding of the rows have to do with their positions.
pub record IsTable {Row : Type 0} (position : Row → CardanoPosition) (cmp : Row → Row → Ordering)
    (decode : Row → Option ObservedUtxo) : Type 0 where
  pub order : IsOrder cmp
  pub by_position : (r s : Row) → is_gt (cmp r s) ≡ false → before (position s) (position r) ≡ false
  pub placed : (r : Row) (u : ObservedUtxo) → decode r ≡ some u → position_of u ≡ position r

in_range-before :
    (start end' p : CardanoPosition) → in_range start end' p ≡ true → before p end' ≡ true
unfolding in_range before
in_range-before start end' p h = ground (arith, h)

in_range-from :
    (start end' p : CardanoPosition) → in_range start end' p ≡ true → before p start ≡ false
unfolding in_range before
in_range-from start end' p h = ground (arith, h)

All-filter :
    {A : Type 0} (P : A → Type 0) (p : A → Bool) (xs : List A)
    → ((x : A) → p x ≡ true → P x)
    → All P (filter p xs)
All-filter P p [] f = tt
All-filter P p (x ∷ xs) f = elim (Bool-cases (p x)) [
  | inl kept ↦ rw (kept, filter) (f x kept, All-filter P p xs f)
  | inr gone ↦ rw (gone, filter) (All-filter P p xs f)
]

All-take : {A : Type 0} (P : A → Type 0) (n : ℕ) (xs : List A) → All P xs → All P (take n xs)
All-take P zero xs h = tt
All-take P (suc n) [] h = tt
All-take P (suc n) (x ∷ xs) (h, hs) = (h, All-take P n xs hs)

module _ {Row : Type 0} (position : Row → CardanoPosition) (cmp : Row → Row → Ordering) where
  -- The rows of a range, in order.
  abbrev pub ranged : CardanoPosition → CardanoPosition → List Row → List Row
  ranged start end' rows = sort cmp (filter (λ r. in_range start end' (position r)) rows)

module _ {Row : Type 0} {position : Row → CardanoPosition} {cmp : Row → Row → Ordering}
    {decode : Row → Option ObservedUtxo} (t : IsTable position cmp decode) where
  All-decoded :
      (P : CardanoPosition → Type 0) (rows : List Row)
      → All (λ r. P (position r)) rows
      → All (λ u. P (position_of u)) (filter_map decode rows)
  All-decoded P [] h = tt
  All-decoded P (r ∷ rows) (h, hs) = elim (Option-cases (decode r)) [
    | inl e ↦ rw (e, filter_map) (All-decoded P rows hs)
    | inr (u, e) ↦ rw (e, filter_map) (subst P (sym (t.placed r u e)) h, All-decoded P rows hs)
  ]

  NotBelow-before :
      (r : Row) (rows : List Row)
      → NotBelow cmp r rows
      → All (λ s. before (position s) (position r) ≡ false) rows
  NotBelow-before r [] h = tt
  NotBelow-before r (s ∷ rows) (h, hs) = (t.by_position r s h, NotBelow-before r rows hs)

  decoded-IsOrdered :
      (p : CardanoPosition) (rows : List Row)
      → All (λ s. before (position s) p ≡ false) rows
      → IsSorted cmp rows
      → IsOrdered p (filter_map decode rows)
  unfolding IsOrdered
  decoded-IsOrdered p [] h s = tt
  decoded-IsOrdered p (r ∷ rows) (h, hs) (low, s) = elim (Option-cases (decode r)) [
    | inl e ↦ rw (e, filter_map) (decoded-IsOrdered p rows hs s)
    | inr (u, e) ↦
        rw (e, filter_map)
          (rw (t.placed r u e)
            (h, decoded-IsOrdered (position r) rows (NotBelow-before r rows low) s))
  ]

  decoded-InOrder : (rows : List Row) → IsSorted cmp rows → InOrder (filter_map decode rows)
  decoded-InOrder [] s = tt
  decoded-InOrder (r ∷ rows) (low, s) = elim (Option-cases (decode r)) [
    | inl e ↦ rw (e, filter_map) (decoded-InOrder rows s)
    | inr (u, e) ↦
        rw (e, filter_map)
          (rw (t.placed r u e) (decoded-IsOrdered (position r) rows (NotBelow-before r rows low) s))
  ]

  utxos_of-decoded :
      (p : CardanoPosition) (rows : List Row)
      → utxos_of p (filter_map decode rows) ≤ length (filter (λ r. same_tx p (position r)) rows)
  utxos_of-decoded p [] = omega arith
  utxos_of-decoded p (r ∷ rows) = elim (Bool-cases (same_tx p (position r))) [
    | inl same ↦ elim (Option-cases (decode r)) [
      | inl e ↦ rw (e, filter_map) (rw (same, filter) (omega (arith, utxos_of-decoded p rows)))
      | inr (u, e) ↦
          let place = ap (same_tx p) (t.placed r u e) ∙ same in
          rw (e, filter_map)
            (rw (same, filter) (rw (place, filter) (omega (arith, utxos_of-decoded p rows))))
    ]
    | inr other ↦ elim (Option-cases (decode r)) [
      | inl e ↦ rw (e, filter_map) (rw (other, filter) (utxos_of-decoded p rows))
      | inr (u, e) ↦
          let place = ap (same_tx p) (t.placed r u e) ∙ other in
          rw (e, filter_map) (rw (other, filter) (rw (place, filter) (utxos_of-decoded p rows)))
    ]
  ]

  utxos_of-shown :
      (p start end' : CardanoPosition) (limit : ℕ) (rows : List Row)
      → utxos_of p (filter_map decode (take limit (ranged position cmp start end' rows)))
        ≤ length (filter (λ r. same_tx p (position r)) rows)
  utxos_of-shown p start end' limit rows =
      let f : Row → Bool = λ r. same_tx p (position r) in
      let g : Row → Bool = λ r. in_range start end' (position r) in
      let sorted =
        ap length (filter-sort t.order f (filter g rows))
        ∙ length-sort cmp (filter f (filter g rows)) in
      omega (
        arith,
        utxos_of-decoded p (take limit (ranged position cmp start end' rows)),
        length-filter-take f limit (ranged position cmp start end' rows),
        sorted,
        length-filter-filter f g rows,
      )

  -- The limit has hidden nothing, or there are as many transactions as the capacity.
  limit-enough :
      (start end' : CardanoPosition) (tx_capacity : ℕ) (rows : List Row)
      → All (λ r. is_some (decode r) ≡ true) rows
      → ((p : CardanoPosition) → length (filter (λ r. same_tx p (position r)) rows) ≤ 64)
      → InOrder (filter_map decode (take (tx_capacity * 64) (ranged position cmp start end' rows)))
      → (filter_map decode (drop (tx_capacity * 64) (ranged position cmp start end' rows)) ≡ [])
        ⊎ (tx_capacity
            ≤ num_txs
                (filter_map decode (take (tx_capacity * 64) (ranged position cmp start end' rows))))
  limit-enough start end' tx_capacity rows decodes few o =
      let D : Row → Type 0 = λ r. is_some (decode r) ≡ true in
      let all = ranged position cmp start end' rows in
      let g : Row → Bool = λ r. in_range start end' (position r) in
      let shown = take (tx_capacity * 64) all in
      elim (take_or_drop (tx_capacity * 64) all) [
        | inl none_left ↦ inl (ap (filter_map decode) none_left)
        | inr reached ↦ inr (
            omega (
              arith,
              reached,
              length-filter_map decode shown (
                  All-take D (tx_capacity * 64) all
                    (All-sort cmp D (filter g rows) (All-filter_kept D g rows decodes))),
              length-num_txs (filter_map decode shown) o
                  (λ p. omega (arith, utxos_of-shown p start end' (tx_capacity * 64) rows, few p)),
            ))
      ]

  -- A limit of 64 rows for each transaction of the capacity.
  pub select-IsShown :
      (start end' : CardanoPosition) (tx_capacity : ℕ) (rows : List Row)
      → All (λ r. is_some (decode r) ≡ true) rows
      → ((p : CardanoPosition) → length (filter (λ r. same_tx p (position r)) rows) ≤ 64)
      → IsShown start end' tx_capacity
          (filter_map decode (select position cmp start end' (tx_capacity * 64) 0 rows))
          (filter_map decode (ranged position cmp start end' rows))
  unfolding select
  select-IsShown start end' tx_capacity rows decodes few =
      let g : Row → Bool = λ r. in_range start end' (position r) in
      let all = ranged position cmp start end' rows in
      let shown = take (tx_capacity * 64) all in
      let hidden = drop (tx_capacity * 64) all in
      let whole =
        ap (filter_map decode) (sym (take-drop (tx_capacity * 64) all))
        ∙ filter_map-++ decode shown hidden in
      let in_order = decoded-InOrder all (sort-IsSorted t.order (filter g rows)) in
      let inside =
        All-decoded (λ p. before p end' ≡ true) all
          (All-sort cmp (λ r. before (position r) end' ≡ true) (filter g rows)
            (All-filter (λ r. before (position r) end' ≡ true) g rows
              (λ r. in_range-before start end' (position r)))) in
      let from_start =
        All-decoded (λ p. before p start ≡ false) all
          (All-sort cmp (λ r. before (position r) start ≡ false) (filter g rows)
            (All-filter (λ r. before (position r) start ≡ false) g rows
              (λ r. in_range-from start end' (position r)))) in
      record {
        hidden = filter_map decode hidden;
        parts = whole;
        ordered = subst InOrder whole in_order;
        inside = subst (All (λ u. before (position_of u) end' ≡ true)) whole inside;
        from_start = subst (All (λ u. before (position_of u) start ≡ false)) whole from_start;
        enough = limit-enough start end' tx_capacity rows decodes few (
            InOrder-left (filter_map decode shown) (filter_map decode hidden)
              (subst InOrder whole in_order));
      }
