-- ===== src/CNightSource/CatchingUp.antt =====
-- Calls of `get_utxos_up_to_capacity` one after the other, each from the end of the one before, as
-- the inherents of successive blocks make them.
use Prim.Native.Nat.{Ordering}
use midnight_node.Prelude.{
  ◌≡◌, refl, sym, subst, ap, ap₂, ◌∙◌, inl, inr, Bool, true, false, Bool-cases, Option-cases, not,
  Option, List, [], ◌∷◌, ◌++◌, filter, All, ◌&&◌, arith,
}
use midnight_node.CNightObservation.Position.{CardanoPosition}
use midnight_node.CNightObservation.Types.{ObservedUtxo}
use midnight_node.CNightSource.Capacity.{before, position_of}
use midnight_node.CNightSource.Sorting.{sort, filter-sort}
use midnight_node.CNightSource.Counting.{IsOrdered, before_irrefl}
use midnight_node.CNightSource.Truncating.{before_end, before_end-none}
use midnight_node.CNightSource.Occurring.{InOrder}
use midnight_node.CNightSource.Hidden.{InOrder-left}
use midnight_node.CNightSource.Rows.{in_range}
use midnight_node.CNightSource.Decoding.{filter_map}
use midnight_node.CNightSource.Limits.{IsTable, ranged}

-- The UTXOs from a position on.
abbrev pub from_end : CardanoPosition → List ObservedUtxo → List ObservedUtxo
from_end e = filter (λ u. not (before (position_of u) e))

before_later :
    (p q e : CardanoPosition) → before p e ≡ false → before q p ≡ false → before q e ≡ false
unfolding before
before_later p q e h k = ground (arith, h, k)

from_end-all :
    (lo e : CardanoPosition) (us : List ObservedUtxo)
    → before lo e ≡ false
    → IsOrdered lo us
    → from_end e us ≡ us
unfolding IsOrdered
from_end-all lo e [] h o = refl
from_end-all lo e (u ∷ us) h (o, os) =
    let late = before_later lo (position_of u) e h o in
    rw (late, filter) (ap (λ xs. u ∷ xs) (from_end-all (position_of u) e us late os))

-- What comes before a position and what does not are the whole of UTXOs in order.
split-IsOrdered :
    (lo e : CardanoPosition) (us : List ObservedUtxo)
    → IsOrdered lo us
    → before_end e us ++ from_end e us ≡ us
unfolding IsOrdered
split-IsOrdered lo e [] o = refl
split-IsOrdered lo e (u ∷ us) (o, os) = elim (Bool-cases (before (position_of u) e)) [
  | inl early ↦ rw (early, filter) (ap (λ xs. u ∷ xs) (split-IsOrdered (position_of u) e us os))
  | inr late ↦
      rw (late, filter)
        (ap₂ (λ xs ys. xs ++ u ∷ ys) (before_end-none (position_of u) e us late os)
          (from_end-all (position_of u) e us late os))
]

pub split-InOrder :
    (e : CardanoPosition) (us : List ObservedUtxo)
    → InOrder us
    → before_end e us ++ from_end e us ≡ us
unfolding IsOrdered
split-InOrder e [] o = refl
split-InOrder e (u ∷ us) o =
    split-IsOrdered (position_of u) e (u ∷ us) (before_irrefl (position_of u), o)

pub from_end-none :
    (e : CardanoPosition) (us : List ObservedUtxo)
    → All (λ u. before (position_of u) e ≡ true) us
    → from_end e us ≡ []
from_end-none e [] h = refl
from_end-none e (u ∷ us) (h, hs) = rw (h, filter) (from_end-none e us hs)

pub before_end-InOrder :
    (e : CardanoPosition) (us : List ObservedUtxo) → InOrder us → InOrder (before_end e us)
before_end-InOrder e us o =
    InOrder-left (before_end e us) (from_end e us) (subst InOrder (sym (split-InOrder e us o)) o)

in_range-split :
    (start e end' p : CardanoPosition)
    → before e start ≡ false
    → in_range e end' p ≡ (not (before p e) && in_range start end' p)
unfolding before in_range
in_range-split start e end' p h = ground (arith, h)

filter-filter :
    {A : Type 0} (p q r : A → Bool) (xs : List A)
    → ((x : A) → p x ≡ (q x && r x))
    → filter p xs ≡ filter q (filter r xs)
filter-filter p q r [] h = refl
filter-filter p q r (x ∷ xs) h = elim (Bool-cases (r x)) [
  | inr out ↦
      let gone : p x ≡ false = ground (arith, h x, out) in
      rw (out, gone, filter) (filter-filter p q r xs h)
  | inl in' ↦ elim (Bool-cases (q x)) [
    | inl kept ↦
        let here : p x ≡ true = ground (arith, h x, in', kept) in
        rw (in', here, filter) (rw (kept, filter) (ap (λ ys. x ∷ ys) (filter-filter p q r xs h)))
    | inr late ↦
        let gone : p x ≡ false = ground (arith, h x, in', late) in
        rw (in', gone, filter) (rw (late, filter) (filter-filter p q r xs h))
  ]
]

module _ {Row : Type 0} {position : Row → CardanoPosition} {cmp : Row → Row → Ordering}
    {decode : Row → Option ObservedUtxo} (t : IsTable position cmp decode) where
  filter-filter_map :
      (f : CardanoPosition → Bool) (rows : List Row)
      → filter_map decode (filter (λ r. f (position r)) rows)
        ≡ filter (λ u. f (position_of u)) (filter_map decode rows)
  filter-filter_map f [] = refl
  filter-filter_map f (r ∷ rows) = elim (Option-cases (decode r)) [
    | inl e ↦ elim (Bool-cases (f (position r))) [
      | inl kept ↦ rw (kept, filter) (rw (e, filter_map) (filter-filter_map f rows))
      | inr gone ↦ rw (gone, filter) (rw (e, filter_map) (filter-filter_map f rows))
    ]
    | inr (u, e) ↦
        let place = ap f (t.placed r u e) in
        elim (Bool-cases (f (position r))) [
          | inl kept ↦
              rw (kept, filter)
                (rw (e, filter_map)
                  (rw (place ∙ kept, filter) (ap (λ xs. u ∷ xs) (filter-filter_map f rows))))
          | inr gone ↦
              rw (gone, filter)
                (rw (e, filter_map) (rw (place ∙ gone, filter) (filter-filter_map f rows)))
        ]
  ]

  -- The later a query starts, the less it shows.
  pub ranged-from_end :
      (start e end' : CardanoPosition) (rows : List Row)
      → before e start ≡ false
      → filter_map decode (ranged position cmp e end' rows)
        ≡ from_end e (filter_map decode (ranged position cmp start end' rows))
  ranged-from_end start e end' rows h =
      ap (filter_map decode) (
        ap (sort cmp) (
          filter-filter (λ r. in_range e end' (position r)) (λ r. not (before (position r) e))
            (λ r. in_range start end' (position r)) rows
            (λ r. in_range-split start e end' (position r) h))
        ∙ sym (
            filter-sort t.order (λ r. not (before (position r) e))
              (filter (λ r. in_range start end' (position r)) rows)))
      ∙ filter-filter_map (λ p. not (before p e)) (ranged position cmp start end' rows)
