-- ===== src/CNightSource/Covering.antt =====
-- What `get_utxos_up_to_capacity` returns when its queries show only a part of their UTXOs.
use midnight_node.Prelude.{
  ℕ, ◌≤◌, ◌<◌, ◌≡◌, sym, subst, ap, ap₂, ◌∙◌, Bool, true, false, List, [], ◌∷◌, ◌++◌, filter, All,
  arith,
}
use midnight_node.CNightObservation.Position.{CardanoPosition}
use midnight_node.CNightObservation.Types.{ObservedUtxo}
use midnight_node.CNightSource.Sorting.{All-sort, sort, sort-IsSorted, filter-sort}
use midnight_node.CNightSource.Capacity.{before, position_of, up_to_capacity}
use midnight_node.CNightSource.Truncating.{before_end}
use midnight_node.CNightSource.Merging.{utxo_compare, utxo_compare-IsOrder, merge}
use midnight_node.CNightSource.Occurring.{
  InOrder, num_txs, AllOccur, All-map, AllOccur-refl, occurs-++_left, occurs-++_right,
  AllOccur-sort, num_txs-le, IsSorted-InOrder,
}
use midnight_node.CNightSource.Hidden.{filter-++, ++-[], InOrder-left, hidden-later}
use midnight_node.CNightSource.Completeness.{IsShown, IsPrefix, up_to_capacity-IsPrefix}

All-left : (P : ObservedUtxo → Type 0) (us vs : List ObservedUtxo) → All P (us ++ vs) → All P us
All-left P [] vs h = tt
All-left P (u ∷ us) vs (h, hs) = (h, All-left P us vs hs)

All-both :
    (P : ObservedUtxo → Type 0) (us vs : List ObservedUtxo) → All P us → All P vs → All P (us ++ vs)
All-both P [] vs h k = k
All-both P (u ∷ us) vs (h, hs) k = (h, All-both P us vs hs k)

pub All-merge :
    (P : ObservedUtxo → Type 0) (a b c d : List ObservedUtxo)
    → All P a
    → All P b
    → All P c
    → All P d
    → All P (a ++ b ++ c ++ d)
All-merge P a b c d h k l m =
    All-both P (a ++ b ++ c) d (All-both P (a ++ b) c (All-both P a b h k) l) m

pub sort-InOrder : (us : List ObservedUtxo) → InOrder (sort utxo_compare us)
sort-InOrder us = IsSorted-InOrder (sort utxo_compare us) (sort-IsSorted utxo_compare-IsOrder us)

before_end-sort :
    (e : CardanoPosition) (us : List ObservedUtxo)
    → before_end e (sort utxo_compare us) ≡ sort utxo_compare (before_end e us)
before_end-sort e us = filter-sort utxo_compare-IsOrder (λ u. before (position_of u) e) us

-- A list whose transactions are among the ones before the end has no more of them.
num_txs-shown :
    (e : CardanoPosition) (us all : List ObservedUtxo)
    → InOrder us
    → AllOccur us all
    → All (λ u. before (position_of u) e ≡ true) us
    → num_txs us ≤ num_txs (before_end e (sort utxo_compare all))
num_txs-shown e us all o occur early =
    num_txs-le us (before_end e (sort utxo_compare all)) o
      (subst InOrder (sym (before_end-sort e all)) (sort-InOrder (before_end e all)))
      (AllOccur-sort e us all early occur)

module _ {start end' : CardanoPosition} {tx_capacity : ℕ} where
  -- Before the end, a query has shown all it could.
  shown_before :
      (e : CardanoPosition) (shown all merged : List ObservedUtxo)
      → IsShown start end' tx_capacity shown all
      → num_txs (before_end e (sort utxo_compare merged)) < tx_capacity
      → AllOccur shown merged
      → before_end e shown ≡ before_end e all
  shown_before e shown all merged s below occur =
      let few : All (λ u. before (position_of u) e ≡ true) shown → num_txs shown < tx_capacity =
        λ early. omega (
          arith,
          below,
          num_txs-shown e shown merged (InOrder-left shown s.hidden s.ordered) occur early,
        ) in
      let none_hidden = hidden-later e tx_capacity shown s.hidden s.ordered s.enough few in
      sym (
        ap (before_end e) s.parts
        ∙ filter-++ (λ u. before (position_of u) e) shown s.hidden
        ∙ ap (λ xs. before_end e shown ++ xs) none_hidden
        ∙ ++-[] (before_end e shown))

pub filter-merge :
    (f : ObservedUtxo → Bool) (a b c d : List ObservedUtxo)
    → filter f (merge a b c d) ≡ merge (filter f a) (filter f b) (filter f c) (filter f d)
filter-merge f a b c d =
    filter-sort utxo_compare-IsOrder f (a ++ b ++ c ++ d)
    ∙ ap (sort utxo_compare) (
        filter-++ f (a ++ b ++ c) d
        ∙ ap (λ xs. xs ++ filter f d)
            (filter-++ f (a ++ b) c ∙ ap (λ xs. xs ++ filter f c) (filter-++ f a b)))

occur_last : (us vs : List ObservedUtxo) → AllOccur vs (us ++ vs)
occur_last us vs = All-map vs (λ v. occurs-++_right (position_of v) us vs) (AllOccur-refl vs)

occur_left : (us vs ws : List ObservedUtxo) → AllOccur us vs → AllOccur us (vs ++ ws)
occur_left us vs ws = All-map us (λ u. occurs-++_left (position_of u) vs ws)

pub ap₄ :
    {A B : Type 0} (f : A → A → A → A → B) {a a' b b' c c' d d' : A}
    → a ≡ a'
    → b ≡ b'
    → c ≡ c'
    → d ≡ d'
    → f a b c d ≡ f a' b' c' d'
ap₄ f {a} {a'} {b} {b'} {c} {c'} {d} {d'} p q r s =
    ap₂ (λ x y. f x y c d) p q ∙ ap₂ (λ x y. f a' b' x y) r s

-- What the four queries show, and all that they could have shown.
pub record AllShown (start end' : CardanoPosition) (tx_capacity : ℕ)
    (ts us vs ws ts' us' vs' ws' : List ObservedUtxo) : Type 0 where
  pub registrations : IsShown start end' tx_capacity ts ts'
  pub deregistrations : IsShown start end' tx_capacity us us'
  pub creates : IsShown start end' tx_capacity vs vs'
  pub spends : IsShown start end' tx_capacity ws ws'

module _ {start end' : CardanoPosition} {tx_capacity : ℕ}
    {ts us vs ws ts' us' vs' ws' : List ObservedUtxo} where
  all_shown :
      (P : ObservedUtxo → Type 0)
      → ((shown all : List ObservedUtxo) (s : IsShown start end' tx_capacity shown all)
          → All P (shown ++ s.hidden))
      → AllShown start end' tx_capacity ts us vs ws ts' us' vs' ws'
      → All P (merge ts us vs ws)
  all_shown P f a = All-sort utxo_compare P (ts ++ us ++ vs ++ ws) (
      All-merge P ts us vs ws (All-left P ts a.registrations.hidden (f ts ts' a.registrations))
        (All-left P us a.deregistrations.hidden (f us us' a.deregistrations))
        (All-left P vs a.creates.hidden (f vs vs' a.creates))
        (All-left P ws a.spends.hidden (f ws ws' a.spends)))

  pub merged-IsPrefix :
      2 ≤ tx_capacity
      → AllShown start end' tx_capacity ts us vs ws ts' us' vs' ws'
      → IsPrefix start end' tx_capacity
          (merge ts us vs ws)
          (up_to_capacity start end' tx_capacity (merge ts us vs ws))
  merged-IsPrefix large a =
      up_to_capacity-IsPrefix start end' tx_capacity (merge ts us vs ws) large
        (sort-InOrder (ts ++ us ++ vs ++ ws))
        (all_shown (λ u. before (position_of u) end' ≡ true) (λ shown all s. s.inside) a)
        (all_shown (λ u. before (position_of u) start ≡ false) (λ shown all s. s.from_start) a)

  merged_before :
      (e : CardanoPosition)
      → num_txs (before_end e (merge ts us vs ws)) < tx_capacity
      → AllShown start end' tx_capacity ts us vs ws ts' us' vs' ws'
      → before_end e (merge ts us vs ws) ≡ before_end e (merge ts' us' vs' ws')
  merged_before e below a =
      filter-merge (λ u. before (position_of u) e) ts us vs ws
      ∙ ap₄ merge
          (shown_before e ts ts' (ts ++ us ++ vs ++ ws) a.registrations below (
            occur_left ts (ts ++ us ++ vs) ws
              (occur_left ts (ts ++ us) vs (occur_left ts ts us (AllOccur-refl ts)))))
          (shown_before e us us' (ts ++ us ++ vs ++ ws) a.deregistrations below
            (occur_left us (ts ++ us ++ vs) ws (occur_left us (ts ++ us) vs (occur_last ts us))))
          (shown_before e vs vs' (ts ++ us ++ vs ++ ws) a.creates below
            (occur_left vs (ts ++ us ++ vs) ws (occur_last (ts ++ us) vs)))
          (shown_before e ws ws' (ts ++ us ++ vs ++ ws) a.spends below
            (occur_last (ts ++ us ++ vs) ws))
      ∙ sym (filter-merge (λ u. before (position_of u) e) ts' us' vs' ws')

  pub merged_complete :
      2 ≤ tx_capacity
      → AllShown start end' tx_capacity ts us vs ws ts' us' vs' ws'
      → let r = up_to_capacity start end' tx_capacity (merge ts us vs ws) in
        r.utxos ≡ before_end r.end' (merge ts' us' vs' ws')
  merged_complete large a =
      let w = merged-IsPrefix large a in
      let r = up_to_capacity start end' tx_capacity (merge ts us vs ws) in
      w.kept ∙ merged_before r.end' (subst (λ xs. num_txs xs < tx_capacity) w.kept w.below) a
