-- ===== src/CNightSource/Truncating.antt =====
-- What the loop of `get_utxos_up_to_capacity` keeps of UTXOs that are in order.
use midnight_node.Prelude.{
  ℕ, suc, ◌+◌, ◌<◌, ◌≡◌, refl, sym, subst, ap, ◌∙◌, ◌⊎◌, true, false, inl, inr, Bool-cases, some,
  List, [], ◌∷◌, filter, ◌==◌, if◌then◌else◌, arith,
}
use midnight_node.CNightObservation.Position.{CardanoPosition, increment}
use midnight_node.CNightObservation.Types.{ObservedUtxo}
use midnight_node.CNightSource.Capacity.{before, position_of, truncate, last_position}
use midnight_node.CNightSource.Counting.{IsOrdered, count_txs, before_irrefl}

-- The UTXOs before a position.
abbrev pub before_end : CardanoPosition → List ObservedUtxo → List ObservedUtxo
before_end e = filter (λ u. before (position_of u) e)

increment-past : (p q : CardanoPosition) → before q p ≡ true → before p (increment q) ≡ false
unfolding before increment
increment-past p q h = ground arith

pub increment-upto : (p q : CardanoPosition) → before q p ≡ false → before p (increment q) ≡ true
unfolding before increment
increment-upto p q h = ground arith

before-ordered :
    (p q e : CardanoPosition) → before p e ≡ false → before q p ≡ false → before q e ≡ false
unfolding before
before-ordered p q e h k = ground arith

pub before_end-none :
    (lo e : CardanoPosition) (us : List ObservedUtxo)
    → before lo e ≡ false
    → IsOrdered lo us
    → before_end e us ≡ []
unfolding IsOrdered
before_end-none lo e [] h o = refl
before_end-none lo e (u ∷ us) h (o, os) =
    let out = before-ordered lo (position_of u) e h o in
    rw (out, filter) (before_end-none (position_of u) e us out os)

-- Nothing was left out.
pub record IsWhole (tx_capacity num_txs : ℕ) (p : CardanoPosition) (us ts : List ObservedUtxo)
    (m : ℕ) : Type 0 where
  pub kept : ts ≡ us
  pub counted : m ≡ num_txs + count_txs p us
  pub below : m < tx_capacity

-- The loop was left: what was kept is what comes before the next position.
pub record IsCut (tx_capacity num_txs : ℕ) (p : CardanoPosition) (us ts : List ObservedUtxo) (m : ℕ)
    : Type 0 where
  pub kept : before_end (increment (last_position p ts)) us ≡ ts
  pub counted : suc (num_txs + count_txs p ts) ≡ tx_capacity
  pub full : m ≡ tx_capacity
  pub onward : before (last_position p ts) p ≡ false

same_first :
    (c p q : CardanoPosition) → before c p ≡ false → before p c ≡ false → before c q ≡ before p q
unfolding before
same_first c p q h k = ground arith

before_same' :
    (c p q : CardanoPosition) → before c p ≡ false → before p q ≡ false → before c q ≡ false
unfolding before
before_same' c p q h k = ground arith

count_full :
    (most n : ℕ) (p : CardanoPosition) → (n + 1 == most) ≡ true → suc (n + count_txs p []) ≡ most
unfolding count_txs
count_full most n p full = ground (arith, full)

truncate_full :
    (most n : ℕ) (c : CardanoPosition) (u : ObservedUtxo) (us : List ObservedUtxo)
    → before c (position_of u) ≡ true
    → (n + 1 == most) ≡ true
    → truncate most n (some c) (u ∷ us) ≡ ([], n + 1)
unfolding truncate
truncate_full most n c u us new full = rw (new, full) refl

truncate_next :
    (most n : ℕ) (c : CardanoPosition) (u : ObservedUtxo) (us : List ObservedUtxo)
    → before c (position_of u) ≡ true
    → (n + 1 == most) ≡ false
    → let rest = truncate most (n + 1) (some (position_of u)) us in
      truncate most n (some c) (u ∷ us) ≡ (u ∷ rest.0, rest.1)
unfolding truncate
truncate_next most n c u us new room = rw (new, room) refl

truncate_same :
    (most n : ℕ) (c : CardanoPosition) (u : ObservedUtxo) (us : List ObservedUtxo)
    → before c (position_of u) ≡ false
    → (n == most) ≡ false
    → let rest = truncate most n (some c) us in
      truncate most n (some c) (u ∷ us) ≡ (u ∷ rest.0, rest.1)
unfolding truncate
truncate_same most n c u us old room = rw (old, room) refl

abbrev pub Outcome : ℕ → ℕ → CardanoPosition → List ObservedUtxo → List ObservedUtxo × ℕ → Type 0
Outcome most n p us (ts, m) = IsWhole most n p us ts m ⊎ IsCut most n p us ts m

-- One more UTXO in front, of a transaction that is counted or of one that was.
Outcome-cons :
    (most n n' : ℕ) (p : CardanoPosition) (u : ObservedUtxo) (us : List ObservedUtxo)
    (r : List ObservedUtxo × ℕ)
    → before (position_of u) p ≡ false
    → n' ≡ (if before p (position_of u) then n + 1 else n)
    → Outcome most n' (position_of u) us r
    → Outcome most n p (u ∷ us) (u ∷ r.0, r.1)
unfolding count_txs
Outcome-cons most n n' p u us r o step (inl w) = inl (record {
  kept = ap (λ xs. u ∷ xs) w.kept;
  counted = ground (arith, w.counted, step);
  below = w.below;
})
Outcome-cons most n n' p u us r o step (inr w) =
    let here = increment-upto (position_of u) (last_position (position_of u) r.0) w.onward in
    inr (record {
      kept = rw (here, filter) (ap (λ xs. u ∷ xs) w.kept);
      counted = ground (arith, w.counted, step);
      full = w.full;
      onward = before-ordered (position_of u) (last_position (position_of u) r.0) p o w.onward;
    })

truncate_lem_nil :
    (most n : ℕ) (p c : CardanoPosition)
    → n < most
    → Outcome most n p [] (truncate most n (some c) [])
unfolding truncate count_txs
truncate_lem_nil most n p c small =
    inl (record { kept = refl; counted = omega arith; below = small })

pub truncate_lem :
    (most n : ℕ) (p c : CardanoPosition) (us : List ObservedUtxo)
    → n < most
    → before c p ≡ false
    → before p c ≡ false
    → IsOrdered p us
    → Outcome most n p us (truncate most n (some c) us)
unfolding IsOrdered
truncate_lem most n p c [] small h k o = truncate_lem_nil most n p c small
truncate_lem most n p c (u ∷ us) small h k (o, os) =
    let seen = same_first c p (position_of u) h k in
    elim (Bool-cases (before p (position_of u))) [
      | inl new ↦ elim (Bool-cases (n + 1 == most)) [
        | inl full ↦
            subst (Outcome most n p (u ∷ us)) (sym (truncate_full most n c u us (seen ∙ new) full))
              (inr (record {
                kept =
                    before_end-none (position_of u) (increment p) (u ∷ us)
                      (increment-past (position_of u) p new) (before_irrefl (position_of u), os);
                counted = count_full most n p full;
                full = ground (arith, full);
                onward = before_irrefl p;
              }))
        | inr room ↦
            subst (Outcome most n p (u ∷ us)) (sym (truncate_next most n c u us (seen ∙ new) room))
              (Outcome-cons most n (n + 1) p u us (truncate most (n + 1) (some (position_of u)) us)
                o (rw new refl)
                (truncate_lem most (n + 1) (position_of u) (position_of u) us
                  (ground (arith, room, small)) (before_irrefl (position_of u))
                  (before_irrefl (position_of u)) os))
      ]
      | inr old ↦
          let room : (n == most) ≡ false = ground (arith, small) in
          subst (Outcome most n p (u ∷ us)) (sym (truncate_same most n c u us (seen ∙ old) room)) (
            Outcome-cons most n n p u us (truncate most n (some c) us) o (rw old refl) (
              truncate_lem most n (position_of u) c us small
                (before_same' c p (position_of u) h old) (before_same' (position_of u) p c o k) os))
    ]
