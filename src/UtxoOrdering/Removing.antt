-- ===== src/UtxoOrdering/Removing.antt =====
-- What `take_key` takes out of a list of UTXOs, and what it leaves.
use mathlib.Core.List.{Perm, perm_append_comm}
use mathlib.Core.List.Perm
use midnight_node.Prelude.{
  ℕ, zero, suc, ◌+◌, ◌≡◌, ◌≢◌, refl, sym, subst, ap, ◌⊎◌, inl, inr, true, false, none, some, List,
  [], ◌∷◌, ◌++◌, ltb, if◌then◌else◌, length, get_elem?, set, arith, Bool-cases, ◌∙◌, length-append,
}
use midnight_node.Midnight.Types.{UtxoInfo}
use midnight_node.UtxoOrdering.{
  Key, key_of, key_eq, position, split_last, take_at, swap_remove, take_key,
}

-- How often a key stands among the UTXOs.
unfoldable pub count_key : Key → List UtxoInfo → ℕ
count_key k [] = 0
count_key k (u ∷ us) = if key_eq (key_of u) k then suc (count_key k us) else count_key k us

-- One of the UTXOs, and the others in some order.
pub record IsTaken (u : UtxoInfo) (rest us : List UtxoInfo) : Type 0 where
  pub perm : Perm (u ∷ rest) us
  pub counted : (k : Key) → count_key k (u ∷ rest) ≡ count_key k us
  pub fewer : length us ≡ length rest + 1

split_last-append :
    (u : UtxoInfo) (us : List UtxoInfo) → u ∷ us ≡ (split_last u us).0 ++ (split_last u us).1 ∷ []
unfolding split_last
split_last-append u [] = refl
split_last-append u (v ∷ us) = ap (λ xs. u ∷ xs) (split_last-append v us)

get_elem?-append :
    (xs : List UtxoInfo) (last x : UtxoInfo) (i : ℕ)
    → get_elem? (xs ++ last ∷ []) i ≡ some x
    → (ltb (length xs) i ≡ false)
      × ((get_elem? xs i ≡ some x) ⊎ ((get_elem? xs i ≡ none) × (last ≡ x)))
get_elem?-append [] last x zero h = (refl, inr (refl, cc))
get_elem?-append [] last x (suc i) h = cc
get_elem?-append (y ∷ xs) last x zero h = (ground arith, inl h)
get_elem?-append (y ∷ xs) last x (suc i) h =
    let (inside, found) = get_elem?-append xs last x i h in (ground arith, found)

set-Perm :
    (xs : List UtxoInfo) (i : ℕ) (x v : UtxoInfo)
    → get_elem? xs i ≡ some x
    → Perm (x ∷ set xs i v) (v ∷ xs)
set-Perm [] i x v h = cc
set-Perm (y ∷ xs) zero x v h = let e : y ≡ x = cc in rw e (Perm.swap v x xs)
set-Perm (y ∷ xs) (suc i) x v h =
    Perm.trans (Perm.swap y x (set xs i v))
      (Perm.trans (Perm.cons y (set-Perm xs i x v h)) (Perm.swap v y xs))

count_key-set :
    (k : Key) (xs : List UtxoInfo) (i : ℕ) (x v : UtxoInfo)
    → get_elem? xs i ≡ some x
    → count_key k (x ∷ set xs i v) ≡ count_key k (v ∷ xs)
unfolding count_key
count_key-set k [] i x v h = cc
count_key-set k (y ∷ xs) zero x v h = ground arith
count_key-set k (y ∷ xs) (suc i) x v h = ground (arith, count_key-set k xs i x v h)

position_lem :
    (k : Key) (us : List UtxoInfo)
    → count_key k us ≢ 0
    → (i : ℕ) × (u : UtxoInfo) × (position k us ≡ some i)
      × (get_elem? us i ≡ some u)
      × (key_eq (key_of u) k ≡ true)
unfolding position count_key
position_lem k [] h = absurd (h refl)
position_lem k (u ∷ us) h = elim (Bool-cases (key_eq (key_of u) k)) [
  | inl same ↦ (0, u, ground (arith, same), refl, same)
  | inr apart ↦
      let (i, v, found, at, same) = position_lem k us (ground (arith, h, apart)) in
      (suc i, v, ground (arith, apart, found), at, same)
]

position-absent : (k : Key) (us : List UtxoInfo) → count_key k us ≡ 0 → position k us ≡ none
unfolding position count_key
position-absent k [] h = refl
position-absent k (u ∷ us) h = ground (arith, position-absent k us)

length-set : (xs : List UtxoInfo) (i : ℕ) (v : UtxoInfo) → length (set xs i v) ≡ length xs
length-set [] i v = refl
length-set (x ∷ xs) zero v = refl
length-set (x ∷ xs) (suc i) v = ap suc (length-set xs i v)

count_key-append :
    (k : Key) (xs : List UtxoInfo) (last : UtxoInfo)
    → count_key k (xs ++ last ∷ []) ≡ count_key k (last ∷ xs)
unfolding count_key
count_key-append k [] last = refl
count_key-append k (x ∷ xs) last = ground (arith, count_key-append k xs last)

take_at-IsTaken :
    (front : List UtxoInfo) (last : UtxoInfo) (i : ℕ) (u : UtxoInfo)
    → get_elem? (front ++ last ∷ []) i ≡ some u
    → (rest : List UtxoInfo) × (take_at front last i (get_elem? front i) ≡ (u, rest))
      × IsTaken u rest (front ++ last ∷ [])
take_at-IsTaken front last i u h =
    let whole = Perm.symm (perm_append_comm front (last ∷ [])) in
    elim (get_elem?-append front last u i h).1 [
      | inl at ↦ (
        set front i last,
        rw at,
        record {
          perm = Perm.trans (set-Perm front i u last at) whole;
          counted = λ k. count_key-set k front i u last at ∙ sym (count_key-append k front last);
          fewer = omega (arith, length-append {0} front (last ∷ []), length-set front i last);
        },
      )
      | inr (none_at, e) ↦ (
        front,
        rw (none_at, e),
        record {
          perm = subst (λ x. Perm (x ∷ front) (front ++ last ∷ [])) e whole;
          counted = λ k. rw (← e) (sym (count_key-append k front last));
          fewer = omega (arith, length-append {0} front (last ∷ []));
        },
      )
    ]

swap_remove_lem :
    (i : ℕ) (us : List UtxoInfo) (u : UtxoInfo)
    → get_elem? us i ≡ some u
    → (rest : List UtxoInfo) × (swap_remove i us ≡ some (u, rest)) × IsTaken u rest us
unfolding swap_remove
swap_remove_lem i [] u h = cc
swap_remove_lem i (v ∷ us) u h =
    let front = (split_last v us).0 in
    let last = (split_last v us).1 in
    let e = split_last-append v us in
    let (inside, _) = get_elem?-append front last u i (rw (← e) h) in
    let (rest, taken, is_taken) = take_at-IsTaken front last i u (rw (← e) h) in
    (rest, rw (inside, taken), subst (IsTaken u rest) (sym e) is_taken)

-- A key that stands among the UTXOs is taken out with one UTXO.
pub take_key-IsTaken :
    (k : Key) (us : List UtxoInfo)
    → count_key k us ≢ 0
    → (u : UtxoInfo) × (rest : List UtxoInfo) × (take_key k us ≡ some (u, rest))
      × (key_of u ≡ k)
      × IsTaken u rest us
unfolding take_key
take_key-IsTaken k us h =
    let (i, u, found, at, same) = position_lem k us h in
    let (rest, removed, is_taken) = swap_remove_lem i us u at in
    (u, rest, rw (found, removed), ground (arith, same), is_taken)

-- A key that does not stand among them is not found.
pub take_key-absent : (k : Key) (us : List UtxoInfo) → count_key k us ≡ 0 → take_key k us ≡ none
unfolding take_key
take_key-absent k us h = rw (position-absent k us h)
