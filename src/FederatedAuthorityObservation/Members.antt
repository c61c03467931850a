-- ===== src/FederatedAuthorityObservation/Members.antt =====
-- Lists of members: the stable sort by account id, `unzip`, equality and duplicates.
use mathlib.Core.List.{Perm}
use mathlib.Core.List.Perm
use midnight_node.Prelude.{
  ℕ, ◌+◌, ◌≤◌, ◌≡◌, inl, inr, refl, Bool, true, false, not, ◌&&◌, List, [], ◌∷◌, map, arith, leb,
  ltb, ◌==◌, if◌then◌else◌, length, All, Bool-cases,
}

-- An account id with the mainchain member id that belongs to it.
abbrev pub Pairs : Type 0
Pairs = List (ℕ × ℕ)

-- `sort_by(|a, b| a.0.cmp(&b.0))`: pairs with one account id keep their order.
insert_pair : ℕ × ℕ → Pairs → Pairs
insert_pair (a, m) [] = (a, m) ∷ []
insert_pair (a, m) ((b, n) ∷ ps) =
    if leb a b then (a, m) ∷ (b, n) ∷ ps else (b, n) ∷ insert_pair (a, m) ps

unfoldable pub sort_pairs : Pairs → Pairs
unfolding insert_pair
sort_pairs [] = []
sort_pairs (p ∷ ps) = insert_pair p (sort_pairs ps)

-- The two halves of `unzip`.
abbrev pub accounts : Pairs → List ℕ
accounts = map (λ p. p.0)

abbrev pub mainchain : Pairs → List ℕ
mainchain = map (λ p. p.1)

abbrev pub pairs_eq : Pairs → Pairs → Bool
pairs_eq [] [] = true
pairs_eq [] (y ∷ ys) = false
pairs_eq (x ∷ xs) [] = false
pairs_eq (x ∷ xs) (y ∷ ys) = x.0 == y.0 && x.1 == y.1 && pairs_eq xs ys

-- `BTreeSet::insert`, on the ordered list of the elements.
unfoldable pub set_insert : ℕ → List ℕ → List ℕ
set_insert a [] = a ∷ []
set_insert a (b ∷ bs) =
    if a == b then b ∷ bs else if ltb a b then a ∷ b ∷ bs else b ∷ set_insert a bs

unfoldable pub set_of : List ℕ → List ℕ
unfolding set_insert
set_of [] = []
set_of (x ∷ xs) = set_insert x (set_of xs)

unfoldable pub has_duplicated_members : Pairs → Bool
unfolding set_of
has_duplicated_members ps = not (length (set_of (accounts ps)) == length (accounts ps))

pub pairs_eq_refl : (xs : Pairs) → pairs_eq xs xs ≡ true
pairs_eq_refl [] = refl
pairs_eq_refl (x ∷ xs) = ground (arith, pairs_eq_refl xs)

pub pairs_eq_sound : (xs ys : Pairs) → pairs_eq xs ys ≡ true → xs ≡ ys
pairs_eq_sound [] [] h = refl
pairs_eq_sound [] (y ∷ ys) h = cc
pairs_eq_sound (x ∷ xs) [] h = cc
pairs_eq_sound (x ∷ xs) (y ∷ ys) h = ground (arith, pairs_eq_sound xs ys)

length-insert_pair : (p : ℕ × ℕ) (ps : Pairs) → length (insert_pair p ps) ≡ length ps + 1
unfolding insert_pair
length-insert_pair p [] = omega arith
length-insert_pair p (q ∷ ps) = ground (arith, length-insert_pair p ps)

pub length-sort_pairs : (ps : Pairs) → length (sort_pairs ps) ≡ length ps
unfolding sort_pairs
length-sort_pairs [] = refl
length-sort_pairs (p ∷ ps) =
    omega (arith, length-insert_pair p (sort_pairs ps), length-sort_pairs ps)

insert_pair-perm : (p : ℕ × ℕ) (ps : Pairs) → Perm (insert_pair p ps) (p ∷ ps)
unfolding insert_pair
insert_pair-perm p [] = Perm.refl _
insert_pair-perm p (q ∷ ps) = elim (Bool-cases (leb p.0 q.0)) [
  | inl e ↦ rw (e, insert_pair) (Perm.refl _)
  | inr e ↦
      rw (e, insert_pair) (Perm.trans (Perm.cons q (insert_pair-perm p ps)) (Perm.swap p q ps))
]

-- The sort only reorders.
pub sort_pairs-perm : (ps : Pairs) → Perm (sort_pairs ps) ps
unfolding sort_pairs
sort_pairs-perm [] = Perm.refl []
sort_pairs-perm (p ∷ ps) =
    Perm.trans (insert_pair-perm p (sort_pairs ps)) (Perm.cons p (sort_pairs-perm ps))

-- The account ids rise along the list.
abbrev pub IsSorted : Pairs → Type 0
IsSorted [] = Unit
IsSorted (p ∷ ps) = All (λ (q : ℕ × ℕ). p.0 ≤ q.0) ps × IsSorted ps

All-insert_pair :
    (n : ℕ) (p : ℕ × ℕ) (ps : Pairs)
    → n ≤ p.0
    → All (λ (q : ℕ × ℕ). n ≤ q.0) ps
    → All (λ (q : ℕ × ℕ). n ≤ q.0) (insert_pair p ps)
unfolding insert_pair
All-insert_pair n p [] le all = (le, tt)
All-insert_pair n p (q ∷ ps) le all = ground (arith, All-insert_pair n p ps le all.1)

All-le :
    (m n : ℕ) (ps : Pairs)
    → m ≤ n
    → All (λ (q : ℕ × ℕ). n ≤ q.0) ps
    → All (λ (q : ℕ × ℕ). m ≤ q.0) ps
All-le m n [] le all = tt
All-le m n (p ∷ ps) le all = (omega (arith, all.0), All-le m n ps le all.1)

insert_pair-IsSorted : (p : ℕ × ℕ) (ps : Pairs) → IsSorted ps → IsSorted (insert_pair p ps)
unfolding insert_pair
insert_pair-IsSorted p [] h = (tt, tt)
insert_pair-IsSorted p (q ∷ ps) h = elim (Bool-cases (leb p.0 q.0)) [
  | inl e ↦ rw (e, insert_pair) ((ground arith, All-le p.0 q.0 ps (ground arith) h.0), h)
  | inr e ↦
      rw (e, insert_pair)
        (All-insert_pair q.0 p ps (ground arith) h.0, insert_pair-IsSorted p ps h.1)
]

pub sort_pairs-IsSorted : (ps : Pairs) → IsSorted (sort_pairs ps)
unfolding sort_pairs
sort_pairs-IsSorted [] = tt
sort_pairs-IsSorted (p ∷ ps) = insert_pair-IsSorted p (sort_pairs ps) (sort_pairs-IsSorted ps)
