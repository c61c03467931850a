-- ===== src/FederatedAuthorityObservation/Duplicates.antt =====
-- The test for duplicates counts the elements of a `BTreeSet`; here it meets the plain definition.
use midnight_node.Prelude.{
  ℕ, suc, ◌≤◌, ◌<◌, ◌≡◌, refl, Bool, true, false, not, ◌&&◌, ◌||◌, List, [], ◌∷◌, arith, ◌==◌,
  if◌then◌else◌, length, All,
}
use midnight_node.FederatedAuthorityObservation.Members.{
  Pairs, accounts, set_insert, set_of, has_duplicated_members,
}

abbrev pub contains : ℕ → List ℕ → Bool
contains a [] = false
contains a (x ∷ xs) = a == x || contains a xs

-- No element stands twice in the list.
abbrev pub distinct : List ℕ → Bool
distinct [] = true
distinct (x ∷ xs) = not (contains x xs) && distinct xs

abbrev Rises : List ℕ → Type 0
Rises [] = Unit
Rises (x ∷ xs) = All (λ y. x < y) xs × Rises xs

All-lt : (m n : ℕ) (xs : List ℕ) → m < n → All (λ y. n < y) xs → All (λ y. m < y) xs
All-lt m n [] lt all = tt
All-lt m n (x ∷ xs) lt all = (omega (arith, all.0), All-lt m n xs lt all.1)

All-set_insert :
    (n a : ℕ) (xs : List ℕ) → n < a → All (λ y. n < y) xs → All (λ y. n < y) (set_insert a xs)
unfolding set_insert
All-set_insert n a [] lt all = (lt, tt)
All-set_insert n a (x ∷ xs) lt all = ground (arith, All-set_insert n a xs lt all.1)

set_insert-Rises : (a : ℕ) (xs : List ℕ) → Rises xs → Rises (set_insert a xs)
unfolding set_insert
set_insert-Rises a [] h = (tt, tt)
set_insert-Rises a (x ∷ xs) h =
    ground (arith, All-lt a x xs, All-set_insert x a xs, set_insert-Rises a xs h.1)

set_of-Rises : (xs : List ℕ) → Rises (set_of xs)
unfolding set_of
set_of-Rises [] = tt
set_of-Rises (x ∷ xs) = set_insert-Rises x (set_of xs) (set_of-Rises xs)

contains-above : (a n : ℕ) (xs : List ℕ) → a ≤ n → All (λ y. n < y) xs → contains a xs ≡ false
contains-above a n [] le all = refl
contains-above a n (x ∷ xs) le all = ground (arith, contains-above a n xs le all.1)

contains-set_insert :
    (b a : ℕ) (xs : List ℕ) → contains b (set_insert a xs) ≡ (b == a || contains b xs)
unfolding set_insert
contains-set_insert b a [] = refl
contains-set_insert b a (x ∷ xs) = ground (arith, contains-set_insert b a xs)

length-set_insert :
    (a : ℕ) (xs : List ℕ)
    → Rises xs
    → length (set_insert a xs) ≡ (if contains a xs then length xs else suc (length xs))
unfolding set_insert
length-set_insert a [] h = refl
length-set_insert a (x ∷ xs) h = ground (arith, length-set_insert a xs h.1, contains-above a x xs)

contains-set_of : (b : ℕ) (xs : List ℕ) → contains b (set_of xs) ≡ contains b xs
unfolding set_of
contains-set_of b [] = refl
contains-set_of b (x ∷ xs) =
    ground (arith, contains-set_insert b x (set_of xs), contains-set_of b xs)

length-set_of :
    (xs : List ℕ)
    → (length (set_of xs) ≤ length xs) × ((length (set_of xs) == length xs) ≡ distinct xs)
unfolding set_of
length-set_of [] = (omega arith, refl)
length-set_of (x ∷ xs) =
    let ih = length-set_of xs in
    ground
      (arith, length-set_insert x (set_of xs) (set_of-Rises xs), contains-set_of x xs, ih.0, ih.1)

-- The node finds a duplicate exactly if some account id stands twice in the list.
pub has_duplicated_members-distinct :
    (ps : Pairs) → has_duplicated_members ps ≡ not (distinct (accounts ps))
unfolding has_duplicated_members
has_duplicated_members-distinct ps = ground (arith, (length-set_of (accounts ps)).1)
