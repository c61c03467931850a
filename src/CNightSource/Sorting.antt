-- ===== src/CNightSource/Sorting.antt =====
-- The stable sort of the observed UTXOs, written as an insertion sort, and the lists that a test
-- keeps of it.
use Prim.Native.Nat.{Ordering}
use midnight_node.Prelude.{
  suc, length, ◌≡◌, refl, sym, ap, ◌∙◌, Bool, true, false, inl, inr, Bool-cases, List, [], ◌∷◌,
  filter, All, if◌then◌else◌, arith,
}
use midnight_node.CNightObservation.Order.{IsOrder}

abbrev pub is_gt : Ordering → Bool
is_gt Ordering.lt = false
is_gt Ordering.eq = false
is_gt Ordering.gt = true

module _ {A : Type 0} (cmp : A → A → Ordering) where
  -- Before the first element that is not smaller.
  unfoldable pub insert : A → List A → List A
  insert x [] = x ∷ []
  insert x (y ∷ ys) = if is_gt (cmp x y) then y ∷ insert x ys else x ∷ y ∷ ys

  unfoldable pub sort : List A → List A
  unfolding insert
  sort [] = []
  sort (x ∷ xs) = insert x (sort xs)

  -- No element of the list is smaller than the first one.
  abbrev pub NotBelow : A → List A → Type 0
  NotBelow x = All (λ y. is_gt (cmp x y) ≡ false)

  abbrev pub IsSorted : List A → Type 0
  IsSorted [] = Unit {0}
  IsSorted (x ∷ xs) = NotBelow x xs × IsSorted xs

module _ {A : Type 0} (cmp : A → A → Ordering) (P : A → Type 0) where
  All-insert : (x : A) (ys : List A) → P x → All P ys → All P (insert cmp x ys)
  unfolding insert
  All-insert x [] h k = (h, tt)
  All-insert x (y ∷ ys) h (k, ks) = elim (Bool-cases (is_gt (cmp x y))) [
    | inl gt ↦ rw gt (k, All-insert x ys h ks)
    | inr le ↦ rw le (h, (k, ks))
  ]

  pub All-sort : (xs : List A) → All P xs → All P (sort cmp xs)
  unfolding sort
  All-sort [] h = tt
  All-sort (x ∷ xs) (h, hs) = All-insert x (sort cmp xs) h (All-sort xs hs)

module _ {A : Type 0} (cmp : A → A → Ordering) where
  length-insert : (x : A) (ys : List A) → length (insert cmp x ys) ≡ suc (length ys)
  unfolding insert
  length-insert x [] = refl
  length-insert x (y ∷ ys) = elim (Bool-cases (is_gt (cmp x y))) [
    | inl gt ↦ rw gt (ap suc (length-insert x ys))
    | inr le ↦ rw le refl
  ]

  pub length-sort : (xs : List A) → length (sort cmp xs) ≡ length xs
  unfolding sort
  length-sort [] = refl
  length-sort (x ∷ xs) = length-insert x (sort cmp xs) ∙ ap suc (length-sort xs)

module _ {A : Type 0} {cmp : A → A → Ordering} (o : IsOrder cmp) where
  pub gt_trans :
      (x y z : A) → is_gt (cmp x y) ≡ false → is_gt (cmp y z) ≡ false → is_gt (cmp x z) ≡ false
  gt_trans x y z h k =
      ground
        (arith, o.flips x y, o.flips y z, o.trans x y z, o.alike x y z, o.alike y z x, o.flips x z)

  pub gt_flip : (x y : A) → is_gt (cmp x y) ≡ true → is_gt (cmp y x) ≡ false
  gt_flip x y h = ground (arith, o.flips x y)

  NotBelow-trans :
      (x y : A) (zs : List A) → is_gt (cmp x y) ≡ false → NotBelow cmp y zs → NotBelow cmp x zs
  NotBelow-trans x y [] h k = tt
  NotBelow-trans x y (z ∷ zs) h (k, ks) = (gt_trans x y z h k, NotBelow-trans x y zs h ks)

  insert-NotBelow :
      (x y : A) (zs : List A)
      → is_gt (cmp y x) ≡ false
      → NotBelow cmp y zs
      → NotBelow cmp y (insert cmp x zs)
  unfolding insert
  insert-NotBelow x y [] h k = (h, tt)
  insert-NotBelow x y (z ∷ zs) h (k, ks) = elim (Bool-cases (is_gt (cmp x z))) [
    | inl gt ↦ rw gt (k, insert-NotBelow x y zs h ks)
    | inr le ↦ rw le (h, (k, ks))
  ]

  insert-IsSorted : (x : A) (ys : List A) → IsSorted cmp ys → IsSorted cmp (insert cmp x ys)
  unfolding insert
  insert-IsSorted x [] s = (tt, tt)
  insert-IsSorted x (y ∷ ys) (b, s) = elim (Bool-cases (is_gt (cmp x y))) [
    | inl gt ↦ rw gt (insert-NotBelow x y ys (gt_flip x y gt) b, insert-IsSorted x ys s)
    | inr le ↦ rw le ((le, NotBelow-trans x y ys le b), (b, s))
  ]

  pub sort-IsSorted : (xs : List A) → IsSorted cmp (sort cmp xs)
  unfolding sort
  sort-IsSorted [] = tt
  sort-IsSorted (x ∷ xs) = insert-IsSorted x (sort cmp xs) (sort-IsSorted xs)

  filter-NotBelow :
      (p : A → Bool) (x : A) (ys : List A) → NotBelow cmp x ys → NotBelow cmp x (filter p ys)
  filter-NotBelow p x [] h = tt
  filter-NotBelow p x (y ∷ ys) (h, hs) = elim (Bool-cases (p y)) [
    | inl kept ↦ rw (kept, filter) (h, filter-NotBelow p x ys hs)
    | inr gone ↦ rw (gone, filter) (filter-NotBelow p x ys hs)
  ]

  insert-front : (x : A) (ys : List A) → NotBelow cmp x ys → insert cmp x ys ≡ x ∷ ys
  unfolding insert
  insert-front x [] h = refl
  insert-front x (y ∷ ys) (h, hs) = rw h refl

  filter-insert_kept :
      (p : A → Bool) (x : A) (ys : List A)
      → IsSorted cmp ys
      → p x ≡ true
      → filter p (insert cmp x ys) ≡ insert cmp x (filter p ys)
  unfolding insert
  filter-insert_kept p x [] s kept = ground (arith, kept)
  filter-insert_kept p x (y ∷ ys) (b, s) kept = elim (Bool-cases (is_gt (cmp x y))) [
    | inl gt ↦ elim (Bool-cases (p y)) [
      | inl py ↦ rw (gt, py, filter) (rw gt (ap (λ zs. y ∷ zs) (filter-insert_kept p x ys s kept)))
      | inr py ↦ rw (gt, py, filter) (filter-insert_kept p x ys s kept)
    ]
    | inr le ↦
        let low = filter-NotBelow p x (y ∷ ys) (le, NotBelow-trans x y ys le b) in
        rw (le, kept, filter) (sym (insert-front x (filter p (y ∷ ys)) low))
  ]

  filter-insert_gone :
      (p : A → Bool) (x : A) (ys : List A) → p x ≡ false → filter p (insert cmp x ys) ≡ filter p ys
  unfolding insert
  filter-insert_gone p x [] gone = ground (arith, gone)
  filter-insert_gone p x (y ∷ ys) gone = ground (arith, gone, filter-insert_gone p x ys gone)

  -- To sort and then to keep what passes a test is to keep it first.
  pub filter-sort : (p : A → Bool) (xs : List A) → filter p (sort cmp xs) ≡ sort cmp (filter p xs)
  unfolding sort
  filter-sort p [] = refl
  filter-sort p (x ∷ xs) = elim (Bool-cases (p x)) [
    | inl kept ↦
        rw (kept, filter)
          (filter-insert_kept p x (sort cmp xs) (sort-IsSorted xs) kept
            ∙ ap (insert cmp x) (filter-sort p xs))
    | inr gone ↦ rw (gone, filter) (filter-insert_gone p x (sort cmp xs) gone ∙ filter-sort p xs)
  ]
