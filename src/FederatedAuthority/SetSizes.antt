-- ===== src/FederatedAuthority/SetSizes.antt =====
-- The size of a set of approvals next to a list that has all its elements.
use midnight_node.Prelude.{
  ℕ, ◌≤◌, ◌<◌, ◌≡◌, ◌≢◌, ◌∙◌, Bool, true, false, ◌||◌, inl, inr, List, [], ◌∷◌, length, ◌==◌, arith,
  Bool-cases,
}
use midnight_node.FederatedAuthority.Types.{BoundedSet}

abbrev pub is_id : ℕ → List ℕ → Bool
is_id a [] = false
is_id a (x ∷ ids) = a == x || is_id a ids

module _ {Set : Type 0} (sets : BoundedSet Set) where
  -- Only ids of the list are in the set.
  abbrev pub IsWithin : Set → List ℕ → Type 0
  IsWithin s ids = (a : ℕ) → sets.contains a s ≡ true → is_id a ids ≡ true

  drop_id :
      (x : ℕ) (ids : List ℕ) (s : Set)
      → IsWithin s (x ∷ ids)
      → sets.contains x s ≡ false
      → IsWithin s ids
  drop_id x ids s within absent a there = elim (Bool-cases (a == x)) [
    | inl same ↦ ground (arith, there, absent, same)
    | inr other ↦ ground (arith, within a there, other)
  ]

  remove_id :
      (x : ℕ) (ids : List ℕ) (s : Set) → IsWithin s (x ∷ ids) → IsWithin (sets.remove x s).1 ids
  remove_id x ids s within a there = elim (Bool-cases (a == x)) [
    | inl same ↦ ground (arith, sets.removed_self x s, there, same)
    | inr other ↦ ground (arith, sets.removed_ne x a s (ground arith), within a, there, other)
  ]

  len-le : (ids : List ℕ) (s : Set) → IsWithin s ids → sets.len s ≤ length ids
  len-le [] s within = omega (
    arith,
    sets.len_zero s λ a. elim (Bool-cases (sets.contains a s)) [
      | inl there ↦ absurd (cc (within a there))
      | inr absent ↦ absent
    ],
  )
  len-le (x ∷ ids) s within = elim (Bool-cases (sets.contains x s)) [
    | inl there ↦ omega (
      arith,
      sets.removed-len x s there,
      len-le ids (sets.remove x s).1 (remove_id x ids s within),
    )
    | inr absent ↦ omega (arith, len-le ids s (drop_id x ids s within absent))
  ]

  -- A set with as many elements as the list has ids has all of them.
  pub len-lt :
      (ids : List ℕ) (s : Set) (a : ℕ)
      → IsWithin s ids
      → is_id a ids ≡ true
      → sets.contains a s ≡ false
      → sets.len s < length ids
  len-lt [] s a within listed missing = cc
  len-lt (x ∷ ids) s a within listed missing = elim (Bool-cases (sets.contains x s)) [
    | inl there ↦
        let other : a ≢ x = λ e. ground (arith, there, missing, e) in
        let rest = sets.remove x s in
        let less =
          len-lt ids rest.1 a (remove_id x ids s within) (ground (arith, listed, other))
            (sets.removed_ne x a s other ∙ missing) in
        omega (arith, sets.removed-len x s there, less)
    | inr absent ↦ omega (arith, len-le ids s (drop_id x ids s within absent))
  ]
