-- ===== src/FederatedAuthority/Origins.antt =====
-- pallets/federated-authority/src/types.rs: the proportion of approvals, and the check of an origin
-- against a tuple of authority bodies, here a list. What `EnsureProportion` accepts is a function.
use midnight_node.Prelude.{
  ℕ, ◌*◌, ◌%◌, ◌≤◌, ◌<◌, ◌≡◌, ◌↔◌, ◌⊎◌, inl, inr, refl, ap, Bool-cases, Bool, true, false, Option,
  none, some, List, [], ◌∷◌, ◌++◌, arith, leb, if◌then◌else◌, All,
}

-- 2 ^ 32
abbrev u32_mod : ℕ
u32_mod = 4294967296

-- `FederatedAuthorityEnsureProportionAtLeast<N, D>`; the products wrap, since the release profile
-- has no overflow checks.
unfoldable pub reached_proportion : ℕ → ℕ → ℕ → ℕ → Bool
reached_proportion num den n d = leb ((num * d) % u32_mod) ((n * den) % u32_mod)

-- `AuthorityBody<P, EnsureProportion>`: the index of its pallet, and the origins it accepts.
pub record AuthorityBody (Origin : Type 0) : Type 0 where
  pub index : ℕ
  pub accepts : Origin → Bool

module _ {Origin : Type 0} where
  abbrev ensure_from_body : AuthorityBody Origin → Origin → Option ℕ
  ensure_from_body b o = if b.accepts o then some b.index else none

  -- `FederatedAuthorityOriginManager<Authorities>::try_origin`: the first body that accepts.
  unfoldable pub ensure_from_bodies : List (AuthorityBody Origin) → Origin → Option ℕ
  ensure_from_bodies [] o = none
  ensure_from_bodies (b ∷ bs) o = elim (ensure_from_body b o) [
    | some auth ↦ some auth
    | none ↦ ensure_from_bodies bs o
  ]

  abbrev Refuses : Origin → AuthorityBody Origin → Type 0
  Refuses o b = b.accepts o ≡ false

  -- An origin is taken for an authority exactly if some body accepts it, and then for the first
  -- such body in the order of the list; it is refused exactly if every body refuses it.
  ensure_from_bodies_first :
      (bs : List (AuthorityBody Origin)) (o : Origin)
      → ((ensure_from_bodies bs o ≡ none) × All (Refuses o) bs)
        ⊎ ((before : List (AuthorityBody Origin)) × (b : AuthorityBody Origin) × (after : List
              (AuthorityBody Origin))
            × (bs ≡ before ++ b ∷ after)
            × All (Refuses o) before
            × (b.accepts o ≡ true)
            × (ensure_from_bodies bs o ≡ some b.index))
  unfolding ensure_from_bodies
  ensure_from_bodies_first [] o = inl (refl, tt)
  ensure_from_bodies_first (b ∷ bs) o = elim (Bool-cases (b.accepts o)) [
    | inl e ↦ inr ([], b, bs, refl, tt, e, rw (e, ensure_from_bodies))
    | inr e ↦ elim (ensure_from_bodies_first bs o) [
      | inl (refused, all) ↦ inl (rw (e, ensure_from_bodies) refused, (e, all))
      | inr (before, b', after, split, all, accepts, found) ↦ inr (
        b ∷ before,
        b',
        after,
        ap (◌∷◌ b) split,
        (e, all),
        accepts,
        rw (e, ensure_from_bodies) found,
      )
    ]
  ]

-- If no product wraps, a proportion is reached exactly if `n` parts out of `d` are at least `num`
-- out of `den`.
pub reached_proportion_iff :
    (num den n d : ℕ)
    → num * d < 4294967296
    → n * den < 4294967296
    → (reached_proportion num den n d ≡ true) ↔ (num * d ≤ n * den)
unfolding reached_proportion
reached_proportion_iff num den n d p q = (λ h. ground arith, λ h. ground arith)
