-- ===== src/FederatedAuthority/Unanimity.antt =====
-- Who has approved a motion whose call runs.
use midnight_node.Prelude.{
  ℕ, ◌≤◌, ◌<◌, ◌≡◌, ◌≢◌, refl, sym, ◌∙◌, true, some, none, inl, inr, List, [], ◌∷◌, length, map,
  arith, Bool-cases, All,
}
use midnight_node.FederatedAuthority.Types.{MotionInfo, Storage, Runtime}
use midnight_node.FederatedAuthority.Calls.{motion_close}
use midnight_node.FederatedAuthority.Closing.{motion_close_guarded}
use midnight_node.FederatedAuthority.Origins.{
  reached_proportion, reached_proportion_iff, AuthorityBody, ensure_from_bodies,
}
use midnight_node.FederatedAuthority.Invariant.{Inv, KeepsInv, stored-IsSound}
use midnight_node.FederatedAuthority.History.{Reach, Reach-Inv}
use midnight_node.FederatedAuthority.SetSizes.{is_id, IsWithin, len-lt}
use midnight_node.FederatedAuthority.Given.{Gave, GivesNone, Gave-origin, approved-Gave}

abbrev indices : {Origin : Type 0} → List (AuthorityBody Origin) → List ℕ
indices bodies = map (λ b. b.index) bodies

length-indices :
    {Origin : Type 0} (bodies : List (AuthorityBody Origin))
    → length (indices bodies) ≡ length bodies
length-indices [] = refl
length-indices (b ∷ bodies) = omega (arith, length-indices bodies)

ensure_from_bodies-is_id :
    {Origin : Type 0} (bodies : List (AuthorityBody Origin)) (o : Origin) (auth : ℕ)
    → ensure_from_bodies bodies o ≡ some auth
    → is_id auth (indices bodies) ≡ true
unfolding ensure_from_bodies
ensure_from_bodies-is_id [] o auth taken = cc
ensure_from_bodies-is_id (b ∷ bodies) o auth taken =
    ground (arith, ensure_from_bodies-is_id bodies o auth)

All-indices :
    {Origin : Type 0} (P : ℕ → Type 0) (bodies : List (AuthorityBody Origin))
    → ((auth : ℕ) → is_id auth (indices bodies) ≡ true → P auth)
    → All (λ b. P b.index) bodies
All-indices P [] each = tt
All-indices P (b ∷ bodies) each = (
  each b.index (ground arith),
  All-indices P bodies (λ auth listed. each auth (ground (arith, listed))),
)

module _ {Origin Call Set Weight World : Type 0} (rt : Runtime Origin Call Set Weight World) where
  open rt use {sets}

  every_body-Gave :
      {s t : Storage Call Set World} (bodies : List (AuthorityBody Origin)) (hash : ℕ)
      (r : Reach rt s t) (approvals : Set)
      → ((by : Origin) → rt.ensure_approval_origin by ≡ ensure_from_bodies bodies by)
      → ((auth : ℕ) → sets.contains auth approvals ≡ true → Gave rt s hash auth t r)
      → length bodies ≤ sets.len approvals
      → All (λ b. Gave rt s hash b.index t r) bodies
  every_body-Gave {s} {t} bodies hash r approvals managed each enough =
      let within : IsWithin sets approvals (indices bodies) = λ a there.
        let (by, taken) = Gave-origin rt s hash a (each a there) in
        ensure_from_bodies-is_id bodies by a (sym (managed by) ∙ taken) in
      All-indices (λ a. Gave rt s hash a t r) bodies
        λ auth listed. elim (Bool-cases (sets.contains auth approvals)) [
          | inl there ↦ each auth there
          | inr missing ↦
              let less = len-lt sets (indices bodies) approvals auth within listed missing in
              absurd (omega (arith, less, enough, length-indices bodies))
        ]

  -- Let the proportion be 1 of 1, the origin of an approval the first of the given authority bodies
  -- that accepts it, and the set of approvals bounded by no fewer than these bodies and by less
  -- than 2 ^ 32; and let the dispatched calls keep the motions sound and give no approvals. Then if
  -- a history that starts with no motions is at a storage where a call of `motion_close` changes
  -- the rest of the chain, there is a motion under the given hash, its approvals fill the set, it
  -- is the dispatch of its call, with this hash, that makes the change, and every one of the bodies
  -- has given its approval to this hash in the history.
  pub motion_close_unanimous :
      {s t : Storage Call Set World} (bodies : List (AuthorityBody Origin)) (o : Origin) (hash : ℕ)
      → ((n d : ℕ) → rt.reached_proportion n d ≡ reached_proportion 1 1 n d)
      → ((by : Origin) → rt.ensure_approval_origin by ≡ ensure_from_bodies bodies by)
      → length bodies ≤ sets.bound
      → sets.bound < 4294967296
      → KeepsInv rt
      → GivesNone rt
      → ((h : ℕ) → s.motions h ≡ none)
      → (r : Reach rt s t) → (motion_close rt o hash t).1.world ≢ t.world
      → (m : MotionInfo Call Set) × (t.motions hash ≡ some m)
        × (sets.len m.approvals ≡ sets.bound)
        × (rt.hash_of m.call ≡ hash)
        × ((motion_close rt o hash t).1.world ≡ (rt.dispatch_root m.call t).1.world)
        × All (λ b. Gave rt s hash b.index t r) bodies
  motion_close_unanimous {s} {t} bodies o hash all managed fits small keeps none_given empty r
        changed =
      let (m, stored, enough, _, ran) = motion_close_guarded rt o hash t changed in
      let inv : Inv rt s = λ h. rw (empty h) tt in
      let sound = stored-IsSound rt t hash m (Reach-Inv rt keeps inv r) stored in
      let n = sets.len m.approvals in
      let iff =
        reached_proportion_iff 1 1 n sets.bound (omega arith) (omega (arith, sound.within_bound)) in
      let full : n ≡ sets.bound =
        omega (arith, sound.within_bound, iff.0 (sym (all n sets.bound) ∙ enough)) in
      let given : (auth : ℕ) → sets.contains auth m.approvals ≡ true → Gave rt s hash auth t r =
        λ auth there. approved-Gave rt none_given empty r hash auth (rw stored there) in
      let every = every_body-Gave bodies hash r m.approvals managed given (omega arith) in
      (m, stored, full, sound.hashed, ran, every)
