-- ===== src/FederatedAuthority/Approvals.antt =====
-- What `motion_approve` and `motion_revoke` do to the approvals of a motion.
use midnight_node.Prelude.{
  ℕ, ◌<◌, ◌≡◌, ◌≢◌, refl, Bool, true, false, Option, none, some, ◌⊎◌, inl, inr, [], ◌∷◌, ◌++◌, ◌==◌,
  arith, Option-cases, Bool-cases,
}
use midnight_node.FederatedAuthority.Types.{
  motion_approved, motion_revoked, motion_removed, Insertion-cases, MotionInfo, Storage, Outcome,
  done, failed, Runtime,
}
use midnight_node.FederatedAuthority.Calls.{
  has_ended, motion_approve, motion_revoke, approve_by, revoke_by,
}

module _ {Origin Call Set Weight World : Type 0} (rt : Runtime Origin Call Set Weight World) where
  open rt use {sets}

  abbrev approved_in : ℕ → Option (MotionInfo Call Set) → Bool
  approved_in auth none = false
  approved_in auth (some m) = sets.contains auth m.approvals

  -- An authority has an approval on record for a motion.
  abbrev pub approved : Storage Call Set World → ℕ → ℕ → Bool
  approved s hash auth = approved_in auth (s.motions hash)

  abbrev pub IsFailed : Outcome Weight → Type 0
  IsFailed (done info) = ⊥
  IsFailed (failed info e) = Unit

  -- The storage after an approval, next to the one before.
  pub record Approves (s t : Storage Call Set World) (hash auth : ℕ) : Type 0 where
    pub was_missing : approved s hash auth ≡ false
    pub now_present : approved t hash auth ≡ true
    pub others_kept : (a : ℕ) → a ≢ auth → approved t hash a ≡ approved s hash a
    pub motions_kept : (h : ℕ) → h ≢ hash → t.motions h ≡ s.motions h
    pub logged : t.events ≡ s.events ++ motion_approved hash auth ∷ []

  abbrev Approval :
      Storage Call Set World → ℕ → ℕ → Outcome Weight × Storage Call Set World → Type 0
  Approval s hash auth (out, t) = (IsFailed out × (t ≡ s)) ⊎ Approves s t hash auth

  approve_by-Approval :
      (auth : ℕ) (call : Call) (s : Storage Call Set World)
      → Approval s (rt.hash_of call) auth (approve_by rt auth call s)
  unfolding approve_by
  approve_by-Approval auth call s = elim (Option-cases (s.motions (rt.hash_of call))) [
    | inl new ↦ elim (Insertion-cases (sets.try_insert auth sets.empty)) [
      | inl (set, e) ↦ inr (record {
        was_missing = ground arith;
        now_present = ground (arith, sets.inserted_self auth sets.empty e);
        others_kept =
            λ a ne. ground (arith, sets.inserted_ne auth a sets.empty e ne, sets.contains-empty a);
        motions_kept = λ h ne. ground arith;
        logged = ground arith;
      })
      | inr (inl e) ↦
          absurd (ground (arith, sets.present-contains auth sets.empty e, sets.contains-empty auth))
      | inr (inr e) ↦ inl (ground arith)
    ]
    | inr (m, old) ↦ elim (Bool-cases (has_ended s.block_number m)) [
      | inl ended ↦ inl (ground arith)
      | inr open_motion ↦ elim (Insertion-cases (sets.try_insert auth m.approvals)) [
        | inl (set, e) ↦ inr (record {
          was_missing = ground (arith, sets.inserted_new auth m.approvals e);
          now_present = ground (arith, sets.inserted_self auth m.approvals e);
          others_kept = λ a ne. ground (arith, sets.inserted_ne auth a m.approvals e ne);
          motions_kept = λ h ne. ground arith;
          logged = ground arith;
        })
        | inr (inl e) ↦ inl (ground arith)
        | inr (inr e) ↦ inl (ground arith)
      ]
    ]
  ]

  -- An approval fails and leaves the storage alone, or is made by an authority whose approval was
  -- not on record: then that one approval is added, no other approval and no other motion changes,
  -- and one event is deposited.
  pub motion_approve-Approves :
      (o : Origin) (call : Call) (s : Storage Call Set World)
      → let (out, t) = motion_approve rt o call s in
        (IsFailed out × (t ≡ s))
        ⊎ ((auth : ℕ) × (rt.ensure_approval_origin o ≡ some auth)
            × Approves s t (rt.hash_of call) auth)
  unfolding motion_approve
  motion_approve-Approves o call s = elim (Option-cases (rt.ensure_approval_origin o)) [
    | inl none_found ↦ inl (ground arith)
    | inr (auth, e) ↦
        rw (e, motion_approve)
          (elim (approve_by-Approval auth call s) [
            | inl unchanged ↦ inl unchanged
            | inr added ↦ inr (auth, refl, added)
          ])
  ]

  -- The storage after a revocation, next to the one before. A motion whose last approval goes is
  -- removed, with an event of its own.
  pub record Revokes (s t : Storage Call Set World) (hash auth : ℕ) : Type 0 where
    pub was_present : approved s hash auth ≡ true
    pub now_missing : approved t hash auth ≡ false
    pub motions_kept : (h : ℕ) → h ≢ hash → t.motions h ≡ s.motions h
    pub kept_or_removed :
        (((a : ℕ) → a ≢ auth → approved t hash a ≡ approved s hash a)
          × (t.events ≡ s.events ++ motion_revoked hash auth ∷ []))
        ⊎ ((t.motions hash ≡ none)
            × (t.events ≡ (s.events ++ motion_revoked hash auth ∷ []) ++ motion_removed hash ∷ []))

  abbrev Revocation :
      Storage Call Set World → ℕ → ℕ → Outcome Weight × Storage Call Set World → Type 0
  Revocation s hash auth (out, t) = (IsFailed out × (t ≡ s)) ⊎ Revokes s t hash auth

  revoke_by-Revocation :
      (auth hash : ℕ) (s : Storage Call Set World)
      → Revocation s hash auth (revoke_by rt auth hash s)
  unfolding revoke_by
  revoke_by-Revocation auth hash s = elim (Option-cases (s.motions hash)) [
    | inl missing ↦ inl (ground arith)
    | inr (m, e) ↦ elim (Bool-cases (has_ended s.block_number m)) [
      | inl ended ↦ inl (ground arith)
      | inr open_motion ↦ elim (Bool-cases (sets.contains auth m.approvals)) [
        | inr absent ↦ inl (ground (arith, sets.removed-contains auth m.approvals))
        | inl there ↦
            let found = sets.removed-contains auth m.approvals in
            let gone = sets.removed_self auth m.approvals in
            elim (Bool-cases (sets.len (sets.remove auth m.approvals).1 == 0)) [
              | inl last ↦ inr (record {
                was_present = ground arith;
                now_missing = ground (arith, found);
                motions_kept = λ h ne. ground (arith, found);
                kept_or_removed = inr (ground (arith, found), ground (arith, found));
              })
              | inr more ↦ inr (record {
                was_present = ground arith;
                now_missing = ground (arith, found, gone);
                motions_kept = λ h ne. ground (arith, found);
                kept_or_removed = inl (
                  λ a ne. ground (arith, found, sets.removed_ne auth a m.approvals ne),
                  ground (arith, found),
                );
              })
            ]
      ]
    ]
  ]

  -- A revocation fails and leaves the storage alone, or is made by an authority whose approval was
  -- on record: then that approval is gone and no other motion changes. Either the other approvals
  -- stay, or the motion is removed, and the events say which.
  pub motion_revoke-Revokes :
      (o : Origin) (hash : ℕ) (s : Storage Call Set World)
      → let (out, t) = motion_revoke rt o hash s in
        (IsFailed out × (t ≡ s))
        ⊎ ((auth : ℕ) × (rt.ensure_revoke_origin o ≡ some auth) × Revokes s t hash auth)
  unfolding motion_revoke
  motion_revoke-Revokes o hash s = elim (Option-cases (rt.ensure_revoke_origin o)) [
    | inl none_found ↦ inl (ground arith)
    | inr (auth, e) ↦
        rw (e, motion_revoke)
          (elim (revoke_by-Revocation auth hash s) [
            | inl unchanged ↦ inl unchanged
            | inr removed ↦ inr (auth, refl, removed)
          ])
  ]

  -- The only authority that approved a new motion can take it back in the same block, if motions
  -- last at least a block, there is room for an approval and the block number can still grow: the
  -- motion is then gone, and four events are on record.
  motion_revoke-motion_approve :
      (o o' : Origin) (call : Call) (auth : ℕ) (s : Storage Call Set World)
      → rt.ensure_approval_origin o ≡ some auth
      → rt.ensure_revoke_origin o' ≡ some auth
      → s.motions (rt.hash_of call) ≡ none
      → 0 < rt.motion_duration
      → s.block_number < 4294967295
      → 0 < sets.bound
      → let t = (motion_revoke rt o' (rt.hash_of call) (motion_approve rt o call s).1).1 in
        ((h : ℕ) → t.motions h ≡ s.motions h)
        × (t.events
            ≡ ((s.events ++ motion_approved (rt.hash_of call) auth ∷ [])
                ++ motion_revoked (rt.hash_of call) auth ∷ [])
              ++ motion_removed (rt.hash_of call) ∷ [])
  unfolding motion_revoke motion_approve
  motion_revoke-motion_approve o o' call auth s ho hr new long early room =
      elim (Insertion-cases (sets.try_insert auth sets.empty)) [
        | inl (set, e) ↦
            let there = sets.inserted_self auth sets.empty e in
            let found = sets.removed-contains auth set in
            let count = sets.inserted-len auth sets.empty e in
            let left = sets.removed-len auth set there in
            (
              λ h. ground (arith, found, there, count, left, sets.len-empty),
              ground (arith, found, there, count, left, sets.len-empty),
            )
        | inr (inl e) ↦
            absurd
              (ground (arith, sets.present-contains auth sets.empty e, sets.contains-empty auth))
        | inr (inr e) ↦ absurd (omega (arith, sets.full-le auth sets.empty e, sets.len-empty))
      ]
