-- ===== src/FederatedAuthority/Invariant.antt =====
-- What holds of every stored motion, after any calls.
use midnight_node.Prelude.{
  ℕ, ◌+◌, ◌≤◌, ◌<◌, ◌≡◌, refl, true, false, Option, none, some, inl, inr, ◌==◌, put, put-put, arith,
  Option-cases, Bool-cases, ap, ◌∙◌, sym, saturating_u32, subst, ==→eq,
}
use midnight_node.FederatedAuthority.Types.{
  Result-cases, Insertion-cases, MotionInfo, Storage, Runtime,
}
use midnight_node.FederatedAuthority.Calls.{
  has_ended, is_motion_approved, motion_approve, approve_by, motion_revoke, revoke_by, motion_close,
}
use midnight_node.FederatedAuthority.Closing.{motion_close_dispatched, motion_close_call_failed}

module _ {Origin Call Set Weight World : Type 0} (rt : Runtime Origin Call Set Weight World) where
  open rt use {sets}

  -- A stored motion has an approval and no more than there are bodies, is stored under the hash of
  -- its call, and ends within the duration of a motion from now.
  pub record IsSound (block hash : ℕ) (m : MotionInfo Call Set) : Type 0 where
    pub approved_once : 0 < sets.len m.approvals
    pub within_bound : sets.len m.approvals ≤ sets.bound
    pub hashed : rt.hash_of m.call ≡ hash
    pub ends_soon : m.ends_block ≤ block + rt.motion_duration

  abbrev pub IsSoundEntry : ℕ → ℕ → Option (MotionInfo Call Set) → Type 0
  IsSoundEntry block hash none = Unit
  IsSoundEntry block hash (some m) = IsSound block hash m

  abbrev pub Inv : Storage Call Set World → Type 0
  Inv s = (hash : ℕ) → IsSoundEntry s.block_number hash (s.motions hash)

  put-IsSoundEntry :
      (block hash : ℕ) (entry : Option (MotionInfo Call Set))
      (motions : ℕ → Option (MotionInfo Call Set))
      → ((h : ℕ) → IsSoundEntry block h (motions h))
      → IsSoundEntry block hash entry
      → (h : ℕ) → IsSoundEntry block h (put hash entry motions h)
  put-IsSoundEntry block hash entry motions all new h = elim (Bool-cases (h == hash)) [
    | inl same ↦ rw same (subst (λ k. IsSoundEntry block k entry) (sym (==→eq h hash same)) new)
    | inr other ↦ rw other (all h)
  ]

  -- Two storages with the same motions at the same block.
  abbrev HasMotions : (ℕ → Option (MotionInfo Call Set)) → ℕ → Storage Call Set World → Type 0
  HasMotions motions block t = (t.motions ≡ motions) × (t.block_number ≡ block)

  HasMotions-Inv :
      (motions : ℕ → Option (MotionInfo Call Set)) (block : ℕ) (t : Storage Call Set World)
      → HasMotions motions block t
      → ((h : ℕ) → IsSoundEntry block h (motions h))
      → Inv t
  HasMotions-Inv motions block t (same, at) all h = rw (same, at) (all h)

  abbrev extended : MotionInfo Call Set → Set → MotionInfo Call Set
  extended m set = record m { approvals = set }

  abbrev created : Call → ℕ → Set → MotionInfo Call Set
  created call block set = record {
    approvals = set;
    ends_block = saturating_u32 (block + rt.motion_duration);
    call = call;
  }

  abbrev keep_Inv :
      (s t : Storage Call Set World) → Inv s → HasMotions s.motions s.block_number t → Inv t
  keep_Inv s t inv same = HasMotions-Inv s.motions s.block_number t same inv

  pub stored-IsSound :
      (s : Storage Call Set World) (hash : ℕ) (m : MotionInfo Call Set)
      → Inv s
      → s.motions hash ≡ some m
      → IsSound s.block_number hash m
  stored-IsSound s hash m inv e = subst (IsSoundEntry s.block_number hash) e (inv hash)

  -- A storage in which one sound entry was written, or deleted.
  write_Inv :
      (s t : Storage Call Set World) (hash : ℕ) (entry : Option (MotionInfo Call Set))
      → Inv s
      → HasMotions (put hash entry s.motions) s.block_number t
      → IsSoundEntry s.block_number hash entry
      → Inv t
  write_Inv s t hash entry inv same sound =
      HasMotions-Inv (put hash entry s.motions) s.block_number t same
        (put-IsSoundEntry s.block_number hash entry s.motions inv sound)

  approve_by-Inv :
      (auth : ℕ) (call : Call) (s : Storage Call Set World)
      → Inv s
      → Inv (approve_by rt auth call s).1
  unfolding approve_by
  approve_by-Inv auth call s inv =
      let hash = rt.hash_of call in
      let t = (approve_by rt auth call s).1 in
      elim (Option-cases (s.motions hash)) [
        | inl new ↦ elim (Insertion-cases (sets.try_insert auth sets.empty)) [
          | inl (set, e) ↦
              write_Inv s t hash (some (created call s.block_number set)) inv
                (ground arith, ground arith)
                (record {
                  approved_once = omega (arith, sets.inserted-len auth sets.empty e);
                  within_bound = sets.inserted-le auth sets.empty e;
                  hashed = refl;
                  ends_soon = ground arith;
                })
          | inr (inl e) ↦
              absurd
                (ground (arith, sets.present-contains auth sets.empty e, sets.contains-empty auth))
          | inr (inr e) ↦ keep_Inv s t inv (ground arith, ground arith)
        ]
        | inr (m, old) ↦ elim (Bool-cases (has_ended s.block_number m)) [
          | inl ended ↦ keep_Inv s t inv (ground arith, ground arith)
          | inr open_motion ↦ elim (Insertion-cases (sets.try_insert auth m.approvals)) [
            | inl (set, e) ↦
                write_Inv s t hash (some (extended m set)) inv (ground arith, ground arith)
                  (record {
                    approved_once = omega (arith, sets.inserted-len auth m.approvals e);
                    within_bound = sets.inserted-le auth m.approvals e;
                    hashed = (stored-IsSound s hash m inv old).hashed;
                    ends_soon = (stored-IsSound s hash m inv old).ends_soon;
                  })
            | inr (inl e) ↦ keep_Inv s t inv (ground arith, ground arith)
            | inr (inr e) ↦ keep_Inv s t inv (ground arith, ground arith)
          ]
        ]
      ]

  revoked_last :
      (auth hash : ℕ) (s : Storage Call Set World) (m : MotionInfo Call Set)
      → s.motions hash ≡ some m
      → has_ended s.block_number m ≡ false
      → sets.contains auth m.approvals ≡ true
      → (sets.len (sets.remove auth m.approvals).1 == 0) ≡ true
      → (revoke_by rt auth hash s).1.motions
        ≡ put hash none (put hash (some (extended m (sets.remove auth m.approvals).1)) s.motions)
  unfolding revoke_by
  revoked_last auth hash s m old open_motion there last =
      ground (arith, sets.removed-contains auth m.approvals)

  revoke_by-Inv :
      (auth hash : ℕ) (s : Storage Call Set World) → Inv s → Inv (revoke_by rt auth hash s).1
  unfolding revoke_by
  revoke_by-Inv auth hash s inv =
      let t = (revoke_by rt auth hash s).1 in
      elim (Option-cases (s.motions hash)) [
        | inl missing ↦ keep_Inv s t inv (ground arith, ground arith)
        | inr (m, old) ↦ elim (Bool-cases (has_ended s.block_number m)) [
          | inl ended ↦ keep_Inv s t inv (ground arith, ground arith)
          | inr open_motion ↦ elim (Bool-cases (sets.contains auth m.approvals)) [
            | inr absent ↦
                let found = sets.removed-contains auth m.approvals in
                keep_Inv s t inv (ground (arith, found), ground (arith, found))
            | inl there ↦
                let rest = (sets.remove auth m.approvals).1 in
                let found = sets.removed-contains auth m.approvals in
                let fewer = sets.removed-len auth m.approvals there in
                let sound = stored-IsSound s hash m inv old in
                elim (Bool-cases (sets.len rest == 0)) [
                  | inl last ↦
                      write_Inv s t hash none inv
                        (
                          revoked_last auth hash s m old open_motion there last
                              ∙ put-put hash none _ _,
                          ground (arith, found),
                        )
                        tt
                  | inr more ↦
                      write_Inv s t hash (some (extended m rest)) inv
                        (ground (arith, found), ground (arith, found))
                        (record {
                          approved_once = ground arith;
                          within_bound = omega (arith, fewer, sound.within_bound);
                          hashed = sound.hashed;
                          ends_soon = sound.ends_soon;
                        })
                ]
          ]
        ]
      ]

  pub motion_approve-Inv :
      (o : Origin) (call : Call) (s : Storage Call Set World)
      → Inv s
      → Inv (motion_approve rt o call s).1
  unfolding motion_approve
  motion_approve-Inv o call s inv = elim (Option-cases (rt.ensure_approval_origin o)) [
    | inl refused ↦ rw (refused, motion_approve) inv
    | inr (auth, e) ↦ rw (e, motion_approve) (approve_by-Inv auth call s inv)
  ]

  pub motion_revoke-Inv :
      (o : Origin) (hash : ℕ) (s : Storage Call Set World)
      → Inv s
      → Inv (motion_revoke rt o hash s).1
  unfolding motion_revoke
  motion_revoke-Inv o hash s inv = elim (Option-cases (rt.ensure_revoke_origin o)) [
    | inl refused ↦ rw (refused, motion_revoke) inv
    | inr (auth, e) ↦ rw (e, motion_revoke) (revoke_by-Inv auth hash s inv)
  ]

  -- A call that runs as root may itself change the motions; this says that it keeps them sound.
  abbrev pub KeepsInv : Type 0
  KeepsInv = (call : Call) (s : Storage Call Set World) → Inv s → Inv (rt.dispatch_root call s).1

  delete_Inv :
      (s t : Storage Call Set World) (hash : ℕ)
      → Inv s
      → t.motions ≡ put hash none s.motions
      → t.block_number ≡ s.block_number
      → Inv t
  delete_Inv s t hash inv same at = write_Inv s t hash none inv (same, at) tt

  close_motion-Inv :
      (o : Origin) (hash who : ℕ) (m : MotionInfo Call Set) (s : Storage Call Set World)
      → KeepsInv
      → Inv s
      → rt.ensure_signed o ≡ some who
      → s.motions hash ≡ some m
      → Inv (motion_close rt o hash s).1
  unfolding motion_close
  close_motion-Inv o hash who m s keeps inv signed stored =
      let t = (motion_close rt o hash s).1 in
      elim (Bool-cases (is_motion_approved rt (sets.len m.approvals))) [
        | inl reached ↦ elim (Result-cases (rt.dispatch_root m.call s).0) [
          | inl succeeds ↦
              let is = motion_close_dispatched rt o hash who m s signed stored reached succeeds in
              delete_Inv (rt.dispatch_root m.call s).1 t hash (keeps m.call s inv)
                (ap (λ r. r.1.motions) is) (ap (λ r. r.1.block_number) is)
          | inr (e, fails) ↦
              let is = motion_close_call_failed rt o hash who m s e signed stored reached fails in
              delete_Inv s t hash inv (ap (λ r. r.1.motions) is) (ap (λ r. r.1.block_number) is)
        ]
        | inr short ↦ elim (Bool-cases (has_ended s.block_number m)) [
          | inl late ↦ delete_Inv s t hash inv (ground arith) (ground arith)
          | inr early ↦ keep_Inv s t inv (ground arith, ground arith)
        ]
      ]

  pub motion_close-Inv :
      (o : Origin) (hash : ℕ) (s : Storage Call Set World)
      → KeepsInv
      → Inv s
      → Inv (motion_close rt o hash s).1
  unfolding motion_close
  motion_close-Inv o hash s keeps inv = elim (Option-cases (rt.ensure_signed o)) [
    | inl unsigned ↦ rw (unsigned, motion_close) inv
    | inr (who, signed) ↦ elim (Option-cases (s.motions hash)) [
      | inl missing ↦ keep_Inv s (motion_close rt o hash s).1 inv (ground arith, ground arith)
      | inr (m, stored) ↦ close_motion-Inv o hash who m s keeps inv signed stored
    ]
  ]
