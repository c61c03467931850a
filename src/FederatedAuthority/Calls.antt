-- ===== src/FederatedAuthority/Calls.antt =====
-- The calls `motion_approve`, `motion_revoke` and `motion_close` with the helpers below them.
use midnight_node.Prelude.{
  ℕ, ◌+◌, Bool, true, false, not, Option, none, some, ◌⊎◌, inl, inr, [], ◌∷◌, ◌++◌, leb, ◌==◌,
  if◌then◌else◌, put, saturating_u32,
}
use midnight_node.FederatedAuthority.Types.{
  Error, motion_already_approved, motion_approval_missing, motion_approval_exceeds_bounds,
  motion_not_found, motion_not_ended, motion_has_ended, bad_origin, Result, ok, err, Event,
  motion_approved, motion_dispatched, motion_expired, motion_revoked, motion_removed, Insertion,
  inserted, present, full, MotionInfo, Storage, PostInfo, Outcome, done, failed, Runtime,
}

abbrev pub has_ended : {Call Set : Type 0} → ℕ → MotionInfo Call Set → Bool
has_ended block m = leb m.ends_block block

module _ {Call Set World : Type 0} where
  unfoldable pub deposit_event : Event → Storage Call Set World → Storage Call Set World
  deposit_event e s = record s { events = s.events ++ e ∷ [] }

  -- `StorageMap::try_mutate`: what the closure leaves is written if it succeeds.
  unfoldable pub try_mutate :
      {A : Type 0}
      → ℕ
      → (Option (MotionInfo Call Set) → (Error × ℕ) ⊎ (A × Option (MotionInfo Call Set)))
      → Storage Call Set World
      → (Error × ℕ) ⊎ (A × Storage Call Set World)
  try_mutate hash f s = elim (f (s.motions hash)) [
    | inl e ↦ inl e
    | inr (a, m) ↦ inr (a, record s { motions = put hash m s.motions })
  ]

  unfoldable pub motion_remove : ℕ → Storage Call Set World → Storage Call Set World
  unfolding deposit_event
  motion_remove hash s =
      deposit_event (motion_removed hash) (record s { motions = put hash none s.motions })

-- `PostDispatchInfo { actual_weight: Some(w), pays_fee: Pays::No }`, and the default.
abbrev pub used : {Weight : Type 0} → Weight → PostInfo Weight
used w = record { actual_weight = some w; pays_no = true }

abbrev pub default_info : {Weight : Type 0} → PostInfo Weight
default_info = record { actual_weight = none; pays_no = false }

module _ {Origin Call Set Weight World : Type 0} (rt : Runtime Origin Call Set Weight World) where
  open rt use {sets, weights}

  abbrev pub Motion : Type 0
  Motion = MotionInfo Call Set

  insert_approval : Motion → Insertion Set → ℕ → (Error × ℕ) ⊎ ((Bool × ℕ) × Option Motion)
  insert_approval m (inserted approvals) total =
      inr ((false, total), some (record m { approvals = approvals }))
  insert_approval m present total = inl (motion_already_approved, total)
  insert_approval m full total = inl (motion_approval_exceeds_bounds, total)

  new_motion : Call → ℕ → Insertion Set → (Error × ℕ) ⊎ ((Bool × ℕ) × Option Motion)
  new_motion call block (inserted approvals) = inr (
    (true, 1),
    some (record {
      approvals = approvals;
      ends_block = saturating_u32 (block + rt.motion_duration);
      call = call;
    }),
  )
  new_motion call block present = inr (
    (true, 1),
    some (record {
      approvals = sets.empty;
      ends_block = saturating_u32 (block + rt.motion_duration);
      call = call;
    }),
  )
  new_motion call block full = inl (motion_approval_exceeds_bounds, 0)

  -- The closure of `motion_approve`.
  unfoldable pub approve_entry :
      ℕ → Call → ℕ → Option Motion → (Error × ℕ) ⊎ ((Bool × ℕ) × Option Motion)
  unfolding insert_approval new_motion
  approve_entry auth call block (some m) =
      if has_ended block m
      then inl (motion_has_ended, sets.len m.approvals)
      else insert_approval m (sets.try_insert auth m.approvals) (sets.len m.approvals)
  approve_entry auth call block none = new_motion call block (sets.try_insert auth sets.empty)

  approve_error : Error → ℕ → PostInfo Weight
  approve_error motion_has_ended n = used weights.motion_approve_ended
  approve_error motion_already_approved n = used (weights.motion_approve_already_approved n)
  approve_error motion_approval_exceeds_bounds n = used weights.motion_approve_exceeds_bounds
  approve_error _ n = default_info

  unfoldable pub approve_by :
      ℕ → Call → Storage Call Set World → Outcome Weight × Storage Call Set World
  unfolding try_mutate approve_entry approve_error deposit_event
  approve_by auth call s =
      let hash = rt.hash_of call in
      elim (try_mutate hash (approve_entry auth call s.block_number) s) [
        | inl (e, total) ↦ (failed (approve_error e total) e, s)
        | inr ((is_new, total), s') ↦ (
          done (used (if is_new then weights.motion_approve_new else weights.motion_approve total)),
          deposit_event (motion_approved hash auth) s',
        )
      ]

  unfoldable pub motion_approve :
      Origin → Call → Storage Call Set World → Outcome Weight × Storage Call Set World
  unfolding approve_by
  motion_approve origin call s = elim (rt.ensure_approval_origin origin) [
    | none ↦ (failed default_info bad_origin, s)
    | some auth ↦ approve_by auth call s
  ]

  -- The closure of `motion_revoke`; the counts are those after and before the removal.
  unfoldable pub revoke_entry : ℕ → ℕ → Option Motion → (Error × ℕ) ⊎ ((ℕ × ℕ) × Option Motion)
  revoke_entry auth block none = inl (motion_not_found, 0)
  revoke_entry auth block (some m) =
      let initial = sets.len m.approvals in
      let (found, rest) = sets.remove auth m.approvals in
      if has_ended block m
      then inl (motion_has_ended, initial)
      else if found
      then inr ((sets.len rest, initial), some (record m { approvals = rest }))
      else inl (motion_approval_missing, initial)

  revoke_error : Error → ℕ → PostInfo Weight
  revoke_error motion_not_found n = used weights.motion_revoke_not_found
  revoke_error motion_has_ended n = used weights.motion_revoke_ended
  revoke_error motion_approval_missing n = used (weights.motion_revoke_approval_missing n)
  revoke_error _ n = default_info

  unfoldable pub revoke_by :
      ℕ → ℕ → Storage Call Set World → Outcome Weight × Storage Call Set World
  unfolding try_mutate revoke_entry revoke_error deposit_event motion_remove
  revoke_by auth hash s = elim (try_mutate hash (revoke_entry auth s.block_number) s) [
    | inl (e, total) ↦ (failed (revoke_error e total) e, s)
    | inr ((final, initial), s') ↦
        let s'' = deposit_event (motion_revoked hash auth) s' in
        if final == 0
        then (done (used weights.motion_revoke_remove), motion_remove hash s'')
        else (done (used (weights.motion_revoke initial)), s'')
  ]

  unfoldable pub motion_revoke :
      Origin → ℕ → Storage Call Set World → Outcome Weight × Storage Call Set World
  unfolding revoke_by
  motion_revoke origin hash s = elim (rt.ensure_revoke_origin origin) [
    | none ↦ (failed default_info bad_origin, s)
    | some auth ↦ revoke_by auth hash s
  ]

  abbrev pub is_motion_approved : ℕ → Bool
  is_motion_approved total = rt.reached_proportion total sets.bound

  close_result : Motion → Result (Unit {0}) → Outcome Weight
  close_result m (ok _) =
      done
        (used (weights.saturating_add weights.motion_close_approved (weights.call_weight m.call)))
  close_result m (err e) = failed default_info e

  -- The branch of `motion_close` that dispatches the call as root, in a storage layer of its own.
  unfoldable pub close_approved :
      ℕ → Motion → Storage Call Set World → Outcome Weight × Storage Call Set World
  unfolding deposit_event motion_remove close_result
  close_approved hash m s =
      let (motion_result, s') = rt.with_storage_layer (rt.dispatch_root m.call) s in
      (
        close_result m motion_result,
        motion_remove hash (deposit_event (motion_dispatched hash motion_result) s'),
      )

  unfoldable pub close_motion :
      ℕ → Motion → Storage Call Set World → Outcome Weight × Storage Call Set World
  unfolding close_approved deposit_event motion_remove
  close_motion hash m s =
      if is_motion_approved (sets.len m.approvals)
      then close_approved hash m s
      else if not (has_ended s.block_number m)
      then (failed (used weights.motion_close_still_ongoing) motion_not_ended, s)
      else (
        done (used weights.motion_close_expired),
        motion_remove hash (deposit_event (motion_expired hash) s),
      )

  unfoldable pub motion_close :
      Origin → ℕ → Storage Call Set World → Outcome Weight × Storage Call Set World
  unfolding close_motion
  motion_close origin hash s = elim (rt.ensure_signed origin) [
    | none ↦ (failed default_info bad_origin, s)
    | some who ↦ elim (s.motions hash) [
      | none ↦ (failed (used weights.motion_close_not_found) motion_not_found, s)
      | some m ↦ close_motion hash m s
    ]
  ]
