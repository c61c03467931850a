-- ===== src/FederatedAuthority/Closing.antt =====
-- What `motion_close` does: the dispatch of an approved motion, the expiry of another, and the
-- storage layer that FRAME puts around the call itself.
use midnight_node.Prelude.{
  ℕ, ◌≤◌, ◌<◌, ◌≡◌, ◌≢◌, true, false, none, some, inl, inr, [], ◌∷◌, ◌++◌, put, arith, Option-cases,
  Bool-cases, ap,
}
use midnight_node.FederatedAuthority.Types.{
  Error, motion_not_ended, ok, err, Result-cases, motion_dispatched, motion_expired, motion_removed,
  MotionInfo, Storage, PostInfo, Outcome, done, failed, Runtime,
}
use midnight_node.FederatedAuthority.Calls.{is_motion_approved, motion_close, used, default_info}

module _ {Origin Call Set Weight World : Type 0} (rt : Runtime Origin Call Set Weight World) where
  open rt use {sets, weights}

  abbrev count : MotionInfo Call Set → ℕ
  count m = sets.len m.approvals

  -- An approved motion whose call succeeds is done: the call has run as root on the storage, the
  -- motion is gone, and the events of the call are followed by two more.
  pub motion_close_dispatched :
      (o : Origin) (hash who : ℕ) (m : MotionInfo Call Set) (s : Storage Call Set World)
      → rt.ensure_signed o ≡ some who
      → s.motions hash ≡ some m
      → is_motion_approved rt (sets.len m.approvals) ≡ true
      → (rt.dispatch_root m.call s).0 ≡ ok tt
      → let s' = (rt.dispatch_root m.call s).1 in
        motion_close rt o hash s ≡ (
          done (
              used (
                weights.saturating_add weights.motion_close_approved (weights.call_weight m.call))),
          record s' {
            motions = put hash none s'.motions;
            events = (s'.events ++ motion_dispatched hash (ok tt) ∷ []) ++ motion_removed hash ∷ [];
          },
        )
  unfolding motion_close
  motion_close_dispatched o hash who m s signed stored reached succeeds =
      ground (arith, rt.layer_ok (rt.dispatch_root m.call) s succeeds)

  -- An approved motion whose call fails is removed too, with the same two events, and the call
  -- returns the error: of the failed call's own changes nothing is left.
  pub motion_close_call_failed :
      (o : Origin) (hash who : ℕ) (m : MotionInfo Call Set) (s : Storage Call Set World) (e : Error)
      → rt.ensure_signed o ≡ some who
      → s.motions hash ≡ some m
      → is_motion_approved rt (sets.len m.approvals) ≡ true
      → (rt.dispatch_root m.call s).0 ≡ err e
      → motion_close rt o hash s ≡ (
        failed default_info e,
        record s {
          motions = put hash none s.motions;
          events = (s.events ++ motion_dispatched hash (err e) ∷ []) ++ motion_removed hash ∷ [];
        },
      )
  unfolding motion_close
  motion_close_call_failed o hash who m s e signed stored reached fails =
      ground (arith, rt.layer_err (rt.dispatch_root m.call) s e fails)

  -- A motion without enough approvals can be closed from its end block on: it is then removed,
  -- with an event. Before, the attempt fails and leaves the storage alone.
  motion_close_unapproved :
      (o : Origin) (hash who : ℕ) (m : MotionInfo Call Set) (s : Storage Call Set World)
      → rt.ensure_signed o ≡ some who
      → s.motions hash ≡ some m
      → is_motion_approved rt (sets.len m.approvals) ≡ false
      → (s.block_number < m.ends_block
          → motion_close rt o hash s
            ≡ (failed (used weights.motion_close_still_ongoing) motion_not_ended, s))
        × (m.ends_block ≤ s.block_number
            → motion_close rt o hash s ≡ (
              done (used weights.motion_close_expired),
              record s {
                motions = put hash none s.motions;
                events = (s.events ++ motion_expired hash ∷ []) ++ motion_removed hash ∷ [];
              },
            ))
  unfolding motion_close
  motion_close_unapproved o hash who m s signed stored short =
      (λ early. ground arith, λ late. ground arith)

  -- A call changes the rest of the chain only through a stored motion that has enough approvals.
  pub motion_close_guarded :
      (o : Origin) (hash : ℕ) (s : Storage Call Set World)
      → (motion_close rt o hash s).1.world ≢ s.world
      → (m : MotionInfo Call Set) × (s.motions hash ≡ some m)
        × (is_motion_approved rt (sets.len m.approvals) ≡ true)
        × ((rt.dispatch_root m.call s).0 ≡ ok tt)
        × ((motion_close rt o hash s).1.world ≡ (rt.dispatch_root m.call s).1.world)
  unfolding motion_close
  motion_close_guarded o hash s changed = elim (Option-cases (rt.ensure_signed o)) [
    | inl unsigned ↦ absurd (changed (ground arith))
    | inr (who, signed) ↦ elim (Option-cases (s.motions hash)) [
      | inl missing ↦ absurd (changed (ground arith))
      | inr (m, stored) ↦ elim (Bool-cases (is_motion_approved rt (sets.len m.approvals))) [
        | inr short ↦ absurd (changed (ground arith))
        | inl reached ↦ elim (Result-cases (rt.dispatch_root m.call s).0) [
          | inr (e, fails) ↦ absurd (
              changed (
                ap (λ r. r.1.world)
                  (motion_close_call_failed o hash who m s e signed stored reached fails)))
          | inl succeeds ↦ (
            m,
            stored,
            reached,
            succeeds,
            ap (λ r. r.1.world)
                (motion_close_dispatched o hash who m s signed stored reached succeeds),
          )
        ]
      ]
    ]
  ]

  -- FRAME runs a call in a storage layer: if the call fails, its changes are undone. With such a
  -- layer around `motion_close`, an approved motion whose call fails is not removed, and no event
  -- is left: the storage is as it was.
  pub motion_close_in_layer :
      (layer : (Storage Call Set World → Outcome Weight × Storage Call Set World)
        → Storage Call Set World
        → Outcome Weight × Storage Call Set World)
      → ((f : Storage Call Set World → Outcome Weight × Storage Call Set World)
            (s : Storage Call Set World) (info : PostInfo Weight) (e : Error)
          → (f s).0 ≡ failed info e
          → layer f s ≡ (failed info e, s))
      → (o : Origin) (hash who : ℕ) (m : MotionInfo Call Set) (s : Storage Call Set World)
        (e : Error)
      → rt.ensure_signed o ≡ some who
      → s.motions hash ≡ some m
      → is_motion_approved rt (sets.len m.approvals) ≡ true
      → (rt.dispatch_root m.call s).0 ≡ err e
      → layer (motion_close rt o hash) s ≡ (failed default_info e, s)
  motion_close_in_layer layer rolls_back o hash who m s e signed stored reached fails =
      rolls_back (motion_close rt o hash) s default_info e
        (ap (λ r. r.0) (motion_close_call_failed o hash who m s e signed stored reached fails))
