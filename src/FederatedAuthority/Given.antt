-- ===== src/FederatedAuthority/Given.antt =====
-- The approvals on record were given in the history.
use midnight_node.Prelude.{
  ℕ, ◌≡◌, sym, ap, ◌∙◌, true, none, some, ◌⊎◌, inl, inr, ◌==◌, arith, Bool-cases, Option-cases, put,
}
use midnight_node.FederatedAuthority.Types.{Result-cases, MotionInfo, Storage, Runtime}
use midnight_node.FederatedAuthority.Calls.{
  motion_approve, motion_revoke, motion_close, is_motion_approved, has_ended,
}
use midnight_node.FederatedAuthority.Approvals.{
  approved, motion_approve-Approves, motion_revoke-Revokes,
}
use midnight_node.FederatedAuthority.Closing.{motion_close_dispatched, motion_close_call_failed}
use midnight_node.FederatedAuthority.History.{
  Step, Reach, here, next, approve, revoke, close, next_block,
}

module _ {Origin Call Set Weight World : Type 0} (rt : Runtime Origin Call Set Weight World) where
  open rt use {sets}

  -- In the history, an origin that is taken for the authority has called `motion_approve` for the
  -- motion of this hash.
  pub data Gave (s : Storage Call Set World) (hash auth : ℕ)
      : (t : Storage Call Set World) → Reach rt s t → Type 0 where
    now :
        {t : Storage Call Set World} (r : Reach rt s t) (o : Origin) (call : Call)
        → rt.ensure_approval_origin o ≡ some auth
        → rt.hash_of call ≡ hash
        → Gave s hash auth (motion_approve rt o call t).1 (next r (approve o call))
    before :
        {t u : Storage Call Set World} (r : Reach rt s t) (st : Step rt t u)
        → Gave s hash auth t r
        → Gave s hash auth u (next r st)

  -- The dispatched calls give no approvals of their own.
  abbrev pub GivesNone : Type 0
  GivesNone =
      (call : Call) (s : Storage Call Set World) (hash auth : ℕ)
      → approved rt (rt.dispatch_root call s).1 hash auth ≡ true
      → approved rt s hash auth ≡ true

  same_motion :
      (s t : Storage Call Set World) (hash auth : ℕ)
      → t.motions hash ≡ s.motions hash
      → approved rt t hash auth ≡ true
      → approved rt s hash auth ≡ true
  same_motion s t hash auth same there = rw (sym same) there

  approve-given :
      (o : Origin) (call : Call) (s : Storage Call Set World) (hash auth : ℕ)
      → approved rt (motion_approve rt o call s).1 hash auth ≡ true
      → (approved rt s hash auth ≡ true)
        ⊎ ((rt.ensure_approval_origin o ≡ some auth) × (rt.hash_of call ≡ hash))
  approve-given o call s hash auth there = elim (motion_approve-Approves rt o call s) [
    | inl (_, same) ↦ inl (sym (ap (λ t. approved rt t hash auth) same) ∙ there)
    | inr (by, taken, a) ↦ elim (Bool-cases (rt.hash_of call == hash)) [
      | inr other ↦ inl (
          same_motion s (motion_approve rt o call s).1 hash auth
            (a.motions_kept hash (ground arith)) there)
      | inl hashed ↦
          let same_hash : rt.hash_of call ≡ hash = ground arith in
          elim (Bool-cases (auth == by)) [
            | inl self ↦ inr (ground arith)
            | inr another ↦ inl (
                rw (sym same_hash) (
                  sym (a.others_kept auth (ground arith))
                  ∙ ap (λ k. approved rt (motion_approve rt o call s).1 k auth) same_hash
                  ∙ there))
          ]
    ]
  ]

  revoke-kept :
      (o : Origin) (h : ℕ) (s : Storage Call Set World) (hash auth : ℕ)
      → approved rt (motion_revoke rt o h s).1 hash auth ≡ true
      → approved rt s hash auth ≡ true
  revoke-kept o h s hash auth there = elim (motion_revoke-Revokes rt o h s) [
    | inl (_, same) ↦ sym (ap (λ t. approved rt t hash auth) same) ∙ there
    | inr (by, taken, a) ↦ elim (Bool-cases (hash == h)) [
      | inr other ↦
          same_motion s (motion_revoke rt o h s).1 hash auth (a.motions_kept hash (ground arith))
            there
      | inl hashed ↦
          let same_hash : hash ≡ h = ground arith in
          let there' =
            sym (ap (λ k. approved rt (motion_revoke rt o h s).1 k auth) same_hash) ∙ there in
          elim (Bool-cases (auth == by)) [
            | inl self ↦
                let same_auth : auth ≡ by = ground arith in rw (same_hash, same_auth) a.was_present
            | inr another ↦ elim a.kept_or_removed [
              | inl (kept, _) ↦ rw same_hash (sym (kept auth (ground arith)) ∙ there')
              | inr (removed, _) ↦ absurd (ground (arith, removed, there'))
            ]
          ]
    ]
  ]

  deleted-kept :
      (s t : Storage Call Set World) (h hash auth : ℕ)
      → t.motions ≡ put h none s.motions
      → approved rt t hash auth ≡ true
      → approved rt s hash auth ≡ true
  deleted-kept s t h hash auth same there = elim (Bool-cases (hash == h)) [
    | inl self ↦ absurd (ground (arith, there, ap (λ f. f hash) same, self))
    | inr other ↦ ground (arith, there, ap (λ f. f hash) same, other)
  ]

  close_motion-kept :
      (o : Origin) (h who : ℕ) (m : MotionInfo Call Set) (s : Storage Call Set World)
      (hash auth : ℕ)
      → GivesNone
      → rt.ensure_signed o ≡ some who
      → s.motions h ≡ some m
      → approved rt (motion_close rt o h s).1 hash auth ≡ true
      → approved rt s hash auth ≡ true
  unfolding motion_close
  close_motion-kept o h who m s hash auth none_given signed stored there =
      let t = (motion_close rt o h s).1 in
      elim (Bool-cases (is_motion_approved rt (sets.len m.approvals))) [
        | inl reached ↦ elim (Result-cases (rt.dispatch_root m.call s).0) [
          | inl succeeds ↦
              let is = motion_close_dispatched rt o h who m s signed stored reached succeeds in
              let s' = (rt.dispatch_root m.call s).1 in
              none_given m.call s hash auth
                (deleted-kept s' t h hash auth (ap (λ r. r.1.motions) is) there)
          | inr (e, fails) ↦
              let is = motion_close_call_failed rt o h who m s e signed stored reached fails in
              deleted-kept s t h hash auth (ap (λ r. r.1.motions) is) there
        ]
        | inr short ↦ elim (Bool-cases (has_ended s.block_number m)) [
          | inl late ↦ deleted-kept s t h hash auth (ground arith) there
          | inr early ↦ same_motion s t hash auth (ground arith) there
        ]
      ]

  close-kept :
      (o : Origin) (h : ℕ) (s : Storage Call Set World) (hash auth : ℕ)
      → GivesNone
      → approved rt (motion_close rt o h s).1 hash auth ≡ true
      → approved rt s hash auth ≡ true
  unfolding motion_close
  close-kept o h s hash auth none_given there = elim (Option-cases (rt.ensure_signed o)) [
    | inl unsigned ↦ ground (arith, there, unsigned)
    | inr (who, signed) ↦ elim (Option-cases (s.motions h)) [
      | inl missing ↦ ground (arith, there, signed, missing)
      | inr (m, stored) ↦ close_motion-kept o h who m s hash auth none_given signed stored there
    ]
  ]

  -- An approval on record was given in the history.
  pub approved-Gave :
      {s t : Storage Call Set World}
      → GivesNone
      → ((h : ℕ) → s.motions h ≡ none)
      → (r : Reach rt s t) (hash auth : ℕ) → approved rt t hash auth ≡ true
      → Gave s hash auth t r
  approved-Gave none_given empty here hash auth there = absurd (cc (empty hash))
  approved-Gave none_given empty (next {t} r (approve o call)) hash auth there =
      elim (approve-given o call t hash auth there) [
        | inl old ↦ before r (approve o call) (approved-Gave none_given empty r hash auth old)
        | inr (taken, hashed) ↦ now r o call taken hashed
      ]
  approved-Gave none_given empty (next {t} r (revoke o h)) hash auth there =
      before r (revoke o h)
        (approved-Gave none_given empty r hash auth (revoke-kept o h t hash auth there))
  approved-Gave none_given empty (next {t} r (close o h)) hash auth there =
      before r (close o h)
        (approved-Gave none_given empty r hash auth (close-kept o h t hash auth none_given there))
  approved-Gave none_given empty (next r next_block) hash auth there =
      before r next_block (approved-Gave none_given empty r hash auth there)

  pub Gave-origin :
      (s : Storage Call Set World) (hash auth : ℕ) {t : Storage Call Set World} {r : Reach rt s t}
      → Gave s hash auth t r
      → (o : Origin) × (rt.ensure_approval_origin o ≡ some auth)
  Gave-origin s hash auth (now r o call taken hashed) = (o, taken)
  Gave-origin s hash auth (before r st gave) = Gave-origin s hash auth gave
