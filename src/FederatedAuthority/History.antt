-- ===== src/FederatedAuthority/History.antt =====
-- The calls and the passing of blocks as a step relation, and what holds of every history.
use midnight_node.Prelude.{ℕ, ◌+◌, Option, none, some, arith}
use midnight_node.FederatedAuthority.Types.{MotionInfo, Storage, Runtime}
use midnight_node.FederatedAuthority.Calls.{motion_approve, motion_revoke, motion_close}
use midnight_node.FederatedAuthority.Invariant.{
  Inv, KeepsInv, motion_approve-Inv, motion_revoke-Inv, motion_close-Inv, IsSoundEntry,
}

module _ {Origin Call Set Weight World : Type 0} (rt : Runtime Origin Call Set Weight World) where
  open rt use {sets}

  pub data Step (s : Storage Call Set World) : Storage Call Set World → Type 0 where
    approve : (o : Origin) (call : Call) → Step s (motion_approve rt o call s).1
    revoke : (o : Origin) (hash : ℕ) → Step s (motion_revoke rt o hash s).1
    close : (o : Origin) (hash : ℕ) → Step s (motion_close rt o hash s).1
    next_block : Step s (record s { block_number = s.block_number + 1 })

  pub data Reach (s : Storage Call Set World) : Storage Call Set World → Type 0 where
    here : Reach s s
    next : {t u : Storage Call Set World} → Reach s t → Step t u → Reach s u

  later-IsSoundEntry :
      (block hash : ℕ) (entry : Option (MotionInfo Call Set))
      → IsSoundEntry rt block hash entry
      → IsSoundEntry rt (block + 1) hash entry
  later-IsSoundEntry block hash none sound = tt
  later-IsSoundEntry block hash (some m) sound = record {
    approved_once = sound.approved_once;
    within_bound = sound.within_bound;
    hashed = sound.hashed;
    ends_soon = omega (arith, sound.ends_soon);
  }

  Step-Inv : {s t : Storage Call Set World} → KeepsInv rt → Step s t → Inv rt s → Inv rt t
  Step-Inv {s} keeps (approve o call) inv = motion_approve-Inv rt o call s inv
  Step-Inv {s} keeps (revoke o hash) inv = motion_revoke-Inv rt o hash s inv
  Step-Inv {s} keeps (close o hash) inv = motion_close-Inv rt o hash s keeps inv
  Step-Inv {s} keeps next_block inv =
      λ hash. later-IsSoundEntry s.block_number hash (s.motions hash) (inv hash)

  -- If the dispatched calls keep the motions sound, every history does: each stored motion has an
  -- approval and at most as many as there are bodies, is stored under the hash of its call, and ends
  -- within the duration of a motion.
  pub Reach-Inv : {s t : Storage Call Set World} → KeepsInv rt → Inv rt s → Reach s t → Inv rt t
  Reach-Inv keeps inv here = inv
  Reach-Inv keeps inv (next r st) = Step-Inv keeps st (Reach-Inv keeps inv r)
