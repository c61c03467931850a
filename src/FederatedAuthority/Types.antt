-- ===== src/FederatedAuthority/Types.antt =====
-- The data of the pallet, and the interface of what it calls. Hashes, authority ids, account ids
-- and block numbers are natural numbers: the code compares them, adds a duration to a block number
-- and does nothing else with them.
use midnight_node.Prelude.{
  ℕ, ◌+◌, ◌≤◌, ◌≡◌, ◌≢◌, ◌⊎◌, inl, inr, refl, Bool, true, false, Option, List,
}

pub data Error : Type 0 where
  motion_already_approved motion_approval_missing motion_approval_exceeds_bounds : Error
  motion_not_found motion_not_ended motion_has_ended : Error
  -- An error of `ensure_origin` or `ensure_signed`.
  bad_origin : Error
  -- An error of the dispatched call, by its code.
  dispatched : ℕ → Error

pub data Result (A : Type 0) : Type 0 where
  ok : A → Result A
  err : Error → Result A

pub Result-cases : (r : Result (Unit {0})) → (r ≡ ok tt) ⊎ ((e : Error) × (r ≡ err e))
Result-cases (ok _) = inl refl
Result-cases (err e) = inr (e, refl)

pub data Event : Type 0 where
  motion_approved : ℕ → ℕ → Event
  motion_dispatched : ℕ → Result (Unit {0}) → Event
  motion_expired : ℕ → Event
  motion_revoked : ℕ → ℕ → Event
  motion_removed : ℕ → Event

-- The answer of `BoundedBTreeSet::try_insert`: inserted, there already, or no room.
pub data Insertion (Set : Type 0) : Type 0 where
  inserted : Set → Insertion Set
  present : Insertion Set
  full : Insertion Set

pub Insertion-cases :
    {Set : Type 0} (i : Insertion Set) → ((t : Set) × (i ≡ inserted t)) ⊎ (i ≡ present) ⊎ (i ≡ full)
Insertion-cases (inserted t) = inl (t, refl)
Insertion-cases present = inr (inl refl)
Insertion-cases full = inr (inr refl)

-- FRAME's `BoundedBTreeSet<AuthId, MaxAuthorityBodies>`, by its documented behaviour.
pub record BoundedSet (Set : Type 0) : Type 0 where
  pub empty : Set
  pub len : Set → ℕ
  pub contains : ℕ → Set → Bool
  pub try_insert : ℕ → Set → Insertion Set
  pub remove : ℕ → Set → Bool × Set
  pub bound : ℕ
  pub len-empty : len empty ≡ 0
  pub len_zero : (s : Set) → ((a : ℕ) → contains a s ≡ false) → len s ≡ 0
  pub contains-empty : (a : ℕ) → contains a empty ≡ false
  pub inserted-len : (a : ℕ) (s : Set) {t : Set} → try_insert a s ≡ inserted t → len t ≡ len s + 1
  pub inserted-le : (a : ℕ) (s : Set) {t : Set} → try_insert a s ≡ inserted t → len t ≤ bound
  pub inserted_self :
      (a : ℕ) (s : Set) {t : Set} → try_insert a s ≡ inserted t → contains a t ≡ true
  pub inserted_ne :
      (a b : ℕ) (s : Set) {t : Set}
      → try_insert a s ≡ inserted t
      → b ≢ a
      → contains b t ≡ contains b s
  pub inserted_new :
      (a : ℕ) (s : Set) {t : Set} → try_insert a s ≡ inserted t → contains a s ≡ false
  pub present-contains : (a : ℕ) (s : Set) → try_insert a s ≡ present → contains a s ≡ true
  pub full_new : (a : ℕ) (s : Set) → try_insert a s ≡ full → contains a s ≡ false
  pub full-le : (a : ℕ) (s : Set) → try_insert a s ≡ full → bound ≤ len s
  pub removed-contains : (a : ℕ) (s : Set) → (remove a s).0 ≡ contains a s
  pub removed-len : (a : ℕ) (s : Set) → contains a s ≡ true → len (remove a s).1 + 1 ≡ len s
  pub removed_self : (a : ℕ) (s : Set) → contains a (remove a s).1 ≡ false
  pub removed_ne : (a b : ℕ) (s : Set) → b ≢ a → contains b (remove a s).1 ≡ contains b s

pub record MotionInfo (Call Set : Type 0) : Type 0 where
  pub approvals : Set
  pub ends_block : ℕ
  pub call : Call

-- The storage: the pallet's own map `Motions`, the block number and the events that it takes from
-- `frame_system`, and the rest of the chain, which a dispatched call may change.
pub record Storage (Call Set World : Type 0) : Type 0 where
  pub motions : ℕ → Option (MotionInfo Call Set)
  pub block_number : ℕ
  pub events : List Event
  pub world : World

-- `WeightInfo` of the pallet, with the weight of a call and the saturating sum of two weights.
pub record Weights (Call Weight : Type 0) : Type 0 where
  pub motion_approve : ℕ → Weight
  pub motion_approve_already_approved : ℕ → Weight
  pub motion_approve_new : Weight
  pub motion_approve_ended : Weight
  pub motion_approve_exceeds_bounds : Weight
  pub motion_revoke : ℕ → Weight
  pub motion_revoke_approval_missing : ℕ → Weight
  pub motion_revoke_remove : Weight
  pub motion_revoke_not_found : Weight
  pub motion_revoke_ended : Weight
  pub motion_close_approved : Weight
  pub motion_close_expired : Weight
  pub motion_close_not_found : Weight
  pub motion_close_still_ongoing : Weight
  pub call_weight : Call → Weight
  pub saturating_add : Weight → Weight → Weight

-- `PostDispatchInfo` and `DispatchErrorWithPostInfo`: the weight that was used, with `Pays::No`
-- where `pays_no` is true. An error without such information has the default.
pub record PostInfo (Weight : Type 0) : Type 0 where
  pub actual_weight : Option Weight
  pub pays_no : Bool

pub data Outcome (Weight : Type 0) : Type 0 where
  done : PostInfo Weight → Outcome Weight
  failed : PostInfo Weight → Error → Outcome Weight

-- What the configuration trait supplies, with FRAME's storage layer by its documented behaviour: a
-- closure that fails leaves the storage as it was.
pub record Runtime (Origin Call Set Weight World : Type 0) : Type 0 where
  pub sets : BoundedSet Set
  pub weights : Weights Call Weight
  pub ensure_approval_origin : Origin → Option ℕ
  pub ensure_revoke_origin : Origin → Option ℕ
  pub ensure_signed : Origin → Option ℕ
  pub hash_of : Call → ℕ
  pub motion_duration : ℕ
  pub reached_proportion : ℕ → ℕ → Bool
  pub dispatch_root : Call → Storage Call Set World → Result (Unit {0}) × Storage Call Set World
  pub with_storage_layer :
      (Storage Call Set World → Result (Unit {0}) × Storage Call Set World)
      → Storage Call Set World
      → Result (Unit {0}) × Storage Call Set World
  pub layer_ok :
      (f : Storage Call Set World → Result (Unit {0}) × Storage Call Set World)
      (s : Storage Call Set World)
      → (f s).0 ≡ ok tt
      → with_storage_layer f s ≡ f s
  pub layer_err :
      (f : Storage Call Set World → Result (Unit {0}) × Storage Call Set World)
      (s : Storage Call Set World) (e : Error)
      → (f s).0 ≡ err e
      → with_storage_layer f s ≡ (err e, s)
