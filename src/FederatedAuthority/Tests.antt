-- ===== src/FederatedAuthority/Tests.antt =====
-- A runtime with two authority bodies, as the node's is configured, runs of the pallet under it,
-- and the theorems at concrete storages.
mod Sets
use Sets.{Pair, nobody, one, two, pair_sets}
use midnight_node.Prelude.{
  ℕ, ◌+◌, ◌*◌, ◌≤◌, ◌<◌, ◌≡◌, ◌≢◌, ◌↔◌, ◌⊎◌, refl, Bool, true, false, Option, none, some, List, [],
  ◌∷◌, ◌++◌, arith, put, leb, ◌==◌, if◌then◌else◌, All, inl, inr, Bool-cases,
}
use midnight_node.FederatedAuthority.Types.{
  Error, motion_not_ended, dispatched, motion_already_approved, Result, ok, err, Event,
  motion_approved, motion_dispatched, motion_expired, motion_revoked, motion_removed, MotionInfo,
  Storage, PostInfo, Outcome, done, failed, Runtime, Weights,
}
use midnight_node.FederatedAuthority.Calls.{
  motion_approve, motion_revoke, motion_close, default_info, used,
}
use midnight_node.FederatedAuthority.Origins.{reached_proportion, AuthorityBody, ensure_from_bodies}
use midnight_node.FederatedAuthority.Approvals.{
  IsFailed, Approves, Revokes, motion_approve-Approves, motion_revoke-Revokes,
}
use midnight_node.FederatedAuthority.Closing.{
  motion_close_dispatched, motion_close_call_failed, motion_close_guarded, motion_close_in_layer,
}
use midnight_node.FederatedAuthority.Invariant.{IsSound, Inv, KeepsInv}
use midnight_node.FederatedAuthority.History.{Reach, here, next, Step, approve, Reach-Inv}
use midnight_node.FederatedAuthority.Given.{Gave, GivesNone}
use midnight_node.FederatedAuthority.Unanimity.{motion_close_unanimous}

abbrev weights : Weights ℕ ℕ
weights = record {
  motion_approve = λ n. n;
  motion_approve_already_approved = λ n. n + 1;
  motion_approve_new = 20;
  motion_approve_ended = 21;
  motion_approve_exceeds_bounds = 22;
  motion_revoke = λ n. n + 2;
  motion_revoke_approval_missing = λ n. n + 3;
  motion_revoke_remove = 23;
  motion_revoke_not_found = 24;
  motion_revoke_ended = 25;
  motion_close_approved = 26;
  motion_close_expired = 27;
  motion_close_not_found = 28;
  motion_close_still_ongoing = 29;
  call_weight = λ call. call;
  saturating_add = ◌+◌;
}

abbrev State : Type 0
State = Storage ℕ Pair ℕ

-- Call 7 fails after it has changed the chain.
abbrev dispatch : ℕ → State → Result (Unit {0}) × State
dispatch call s =
    if call == 7
    then (err (dispatched 7), record s { world = 999 })
    else (ok tt, record s { world = s.world + call })

abbrev roll_back : State → Result (Unit {0}) × State → Result (Unit {0}) × State
roll_back s (ok _, s') = (ok tt, s')
roll_back s (err e, s') = (err e, s)

roll_back_ok : (s : State) (r : Result (Unit {0}) × State) → r.0 ≡ ok tt → roll_back s r ≡ r
roll_back_ok s (ok _, s') e = refl
roll_back_ok s (err f, s') e = cc

roll_back_err :
    (s : State) (r : Result (Unit {0}) × State) (e : Error)
    → r.0 ≡ err e
    → roll_back s r ≡ (err e, s)
roll_back_err s (ok _, s') e h = cc
roll_back_err s (err f, s') e h = cc

-- Origins 0 and 1 are the two bodies, and every origin is signed.
abbrev rt : Runtime ℕ ℕ Pair ℕ ℕ
rt = record {
  sets = pair_sets;
  weights = weights;
  ensure_approval_origin = λ o. if leb o 1 then some o else none;
  ensure_revoke_origin = λ o. if leb o 1 then some o else none;
  ensure_signed = λ o. some o;
  hash_of = λ call. call + 100;
  motion_duration = 50;
  reached_proportion = reached_proportion 1 1;
  dispatch_root = dispatch;
  with_storage_layer = λ f s. roll_back s (f s);
  layer_ok = λ f s. roll_back_ok s (f s);
  layer_err = λ f s. roll_back_err s (f s);
}

abbrev genesis : State
genesis = record { motions = λ hash. none; block_number = 10; events = []; world = 0 }

-- Both bodies have approved call 5, under hash 105, and one has approved call 7.
abbrev both : MotionInfo ℕ Pair
both = record { approvals = two 0 0; ends_block = 60; call = 5 }

abbrev failing : MotionInfo ℕ Pair
failing = record { approvals = two 0 0; ends_block = 60; call = 7 }

abbrev single : MotionInfo ℕ Pair
single = record { approvals = one 1; ends_block = 60; call = 6 }

abbrev voted : State
voted = record {
  motions = put 105 (some both) (put 107 (some failing) (put 106 (some single) (λ hash. none)));
  block_number = 12;
  events = [];
  world = 0;
}

approved_twice : (motion_approve rt 1 5 (motion_approve rt 0 5 genesis).1).1.motions 105 ≡ some both
unfolding motion_approve
approved_twice = refl

approved_again :
    (motion_approve rt 0 5 (motion_approve rt 0 5 genesis).1).0
    ≡ failed (used 2) motion_already_approved
unfolding motion_approve
approved_again = refl

abbrev council : AuthorityBody ℕ
council = record { index = 40; accepts = λ o. o == 1 }

abbrev committee : AuthorityBody ℕ
committee = record { index = 42; accepts = λ o. o == 2 }

abbrev bodies : List (AuthorityBody ℕ)
bodies = council ∷ committee ∷ []

motion_approve-Approves_example :
    let (out, t) = motion_approve rt 0 6 voted in
    (IsFailed rt out × (t ≡ voted))
    ⊎ ((auth : ℕ) × (rt.ensure_approval_origin 0 ≡ some auth) × Approves rt voted t 106 auth)
motion_approve-Approves_example = motion_approve-Approves rt 0 6 voted

motion_revoke-Revokes_example :
    let (out, t) = motion_revoke rt 1 106 voted in
    (IsFailed rt out × (t ≡ voted))
    ⊎ ((auth : ℕ) × (rt.ensure_revoke_origin 1 ≡ some auth) × Revokes rt voted t 106 auth)
motion_revoke-Revokes_example = motion_revoke-Revokes rt 1 106 voted

motion_close_dispatched_example : motion_close rt 9 105 voted ≡ (
  done (used 31),
  record voted {
    motions = put 105 none voted.motions;
    events = motion_dispatched 105 (ok tt) ∷ motion_removed 105 ∷ [];
    world = 5;
  },
)
unfolding reached_proportion
motion_close_dispatched_example = motion_close_dispatched rt 9 105 9 both voted refl refl refl refl

abbrev call_layer : (State → Outcome ℕ × State) → State → Outcome ℕ × State
call_layer f s = elim (f s).0 [ done info ↦ f s | failed info e ↦ (failed info e, s) ]

motion_close_in_layer_example :
    call_layer (motion_close rt 9 107) voted ≡ (failed default_info (dispatched 7), voted)
unfolding reached_proportion
motion_close_in_layer_example =
    motion_close_in_layer rt call_layer (λ f s info e h. rw (h, call_layer)) 9 107 9 failing voted
      (dispatched 7) refl refl refl refl

dispatch-KeepsInv : KeepsInv rt
dispatch-KeepsInv call s inv = elim (Bool-cases (call == 7)) [ inl e ↦ rw e inv | inr e ↦ rw e inv ]

genesis-Inv : Inv rt genesis
genesis-Inv hash = tt

abbrev session : Reach rt genesis (motion_approve rt 1 5 (motion_approve rt 0 5 genesis).1).1
session = next (next here (approve 0 5)) (approve 1 5)

Reach-Inv_example : Inv rt (motion_approve rt 1 5 (motion_approve rt 0 5 genesis).1).1
Reach-Inv_example = Reach-Inv rt dispatch-KeepsInv genesis-Inv session

abbrev seats : List (AuthorityBody ℕ)
seats =
    record { index = 0; accepts = λ o. o == 0 } ∷ record { index = 1; accepts = λ o. o == 1 } ∷ []

seats_lem : (o : ℕ) → rt.ensure_approval_origin o ≡ ensure_from_bodies seats o
unfolding ensure_from_bodies
seats_lem o = ground arith

dispatch-GivesNone : GivesNone rt
dispatch-GivesNone call s hash auth there = elim (Bool-cases (call == 7)) [
  | inl e ↦ ground (arith, there, e)
  | inr e ↦ ground (arith, there, e)
]

motion_close_unanimous_example :
    let t = (motion_approve rt 1 5 (motion_approve rt 0 5 genesis).1).1 in
    (m : MotionInfo ℕ Pair) × (t.motions 105 ≡ some m)
    × (rt.sets.len m.approvals ≡ 2)
    × (m.call + 100 ≡ 105)
    × ((motion_close rt 9 105 t).1.world ≡ (dispatch m.call t).1.world)
    × All (λ b. Gave rt genesis 105 b.index t session) seats
unfolding motion_close motion_approve reached_proportion
motion_close_unanimous_example =
    motion_close_unanimous rt seats 9 105 (λ n d. refl) seats_lem (omega arith) (omega arith)
      dispatch-KeepsInv dispatch-GivesNone (λ h. refl) session (omega arith)

motion_close_guarded_example :
    (m : MotionInfo ℕ Pair) × (voted.motions 105 ≡ some m)
    × (reached_proportion 1 1 (rt.sets.len m.approvals) 2 ≡ true)
    × ((dispatch m.call voted).0 ≡ ok tt)
    × ((motion_close rt 9 105 voted).1.world ≡ (dispatch m.call voted).1.world)
unfolding motion_close reached_proportion
motion_close_guarded_example = motion_close_guarded rt 9 105 voted (omega arith)
