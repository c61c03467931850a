-- ===== src/FilteringPool/Policy.antt =====
-- Which extrinsics pass the filter.
use midnight_node.Prelude.{
  ℕ, ◌≡◌, refl, ap, ◌∙◌, filter, Bool, true, false, ◌||◌, not, Option, none, some, List, [], ◌∷◌,
  arith,
}
use midnight_node.Midnight.Types.{Result, ok, err}
use midnight_node.FilteringPool.{
  Op, call, deploy, maintain, claim_rewards, Tx, TxFilterConfig, Metrics, Prometheus, RuntimeCall,
  send_mn_transaction, other, Runtime, any_forbidden, is_forbidden_op, is_forbidden_tx,
  accept_decoded, accept_call, should_accept_extrinsic, filter_extrinsics, submit_at, receive,
  submit_one,
}

-- The operations that the policy denies.
abbrev pub is_denied : TxFilterConfig → Op → Bool
is_denied c (call address entry_point) = false
is_denied c (deploy address) = c.deny_deploy
is_denied c (maintain address) = c.deny_maintain
is_denied c (claim_rewards value) = false

abbrev pub has_denied : TxFilterConfig → List Op → Bool
has_denied c [] = false
has_denied c (op ∷ ops) = is_denied c op || has_denied c ops

-- What the policy says of a call at a block, with no look at the metrics.
abbrev pub allowed_tx : TxFilterConfig → Result ℕ (Result ℕ Tx) → Bool
allowed_tx c (err e) = false
allowed_tx c (ok (err e)) = false
allowed_tx c (ok (ok tx)) = not (has_denied c tx.operations)

any_forbidden-has_denied :
    {CounterVec : Type 0} (p : Prometheus CounterVec) (c : TxFilterConfig) (ops : List Op)
    (m : Metrics CounterVec)
    → (any_forbidden p c ops m).0 ≡ has_denied c ops
unfolding any_forbidden is_forbidden_op
any_forbidden-has_denied p c [] m = refl
any_forbidden-has_denied p c (call a e ∷ ops) m = any_forbidden-has_denied p c ops m
any_forbidden-has_denied p c (deploy a ∷ ops) m = ground (arith, any_forbidden-has_denied p c ops m)
any_forbidden-has_denied p c (maintain a ∷ ops) m =
    ground (arith, any_forbidden-has_denied p c ops m)
any_forbidden-has_denied p c (claim_rewards v ∷ ops) m = any_forbidden-has_denied p c ops m

accept_decoded-allowed :
    {CounterVec : Type 0} (p : Prometheus CounterVec) (c : TxFilterConfig)
    (r : Result ℕ (Result ℕ Tx)) (m : Metrics CounterVec)
    → (accept_decoded p c r m).0 ≡ allowed_tx c r
unfolding accept_decoded is_forbidden_tx
accept_decoded-allowed p c (err e) m = refl
accept_decoded-allowed p c (ok (err e)) m = refl
accept_decoded-allowed p c (ok (ok tx)) m =
    ground (arith, any_forbidden-has_denied p c tx.operations m)

module _ {Extrinsic Block PoolError TxHash Stream World : Type 0}
    (rt : Runtime Extrinsic Block PoolError TxHash Stream World) (c : TxFilterConfig) where
  -- An extrinsic that does not decode, and any call but `send_mn_transaction`, is allowed.
  abbrev allowed_call : Block → Option RuntimeCall → Bool
  allowed_call at none = true
  allowed_call at (some other) = true
  allowed_call at (some (send_mn_transaction tx)) = allowed_tx c (rt.get_decoded_transaction at tx)

  abbrev pub allowed : Block → Extrinsic → Bool
  allowed at xt = not c.enabled || allowed_call at (rt.decode_extrinsic xt)

module _ {CounterVec Extrinsic Block PoolError TxHash Stream World : Type 0}
    (p : Prometheus CounterVec) (rt : Runtime Extrinsic Block PoolError TxHash Stream World)
    (c : TxFilterConfig) where
  accept_call-allowed :
      (at : Block) (call' : Option RuntimeCall) (m : Metrics CounterVec)
      → (accept_call p rt c at call' m).0 ≡ allowed_call rt c at call'
  unfolding accept_call
  accept_call-allowed at none m = refl
  accept_call-allowed at (some other) m = refl
  accept_call-allowed at (some (send_mn_transaction tx)) m =
      accept_decoded-allowed p c (rt.get_decoded_transaction at tx) m

  pub should_accept_extrinsic-allowed :
      (at : Block) (xt : Extrinsic) (m : Metrics CounterVec)
      → (should_accept_extrinsic p rt c at xt m).0 ≡ allowed rt c at xt
  unfolding should_accept_extrinsic
  should_accept_extrinsic-allowed at xt m =
      ground (arith, accept_call-allowed at (rt.decode_extrinsic xt) (receive m))

  filter_extrinsics-allowed :
      (at : Block) (xts : List Extrinsic) (m : Metrics CounterVec)
      → (filter_extrinsics p rt c at xts m).0 ≡ filter (allowed rt c at) xts
  unfolding filter_extrinsics
  filter_extrinsics-allowed at [] m = refl
  filter_extrinsics-allowed at (xt ∷ xts) m =
      let m' = (should_accept_extrinsic p rt c at xt m).1 in
      ground (arith, should_accept_extrinsic-allowed at xt m, filter_extrinsics-allowed at xts m')

  -- The inner pool gets exactly the extrinsics that the policy allows, in their order and whatever
  -- the metrics; its answer and its new state are the result.
  pub submit_at-allowed :
      (at : Block) (xts : List Extrinsic) (m : Metrics CounterVec) (w : World)
      → let (result, m', w') = submit_at p rt c at xts (m, w) in
        let inner = rt.inner_submit_at at (filter (allowed rt c at) xts) w in
        (result ≡ inner.0) × (w' ≡ inner.1)
  unfolding submit_at
  submit_at-allowed at xts m w =
      let e = filter_extrinsics-allowed at xts m in
      (ap (λ ys. (rt.inner_submit_at at ys w).0) e, ap (λ ys. (rt.inner_submit_at at ys w).1) e)

  -- One extrinsic reaches the inner pool exactly if the policy allows it, and is otherwise dropped
  -- with no change of the inner pool.
  submit_one-allowed :
      (at : Block) (xt : Extrinsic) (m : Metrics CounterVec) (w : World)
      → let (result, m', w') = submit_one p rt c at xt (m, w) in
        (allowed rt c at xt ≡ true
          → (result ≡ (rt.inner_submit_one at xt w).0) × (w' ≡ (rt.inner_submit_one at xt w).1))
        × (allowed rt c at xt ≡ false → (result ≡ err rt.immediately_dropped) × (w' ≡ w))
  unfolding submit_one
  submit_one-allowed at xt m w =
      let e = should_accept_extrinsic-allowed at xt m in
      (λ h. rw (e ∙ h) (refl, refl), λ h. rw (e ∙ h) (refl, refl))
