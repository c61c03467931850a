-- ===== src/FilteringPool.antt =====
-- The transaction pool that keeps deployments and maintenance out: node/src/filtering_pool.rs, with
-- `Op` and `Tx` of ledger/src/common/types.rs. The inner pool, the decoding of an extrinsic and the
-- runtime call that decodes a transaction are parameters.
pub mod Policy
pub mod Accounting
mod Tests
use midnight_node.Prelude.{
  ℕ, suc, Bool, true, false, ◌&&◌, ◌||◌, Option, none, some, List, [], ◌∷◌, if◌then◌else◌,
}
use midnight_node.Midnight.Types.{Bytes, Result, ok, err}

pub data Op : Type 0 where
  call : Bytes → Bytes → Op
  deploy : Bytes → Op
  maintain : Bytes → Op
  claim_rewards : ℕ → Op

pub record Tx : Type 0 where
  pub hash : ℕ
  pub operations : List Op
  pub identifiers : List Bytes
  pub has_fallible_coins : Bool
  pub has_guaranteed_coins : Bool

pub record TxFilterConfig : Type 0 where
  pub enabled : Bool
  pub deny_deploy : Bool
  pub deny_maintain : Bool

abbrev pub enabled_config : TxFilterConfig
enabled_config = record { enabled = true; deny_deploy = true; deny_maintain = true }

abbrev pub disabled_config : TxFilterConfig
disabled_config = record { enabled = false; deny_deploy = false; deny_maintain = false }

-- `DEPLOY`, `MAINTAIN` and `PARSE_ERROR`.
pub data Label : Type 0 where
  deploy_label maintain_label parse_error_label : Label

-- The names of the labels that the counter of denials is made with.
abbrev pub labels : List Label
labels = deploy_label ∷ maintain_label ∷ parse_error_label ∷ []

-- `CounterVec` of prometheus: one made with names of labels, and the increment of the counter that
-- the values of these labels select, `none` where `get_metric_with_label_values` gives an error.
pub record Prometheus (CounterVec : Type 0) : Type 0 where
  pub new_counter_vec : List Label → CounterVec
  pub inc_with_label_values : List Label → CounterVec → Option CounterVec

-- `FilteringMetrics`, where a registry is given.
pub record Metrics (CounterVec : Type 0) : Type 0 where
  pub received : ℕ
  pub forwarded : ℕ
  pub denied : CounterVec

abbrev pub new : {CounterVec : Type 0} → Prometheus CounterVec → Metrics CounterVec
new p = record { received = 0; forwarded = 0; denied = p.new_counter_vec labels }

abbrev pub receive : {CounterVec : Type 0} → Metrics CounterVec → Metrics CounterVec
receive m = record m { received = suc m.received }

abbrev pub forward : {CounterVec : Type 0} → Metrics CounterVec → Metrics CounterVec
forward m = record m { forwarded = suc m.forwarded }

-- The runtime call that an extrinsic decodes to.
pub data RuntimeCall : Type 0 where
  send_mn_transaction : Bytes → RuntimeCall
  other : RuntimeCall

-- The decoding of an extrinsic, `get_decoded_transaction` of the runtime at a block, and the inner
-- pool, which has a state of its own.
pub record Runtime (Extrinsic Block PoolError TxHash Stream World : Type 0) : Type 0 where
  pub decode_extrinsic : Extrinsic → Option RuntimeCall
  pub get_decoded_transaction : Block → Bytes → Result ℕ (Result ℕ Tx)
  pub inner_submit_at :
      Block → List Extrinsic → World → Result PoolError (List (Result PoolError TxHash)) × World
  pub inner_submit_one : Block → Extrinsic → World → Result PoolError TxHash × World
  pub inner_submit_and_watch : Block → Extrinsic → World → Result PoolError Stream × World
  pub inner_submit_local : Block → Extrinsic → World → Result PoolError TxHash × World
  pub immediately_dropped : PoolError

-- The counter is left as it was where there is none to increment.
abbrev or_kept : {CounterVec : Type 0} → CounterVec → Option CounterVec → CounterVec
or_kept v none = v
or_kept v (some v') = v'

module _ {CounterVec : Type 0} (p : Prometheus CounterVec) where
  -- One label value is given, and an error is ignored.
  unfoldable pub deny : Label → Metrics CounterVec → Metrics CounterVec
  deny reason m = record m {
    denied = or_kept m.denied (p.inc_with_label_values (reason ∷ []) m.denied);
  }

  -- The test of one operation with its effect on the metrics.
  unfoldable pub is_forbidden_op :
      TxFilterConfig → Op → Metrics CounterVec → Bool × Metrics CounterVec
  unfolding deny
  is_forbidden_op c (call address entry_point) m = (false, m)
  is_forbidden_op c (deploy address) m =
      if c.deny_deploy then (true, deny deploy_label m) else (false, m)
  is_forbidden_op c (maintain address) m =
      if c.deny_maintain then (true, deny maintain_label m) else (false, m)
  is_forbidden_op c (claim_rewards value) m = (false, m)

  -- `any`: the operations after the first forbidden one are not looked at.
  unfoldable pub any_forbidden :
      TxFilterConfig → List Op → Metrics CounterVec → Bool × Metrics CounterVec
  unfolding is_forbidden_op
  any_forbidden c [] m = (false, m)
  any_forbidden c (op ∷ ops) m =
      let (forbidden, m') = is_forbidden_op c op m in
      let rest = any_forbidden c ops m' in if forbidden then (true, m') else rest

  unfoldable pub is_forbidden_tx :
      TxFilterConfig → Tx → Metrics CounterVec → Bool × Metrics CounterVec
  unfolding any_forbidden
  is_forbidden_tx c tx m = any_forbidden c tx.operations m

  unfoldable pub parse_error : Metrics CounterVec → Bool × Metrics CounterVec
  unfolding deny
  parse_error m = (false, deny parse_error_label m)

  abbrev unless_forbidden : Bool × Metrics CounterVec → Bool × Metrics CounterVec
  unless_forbidden (true, m) = (false, m)
  unless_forbidden (false, m) = (true, forward m)

  -- What follows `get_decoded_transaction`.
  unfoldable pub accept_decoded :
      TxFilterConfig → Result ℕ (Result ℕ Tx) → Metrics CounterVec → Bool × Metrics CounterVec
  unfolding parse_error is_forbidden_tx
  accept_decoded c (err e) m = parse_error m
  accept_decoded c (ok (err e)) m = parse_error m
  accept_decoded c (ok (ok tx)) m = unless_forbidden (is_forbidden_tx c tx m)

module _ {CounterVec Extrinsic Block PoolError TxHash Stream World : Type 0}
    (p : Prometheus CounterVec) (rt : Runtime Extrinsic Block PoolError TxHash Stream World)
    (c : TxFilterConfig) where
  unfoldable pub accept_call :
      Block → Option RuntimeCall → Metrics CounterVec → Bool × Metrics CounterVec
  unfolding accept_decoded
  accept_call at none m = (true, forward m)
  accept_call at (some other) m = (true, forward m)
  accept_call at (some (send_mn_transaction midnight_tx)) m =
      accept_decoded p c (rt.get_decoded_transaction at midnight_tx) m

  unfoldable pub should_accept_extrinsic :
      Block → Extrinsic → Metrics CounterVec → Bool × Metrics CounterVec
  unfolding accept_call
  should_accept_extrinsic at xt m =
      if c.enabled then accept_call at (rt.decode_extrinsic xt) (receive m) else (true, m)

  -- The loop of `submit_at`.
  unfoldable pub filter_extrinsics :
      Block → List Extrinsic → Metrics CounterVec → List Extrinsic × Metrics CounterVec
  unfolding should_accept_extrinsic
  filter_extrinsics at [] m = ([], m)
  filter_extrinsics at (xt ∷ xts) m =
      let (accepted, m') = should_accept_extrinsic at xt m in
      let (rest, m'') = filter_extrinsics at xts m' in (if accepted then xt ∷ rest else rest, m'')

  unfoldable pub submit_at :
      Block
      → List Extrinsic
      → Metrics CounterVec × World
      → Result PoolError (List (Result PoolError TxHash)) × Metrics CounterVec × World
  unfolding filter_extrinsics
  submit_at at xts (m, w) =
      let (filtered, m') = filter_extrinsics at xts m in
      let (result, w') = rt.inner_submit_at at filtered w in (result, m', w')

  unfoldable pub submit_one :
      Block
      → Extrinsic
      → Metrics CounterVec × World
      → Result PoolError TxHash × Metrics CounterVec × World
  unfolding should_accept_extrinsic
  submit_one at xt (m, w) =
      let (accepted, m') = should_accept_extrinsic at xt m in
      let (result, w') = rt.inner_submit_one at xt w in
      if accepted then (result, m', w') else (err rt.immediately_dropped, m', w)

  unfoldable pub submit_and_watch :
      Block
      → Extrinsic
      → Metrics CounterVec × World
      → Result PoolError Stream × Metrics CounterVec × World
  unfolding should_accept_extrinsic
  submit_and_watch at xt (m, w) =
      let (accepted, m') = should_accept_extrinsic at xt m in
      let (result, w') = rt.inner_submit_and_watch at xt w in
      if accepted then (result, m', w') else (err rt.immediately_dropped, m', w)

  unfoldable pub submit_local :
      Block
      → Extrinsic
      → Metrics CounterVec × World
      → Result PoolError TxHash × Metrics CounterVec × World
  unfolding should_accept_extrinsic
  submit_local at xt (m, w) =
      let (accepted, m') = should_accept_extrinsic at xt m in
      let (result, w') = rt.inner_submit_local at xt w in
      if accepted then (result, m', w') else (err rt.immediately_dropped, m', w)
