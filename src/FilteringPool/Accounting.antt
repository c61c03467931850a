-- ===== src/FilteringPool/Accounting.antt =====
-- The metrics over any sequence of submissions.
use midnight_node.Prelude.{
  ℕ, suc, ◌+◌, ◌≡◌, ◌≢◌, refl, ap, Bool, true, false, Option, none, some, List, [], ◌∷◌, arith,
  length,
}
use midnight_node.Midnight.Types.{Result, ok, err}
use midnight_node.FilteringPool.{deploy_label, maintain_label, parse_error_label}
use midnight_node.FilteringPool.{
  Op, call, deploy, maintain, claim_rewards, Tx, TxFilterConfig, Label, labels, Prometheus, Metrics,
  new, deny, is_forbidden_op, parse_error, RuntimeCall, send_mn_transaction, other, Runtime,
  receive, any_forbidden, is_forbidden_tx, accept_decoded, accept_call, should_accept_extrinsic,
  filter_extrinsics, submit_at, submit_one, submit_and_watch, submit_local,
}
use midnight_node.FilteringPool.Policy.{allowed, should_accept_extrinsic-allowed}

-- What prometheus documents: a counter vector keeps the names that it was made with, and label values
-- of another number than the names give an error.
pub record IsPrometheus {CounterVec : Type 0} (p : Prometheus CounterVec) : Type 0 where
  pub label_names : CounterVec → List Label
  pub names_new : (ls : List Label) → label_names (p.new_counter_vec ls) ≡ ls
  pub cardinality :
      (values : List Label) (v : CounterVec)
      → length values ≢ length (label_names v)
      → p.inc_with_label_values values v ≡ none

-- The metrics after `n` extrinsics were dropped: the counter of denials is as it was made.
abbrev IsAccounted : {CounterVec : Type 0} → Prometheus CounterVec → ℕ → Metrics CounterVec → Type 0
IsAccounted p n m = (m.denied ≡ p.new_counter_vec labels) × (m.received ≡ m.forwarded + n)

abbrev dropped : Bool → ℕ
dropped true = 0
dropped false = 1

module _ {CounterVec : Type 0} (p : Prometheus CounterVec) (laws : IsPrometheus p) where
  abbrev IsUntold : Metrics CounterVec → Type 0
  IsUntold m = m.denied ≡ p.new_counter_vec labels

  -- The counter has three names of labels, and a denial gives one value.
  no_counter :
      (reason : Label) → p.inc_with_label_values (reason ∷ []) (p.new_counter_vec labels) ≡ none
  no_counter reason =
      laws.cardinality (reason ∷ []) (p.new_counter_vec labels)
        (rw (laws.names_new labels) (λ e. omega arith))

  deny-untold : (reason : Label) (m : Metrics CounterVec) → IsUntold m → deny p reason m ≡ m
  unfolding deny
  deny-untold reason m h = ground (arith, h, no_counter reason)

  any_forbidden-untold :
      (c : TxFilterConfig) (ops : List Op) (m : Metrics CounterVec)
      → IsUntold m
      → (any_forbidden p c ops m).1 ≡ m
  unfolding any_forbidden is_forbidden_op
  any_forbidden-untold c [] m h = refl
  any_forbidden-untold c (call a e ∷ ops) m h = any_forbidden-untold c ops m h
  any_forbidden-untold c (deploy a ∷ ops) m h =
      ground (arith, deny-untold deploy_label m h, any_forbidden-untold c ops m h)
  any_forbidden-untold c (maintain a ∷ ops) m h =
      ground (arith, deny-untold maintain_label m h, any_forbidden-untold c ops m h)
  any_forbidden-untold c (claim_rewards v ∷ ops) m h = any_forbidden-untold c ops m h

  accept_decoded-untold :
      (c : TxFilterConfig) (r : Result ℕ (Result ℕ Tx)) (m : Metrics CounterVec)
      → IsUntold m
      → let (accepted, m') = accept_decoded p c r m in
        (m'.received ≡ m.received)
        × (m'.denied ≡ m.denied)
        × (m'.forwarded + dropped accepted ≡ suc m.forwarded)
  unfolding accept_decoded is_forbidden_tx parse_error
  accept_decoded-untold c (err e) m h =
      ground (arith, ap (λ n. n.denied) (deny-untold parse_error_label m h))
  accept_decoded-untold c (ok (err e)) m h =
      ground (arith, ap (λ n. n.denied) (deny-untold parse_error_label m h))
  accept_decoded-untold c (ok (ok tx)) m h =
      ground (arith, any_forbidden-untold c tx.operations m h)

module _ {CounterVec Extrinsic Block PoolError TxHash Stream World : Type 0}
    (p : Prometheus CounterVec) (laws : IsPrometheus p)
    (rt : Runtime Extrinsic Block PoolError TxHash Stream World) (c : TxFilterConfig) where
  accept_call-untold :
      (at : Block) (call' : Option RuntimeCall) (m : Metrics CounterVec)
      → IsUntold p laws m
      → let (accepted, m') = accept_call p rt c at call' m in
        (m'.received ≡ m.received)
        × (m'.denied ≡ m.denied)
        × (m'.forwarded + dropped accepted ≡ suc m.forwarded)
  unfolding accept_call
  accept_call-untold at none m h = ground arith
  accept_call-untold at (some other) m h = ground arith
  accept_call-untold at (some (send_mn_transaction tx)) m h =
      accept_decoded-untold p laws c (rt.get_decoded_transaction at tx) m h

  should_accept_extrinsic-IsAccounted :
      (at : Block) (xt : Extrinsic) (n : ℕ) (m : Metrics CounterVec)
      → IsAccounted p n m
      → let (accepted, m') = should_accept_extrinsic p rt c at xt m in
        IsAccounted p (n + dropped accepted) m'
  unfolding should_accept_extrinsic
  should_accept_extrinsic-IsAccounted at xt n m h =
      ground (arith, h, accept_call-untold at (rt.decode_extrinsic xt) (receive m) h.0)

  -- How many extrinsics of a batch the policy does not allow.
  abbrev denials : Block → List Extrinsic → ℕ
  denials at [] = 0
  denials at (xt ∷ xts) = dropped (allowed rt c at xt) + denials at xts

  filter_extrinsics-IsAccounted :
      (at : Block) (xts : List Extrinsic) (n : ℕ) (m : Metrics CounterVec)
      → IsAccounted p n m
      → IsAccounted p (n + denials at xts) (filter_extrinsics p rt c at xts m).1
  unfolding filter_extrinsics
  filter_extrinsics-IsAccounted at [] n m h = ground (arith, h)
  filter_extrinsics-IsAccounted at (xt ∷ xts) n m h =
      let (accepted, m') = should_accept_extrinsic p rt c at xt m in
      let k = n + dropped accepted in
      let rest =
        filter_extrinsics-IsAccounted at xts k m'
          (should_accept_extrinsic-IsAccounted at xt n m h) in
      ground (arith, rest, ap dropped (should_accept_extrinsic-allowed p rt c at xt m))

  -- The first index is the number of the extrinsics that the policy did not allow.
  pub data Step (m : Metrics CounterVec) (w : World) : ℕ → Metrics CounterVec → World → Type 0 where
    batch :
        (at : Block) (xts : List Extrinsic)
        → Step m w
            (denials at xts)
            (submit_at p rt c at xts (m, w)).1
            (submit_at p rt c at xts (m, w)).2
    one :
        (at : Block) (xt : Extrinsic)
        → Step m w
            (dropped (allowed rt c at xt))
            (submit_one p rt c at xt (m, w)).1
            (submit_one p rt c at xt (m, w)).2
    watch :
        (at : Block) (xt : Extrinsic)
        → Step m w
            (dropped (allowed rt c at xt))
            (submit_and_watch p rt c at xt (m, w)).1
            (submit_and_watch p rt c at xt (m, w)).2
    local_one :
        (at : Block) (xt : Extrinsic)
        → Step m w
            (dropped (allowed rt c at xt))
            (submit_local p rt c at xt (m, w)).1
            (submit_local p rt c at xt (m, w)).2
    -- The inner pool changes by itself, as blocks come in.
    inner : (w' : World) → Step m w 0 m w'

  pub data Reach (m : Metrics CounterVec) (w : World)
      : ℕ → Metrics CounterVec → World → Type 0 where
    here : Reach m w 0 m w
    next :
        {m' m'' : Metrics CounterVec} {w' w'' : World} {n k : ℕ}
        → Reach m w n m' w'
        → Step m' w' k m'' w''
        → Reach m w (n + k) m'' w''

  one_more :
      (n : ℕ) (at : Block) (xt : Extrinsic) (m : Metrics CounterVec)
      → IsAccounted p n m
      → IsAccounted p (n + dropped (allowed rt c at xt)) (should_accept_extrinsic p rt c at xt m).1
  one_more n at xt m h =
      let told = should_accept_extrinsic-IsAccounted at xt n m h in
      ground (arith, told, ap dropped (should_accept_extrinsic-allowed p rt c at xt m))

  Step-IsAccounted :
      {m : Metrics CounterVec} {w : World} {m' : Metrics CounterVec} {w' : World} {k : ℕ} (n : ℕ)
      → Step m w k m' w'
      → IsAccounted p n m
      → IsAccounted p (n + k) m'
  unfolding submit_at submit_one submit_and_watch submit_local
  Step-IsAccounted {m} n (batch at xts) h = filter_extrinsics-IsAccounted at xts n m h
  Step-IsAccounted {m} n (one at xt) h = ground (arith, one_more n at xt m h)
  Step-IsAccounted {m} n (watch at xt) h = ground (arith, one_more n at xt m h)
  Step-IsAccounted {m} n (local_one at xt) h = ground (arith, one_more n at xt m h)
  Step-IsAccounted n (inner w') h = ground (arith, h)

  -- Where prometheus is as documented, over any sequence of submissions from new metrics the
  -- extrinsics received are those forwarded and those that the policy did not allow; but none of the
  -- latter is ever counted: the counter of denials stays as it was made, since `deny` gives one label
  -- value to a counter with three names of labels, and ignores the error.
  pub Reach-IsAccounted :
      {w : World} {n : ℕ} {m : Metrics CounterVec} {w' : World}
      → Reach (new p) w n m w'
      → (m.denied ≡ p.new_counter_vec labels) × (m.received ≡ m.forwarded + n)
  Reach-IsAccounted here = (refl, refl)
  Reach-IsAccounted (next r st) = Step-IsAccounted _ st (Reach-IsAccounted r)
