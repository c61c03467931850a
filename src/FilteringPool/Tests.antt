-- ===== src/FilteringPool/Tests.antt =====
-- A pool that keeps what it gets, and the theorems at concrete extrinsics.
use midnight_node.Prelude.{
  ℕ, zero, suc, ◌≡◌, refl, false, Option, none, some, List, [], ◌∷◌, ◌++◌, map, filter, Bool, true,
  length, ◌==◌, ◌+◌, ◌≢◌, arith,
}
use midnight_node.Midnight.Types.{Bytes, Result, ok, err}
use midnight_node.FilteringPool.{
  Op, call, deploy, maintain, claim_rewards, Tx, Label, labels, Prometheus, Metrics, new, deny,
  RuntimeCall, send_mn_transaction, other, Runtime, enabled_config, submit_at, submit_one,
  is_forbidden_tx,
}
use midnight_node.FilteringPool.Policy.{allowed, submit_at-allowed}
use midnight_node.FilteringPool.Accounting.{IsPrometheus, here, next, batch, one, Reach-IsAccounted}

abbrev tx : List Op → Tx
tx ops = record {
  hash = 1;
  operations = ops;
  identifiers = [];
  has_fallible_coins = false;
  has_guaranteed_coins = false;
}

-- A transaction is read by its first byte.
abbrev decode : Bytes → Result ℕ (Result ℕ Tx)
decode [] = ok (err 3)
decode (zero ∷ bs) = ok (ok (tx (call bs bs ∷ [])))
decode (suc b ∷ bs) = ok (ok (tx (claim_rewards b ∷ deploy bs ∷ maintain bs ∷ [])))

-- An extrinsic is what it decodes to; the pool is the list of its extrinsics.
abbrev rt : Runtime (Option RuntimeCall) ℕ ℕ ℕ ℕ (List (Option RuntimeCall))
rt = record {
  decode_extrinsic = λ xt. xt;
  get_decoded_transaction = λ at bs. decode bs;
  inner_submit_at = λ at xts w. (ok (map (λ xt. ok at) xts), w ++ xts);
  inner_submit_one = λ at xt w. (ok at, w ++ xt ∷ []);
  inner_submit_and_watch = λ at xt w. (ok at, w ++ xt ∷ []);
  inner_submit_local = λ at xt w. (ok at, w ++ xt ∷ []);
  immediately_dropped = 99;
}

-- A counter vector of its names and of the label values that were counted.
abbrev CounterVec : Type 0
CounterVec = List Label × List (List Label)

abbrev counted : Bool → List Label → CounterVec → Option CounterVec
counted true values v = some (v.0, values ∷ v.1)
counted false values v = none

abbrev prometheus : Prometheus CounterVec
prometheus = record {
  new_counter_vec = λ ls. (ls, []);
  inc_with_label_values = λ values v. counted (length values == length v.0) values v;
}

mismatch : (n k : ℕ) → n ≢ k → (n == k) ≡ false
mismatch n k h = ground arith

prometheus-IsPrometheus : IsPrometheus prometheus
prometheus-IsPrometheus = record {
  label_names = λ v. v.0;
  names_new = λ ls. refl;
  cardinality = λ values v h. rw (mismatch (length values) (length v.0) h) refl;
}

abbrev fresh : Metrics CounterVec
fresh = new prometheus

abbrev calling : Option RuntimeCall
calling = some (send_mn_transaction (0 ∷ 8 ∷ []))

abbrev deploying : Option RuntimeCall
deploying = some (send_mn_transaction (5 ∷ 8 ∷ []))

abbrev garbage : Option RuntimeCall
garbage = some (send_mn_transaction [])

abbrev batch_of : List (Option RuntimeCall)
batch_of = calling ∷ deploying ∷ none ∷ garbage ∷ some other ∷ []

abbrev after_batch : Metrics CounterVec
after_batch = record { received = 5; forwarded = 3; denied = (labels, []) }

submit_batch :
    submit_at prometheus rt enabled_config 7 batch_of (fresh, [])
    ≡ (ok (ok 7 ∷ ok 7 ∷ ok 7 ∷ []), after_batch, calling ∷ none ∷ some other ∷ [])
unfolding submit_at is_forbidden_tx deny
submit_batch = refl

submit_at-allowed_example :
    let (result, m', w') = submit_at prometheus rt enabled_config 7 batch_of (fresh, []) in
    let inner = rt.inner_submit_at 7 (filter (allowed rt enabled_config 7) batch_of) [] in
    (result ≡ inner.0) × (w' ≡ inner.1)
submit_at-allowed_example = submit_at-allowed prometheus rt enabled_config 7 batch_of fresh []

abbrev done : Metrics CounterVec × List (Option RuntimeCall)
done = (
  (submit_at prometheus rt enabled_config 7 batch_of (fresh, [])).1,
  (submit_at prometheus rt enabled_config 7 batch_of (fresh, [])).2,
)

-- Three of six extrinsics are refused.
Reach-IsAccounted_example :
    let m = (submit_one prometheus rt enabled_config 8 deploying done).1 in
    (m.denied ≡ (labels, [])) × (m.received ≡ m.forwarded + 3)
Reach-IsAccounted_example =
    Reach-IsAccounted prometheus prometheus-IsPrometheus rt enabled_config
      (next (next here (batch 7 batch_of)) (one 8 deploying))
