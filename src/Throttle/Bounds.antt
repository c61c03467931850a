-- ===== src/Throttle/Bounds.antt =====
-- No account is ever charged more than the limit, and what it is charged is what was let through.
use midnight_node.Prelude.{ℕ, ◌+◌, ◌≤◌, ◌<◌, ◌≡◌, ◌≢◌, none, some, List, [], ◌∷◌, arith, u64_max}
use midnight_node.Throttle.{Config, Storage, valid, validate, prepare, effective_bytes}
use midnight_node.Throttle.Trace.{Event, submit, next_block, step, run}

-- Every account's recorded usage is within the limit.
abbrev pub IsWithin : Config → Storage → Type 0
IsWithin c s = (who : ℕ) → (s.account_usage who).bytes_used ≤ c.max_bytes

pub step-IsWithin : (c : Config) (s : Storage) (e : Event) → IsWithin c s → IsWithin c (step c s e)
unfolding step validate prepare
step-IsWithin c s (submit none len) h who = h who
step-IsWithin c s (submit (some signer) len) h who = ground (arith, h who, h signer)
step-IsWithin c s next_block h who = h who

-- If no account's recorded usage exceeds the limit, none does after any sequence of transactions
-- and blocks.
pub run-IsWithin :
    (c : Config) (s : Storage) (es : List Event) → IsWithin c s → IsWithin c (run c s es)
unfolding run
run-IsWithin c s [] h = h
run-IsWithin c s (e ∷ es) h = run-IsWithin c (step c s e) es (step-IsWithin c s e h)

-- If the limit is below the largest `u64`, a signed transaction that is let through is charged in
-- full and to its signer alone: the recorded usage becomes the effective usage plus its length,
-- which the limit covers, and no other account's usage changes.
validate-prepare :
    (c : Config) (s : Storage) (who len : ℕ)
    → c.max_bytes < u64_max
    → validate c s (some who) len ≡ valid (some who)
    → let t = prepare c s (some who) len in
      ((t.account_usage who).bytes_used
        ≡ effective_bytes c s.block_number (s.account_usage who) + len)
      × ((t.account_usage who).bytes_used ≤ c.max_bytes)
      × ((other : ℕ) → other ≢ who → t.account_usage other ≡ s.account_usage other)
unfolding validate prepare
validate-prepare c s who len small h = (ground arith, ground arith, λ other ne. ground arith)
