-- ===== src/Throttle/Windows.antt =====
-- How many bytes of one account get through in a span of blocks.
use midnight_node.Prelude.{
  ℕ, ◌+◌, ◌-◌, ◌*◌, ◌≤◌, ◌<◌, ◌≡◌, refl, ◌⊎◌, true, false, inl, inr, none, some, List, [], ◌∷◌,
  arith, u64_max, Bool-cases,
}
use midnight_node.Throttle.{Config, Usage, Storage, validate, prepare, expired}
use midnight_node.Throttle.Trace.{Event, submit, next_block, step, run, step_bytes, run_bytes}
use midnight_node.Throttle.Bounds.{IsWithin, step-IsWithin, run-IsWithin}

-- The blocks that one event, and a sequence of events, starts.
abbrev pub tick : Event → ℕ
tick (submit signer len) = 0
tick next_block = 1

abbrev pub blocks : List Event → ℕ
blocks [] = 0
blocks (e ∷ es) = tick e + blocks es

block_number-step :
    (c : Config) (s : Storage) (e : Event) → (step c s e).block_number ≡ s.block_number + tick e
unfolding step validate prepare
block_number-step c s (submit none len) = ground arith
block_number-step c s (submit (some signer) len) = ground arith
block_number-step c s next_block = ground arith

module _ (c : Config) (small : c.max_bytes < u64_max) (who : ℕ) where
  abbrev usage : Storage → Usage
  usage s = s.account_usage who

  -- While the window lasts, a step adds what it lets through and leaves the start of the window.
  step_in_window :
      (s : Storage) (e : Event)
      → expired c s.block_number (usage s) ≡ false
      → ((usage (step c s e)).bytes_used ≡ (usage s).bytes_used + step_bytes who c s e)
        × ((usage (step c s e)).window_start ≡ (usage s).window_start)
  unfolding step step_bytes validate prepare
  step_in_window s (submit none len) h = ground arith
  step_in_window s (submit (some signer) len) h = ground arith
  step_in_window s next_block h = ground arith

  -- Once it has run out, a step lets nothing through and leaves the usage, or starts a new window.
  step-expired :
      (s : Storage) (e : Event)
      → expired c s.block_number (usage s) ≡ true
      → ((usage (step c s e) ≡ usage s) × (step_bytes who c s e ≡ 0))
        ⊎ (((usage (step c s e)).window_start ≡ s.block_number)
            × ((usage (step c s e)).bytes_used ≡ step_bytes who c s e))
  unfolding step step_bytes validate prepare
  step-expired s (submit none len) h = inl (refl, refl)
  step-expired s (submit (some signer) len) h = ground arith
  step-expired s next_block h = inl (refl, refl)

  run_in_window :
      (s : Storage) (es : List Event)
      → (s.block_number + blocks es) - (usage s).window_start < c.window_size
      → (usage (run c s es)).bytes_used ≡ (usage s).bytes_used + run_bytes who c s es
  unfolding run run_bytes
  run_in_window s [] h = omega arith
  run_in_window s (e ∷ es) h =
      let stepped = step_in_window s e (ground arith) in
      let at = block_number-step c s e in
      omega (arith, stepped, run_in_window (step c s e) es (omega (arith, stepped, at)))

  -- While the window of an account lasts, the usage on record and what gets through in the rest of
  -- it stay within the limit, if the limit is below the largest `u64` and no recorded usage exceeds
  -- it at the start.
  pub run_bytes-le-rest :
      (s : Storage) (es : List Event)
      → IsWithin c s
      → (s.block_number + blocks es) - (usage s).window_start < c.window_size
      → (usage s).bytes_used + run_bytes who c s es ≤ c.max_bytes
  run_bytes-le-rest s es within h =
      omega (arith, run_in_window s es h, run-IsWithin c s es within who)

  run_bytes-expired :
      (s : Storage) (es : List Event)
      → IsWithin c s
      → expired c s.block_number (usage s) ≡ true
      → blocks es < c.window_size
      → run_bytes who c s es ≤ c.max_bytes
  unfolding run_bytes
  run_bytes-expired s [] within old h = omega arith
  run_bytes-expired s (e ∷ es) within old h =
      let at = block_number-step c s e in
      let within' = step-IsWithin c s e within in
      elim (step-expired s e old) [
        | inl (same, none_passed) ↦ omega (
          arith,
          none_passed,
          run_bytes-expired (step c s e) es within' (ground (arith, same, at)) (omega arith),
        )
        | inr (started, passed) ↦
            omega (
              arith,
              passed,
              run_bytes-le-rest (step c s e) es within' (omega (arith, at, started)),
            )
      ]

  run_bytes_young :
      (s : Storage) (es : List Event)
      → IsWithin c s
      → expired c s.block_number (usage s) ≡ false
      → blocks es < c.window_size
      → (usage s).bytes_used + run_bytes who c s es ≤ 2 * c.max_bytes
  unfolding run_bytes
  run_bytes_young s [] within young h = omega (arith, within who)
  run_bytes_young s (e ∷ es) within young h =
      let stepped = step_in_window s e young in
      let t = step c s e in
      let within' = step-IsWithin c s e within in
      elim (Bool-cases (expired c t.block_number (usage t))) [
        | inl old ↦
            omega (arith, stepped, within' who, run_bytes-expired t es within' old (omega arith))
        | inr still ↦ omega (arith, stepped, run_bytes_young t es within' still (omega arith))
      ]

  -- In fewer blocks than a window has, an account gets at most twice the limit through, if the
  -- limit is below the largest `u64` and no recorded usage exceeds it at the start.
  pub run_bytes-le-twice :
      (s : Storage) (es : List Event)
      → IsWithin c s
      → blocks es < c.window_size
      → run_bytes who c s es ≤ 2 * c.max_bytes
  run_bytes-le-twice s es within h = elim (Bool-cases (expired c s.block_number (usage s))) [
    | inl old ↦ omega (arith, run_bytes-expired s es within old h)
    | inr young ↦ omega (arith, run_bytes_young s es within young h)
  ]

  -- The bound is met: the last block of a window and the first of the next together let twice the
  -- limit through, so the window does not roll with the blocks.
  pub run_bytes_burst :
      (s : Storage)
      → 0 < c.window_size
      → (usage s).bytes_used ≡ 0
      → s.block_number + 1 ≡ (usage s).window_start + c.window_size
      → run_bytes who c s
          (submit (some who) c.max_bytes ∷ next_block ∷ submit (some who) c.max_bytes ∷ [])
        ≡ 2 * c.max_bytes
  unfolding run_bytes step step_bytes validate prepare
  run_bytes_burst s pos fresh last = ground arith
