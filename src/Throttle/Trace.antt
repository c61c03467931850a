-- ===== src/Throttle/Trace.antt =====
-- A chain as a sequence of steps of the throttle extension: a transaction that is validated, and
-- prepared if it is valid, or the start of a later block.
use midnight_node.Prelude.{ℕ, ◌+◌, Option, none, some, List, [], ◌∷◌, ◌==◌, if◌then◌else◌}
use midnight_node.Throttle.{Config, Storage, Validity, valid, exhausts_resources, validate, prepare}

pub data Event : Type 0 where
  submit : Option ℕ → ℕ → Event
  next_block : Event

-- A transaction that is refused leaves the storage as it was.
abbrev pub applied : Config → Storage → ℕ → Validity (Option ℕ) → Storage
applied c s len (valid val) = prepare c s val len
applied c s len exhausts_resources = s

unfoldable pub step : Config → Storage → Event → Storage
step c s (submit signer len) = applied c s len (validate c s signer len)
step c s next_block = record s { block_number = s.block_number + 1 }

unfoldable pub run : Config → Storage → List Event → Storage
run c s [] = s
run c s (e ∷ es) = run c (step c s e) es

abbrev paid : ℕ → ℕ → Validity (Option ℕ) → ℕ
paid who len (valid (some signer)) = if signer == who then len else 0
paid who len (valid none) = 0
paid who len exhausts_resources = 0

-- The bytes of `who` that one step lets through.
unfoldable pub step_bytes : ℕ → Config → Storage → Event → ℕ
step_bytes who c s (submit signer len) = paid who len (validate c s signer len)
step_bytes who c s next_block = 0

-- The bytes of `who` that a run lets through.
unfoldable pub run_bytes : ℕ → Config → Storage → List Event → ℕ
run_bytes who c s [] = 0
run_bytes who c s (e ∷ es) = step_bytes who c s e + run_bytes who c (step c s e) es
