-- ===== src/Throttle/Tests.antt =====
-- Runs of the throttle at small limits, and the theorems at concrete storages.
use midnight_node.Prelude.{◌+◌, ◌*◌, ◌≤◌, ◌≡◌, refl, some, none, List, [], ◌∷◌, arith}
use midnight_node.Throttle.{Config, Storage, exhausts_resources, validate, prepare}
use midnight_node.Throttle.Trace.{Event, submit, next_block, step, run, step_bytes, run_bytes}
use midnight_node.Throttle.Bounds.{IsWithin, run-IsWithin}
use midnight_node.Throttle.Windows.{run_bytes-le-rest, run_bytes-le-twice, run_bytes_burst}

abbrev config : Config
config = record { max_bytes = 100; window_size = 10 }

abbrev start : Storage
start = record {
  block_number = 19;
  account_usage = λ who. record { bytes_used = 0; window_start = 10 };
}

abbrev mixed : List Event
mixed = submit (some 1) 60 ∷ submit (some 2) 90 ∷ submit (some 1) 60 ∷ submit none 500 ∷ []

refused : validate config (run config start mixed) (some 1) 41 ≡ exhausts_resources
unfolding validate prepare step run
refused = refl

mixed_bytes : run_bytes 1 config start mixed ≡ 60
unfolding validate prepare step step_bytes run_bytes
mixed_bytes = refl

start-IsWithin : IsWithin config start
start-IsWithin who = omega arith

run-IsWithin_example : IsWithin config (run config start mixed)
run-IsWithin_example = run-IsWithin config start mixed start-IsWithin

run_bytes-le-rest_example : 0 + run_bytes 1 config start mixed ≤ 100
run_bytes-le-rest_example =
    run_bytes-le-rest config (omega arith) 1 start mixed start-IsWithin (omega arith)

run_bytes-le-twice_example : run_bytes 1 config start (next_block ∷ mixed) ≤ 2 * 100
run_bytes-le-twice_example =
    run_bytes-le-twice config (omega arith) 1 start (next_block ∷ mixed) start-IsWithin
      (omega arith)

run_bytes_burst_example :
    run_bytes 1 config start (submit (some 1) 100 ∷ next_block ∷ submit (some 1) 100 ∷ []) ≡ 2 * 100
run_bytes_burst_example = run_bytes_burst config (omega arith) 1 start (omega arith) refl refl
