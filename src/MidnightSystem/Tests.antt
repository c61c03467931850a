-- ===== src/MidnightSystem/Tests.antt =====
-- A ledger that takes a system transaction as its new root, and the theorem at a concrete state.
use midnight_node.Prelude.{
  ℕ, ◌+◌, ◌≡◌, ◌⊎◌, refl, Bool, true, false, none, some, [], ◌∷◌, ◌++◌, leb, length, arith,
}
use midnight_node.LedgerErrors.{LedgerApiError}
use midnight_node.Midnight.Types.{Bytes, Result, ok, err}
use midnight_node.Midnight.Calls.{mut_ledger_state, state_key_length}
use midnight_node.MidnightSystem.{
  Error, ledger_api_error, system_transaction_applied, Runtime, Storage, send_mn_system_transaction,
  execute_system_transaction,
}
use midnight_node.MidnightSystem.Executing.{permitted, send_mn_system_transaction_lem}

abbrev rt : Runtime Bool ℕ
rt = record {
  ensure_root = λ o. o;
  is_governance_allowed_system_tx = λ tx. true;
  apply_system_transaction = λ key tx c v w. (ok (8 ∷ [], 77), w + 1);
  spec_version = 22000;
}

abbrev start : Storage ℕ ℕ
start = record {
  midnight = record {
    state_key = some (7 ∷ []);
    parent_timestamp = 0;
    network_id = none;
    transaction_size_weight = 0;
    on_initialize_weight = 0;
    on_runtime_upgrade_weight = 0;
    max_skipped_slots = 1;
    timestamp = 6000;
    parent_hash = [];
    events = [];
    world = 0;
  };
  events = [];
}

abbrev sent : Storage ℕ ℕ
sent = record {
  midnight = record start.midnight { state_key = some (8 ∷ []); world = 1 };
  events = system_transaction_applied 77 (3 ∷ []) ∷ [];
}

sent_event : send_mn_system_transaction rt true (3 ∷ []) start ≡ some (ok tt, sent)
unfolding send_mn_system_transaction execute_system_transaction mut_ledger_state
sent_event = refl

abbrev Answer : Type 0
Answer = Result LedgerApiError (Bytes × ℕ)

fits :
    (root : Bytes) (hash : ℕ)
    → ◌≡◌ {A = Answer} (ok (8 ∷ [], 77)) (ok (root, hash))
    → leb (length root) state_key_length ≡ true
fits root hash h = ground (arith, h)

send_mn_system_transaction_lem_example :
    let s' = send_mn_system_transaction rt true (3 ∷ []) start in
    let m = record start.midnight { world = 1 } in
    ((root : Bytes) × (hash : ℕ) × (◌≡◌ {A = Answer} (ok (8 ∷ [], 77)) (ok (root, hash)))
      × (permitted rt true (3 ∷ []) ≡ true)
      × (s'
          ≡ some (
            ok tt,
            record start {
              midnight = record m { state_key = some root };
              events = [] ++ system_transaction_applied hash (3 ∷ []) ∷ [];
            },
          )))
    ⊎ ((e : LedgerApiError) × (◌≡◌ {A = Answer} (ok (8 ∷ [], 77)) (err e))
        × (permitted rt true (3 ∷ []) ≡ true)
        × (s' ≡ some (err (ledger_api_error e), record start { midnight = m })))
    ⊎ ((e : Error) × (permitted rt true (3 ∷ []) ≡ false) × (s' ≡ some (err e, start)))
send_mn_system_transaction_lem_example =
    send_mn_system_transaction_lem rt true (7 ∷ []) (3 ∷ []) start refl fits
