-- ===== src/Midnight/Tests.antt =====
-- A ledger that takes a transaction as its new root and counts its calls, and the theorems at
-- concrete blocks.
use midnight_node.Prelude.{
  ℕ, ◌+◌, ◌≡◌, ◌≤◌, ◌<◌, ◌++◌, ◌⊎◌, refl, Bool, true, false, none, some, [], ◌∷◌, length, arith,
}
use midnight_node.LedgerErrors.{LedgerApiError}
use midnight_node.LedgerErrors
use midnight_node.Midnight.Types
use midnight_node.Midnight.Types.{
  Bytes, BlockContext, Applied, missing_ledger_state, new_state_out_of_bounds, from_ledger, Result,
  ok, err, Ledger, Runtime, Storage, contract_call, tx_applied, custom,
}
use midnight_node.Midnight.Calls.{
  after_apply, get_block_context, send_mn_transaction, applied_events, state_key_length,
}
use midnight_node.Midnight.Hooks.{initialize_state, on_initialize, on_finalize}
use midnight_node.Midnight.Validation.{
  dispatchable, pre_dispatch, pool_context, validate_unsigned, validate_in_context,
}
use midnight_node.Midnight.Applying.{send_mn_transaction_lem}
use midnight_node.Midnight.Clock.{pool_context_tblock}
use midnight_node.Midnight.Blocks.{
  Body, empty, more, send, here, block, start, Body-start, initialize_state-Body,
}

abbrev applied : Bytes → Applied
applied tx = record {
  state_root = tx;
  tx_hash = 9;
  all_applied = true;
  call_addresses = (5 ∷ []) ∷ [];
  deploy_addresses = [];
  maintain_addresses = [];
  claim_rewards = [];
  unshielded_utxos_created = [];
  unshielded_utxos_spent = [];
}

-- The empty transaction is refused.
abbrev apply : Bytes → Result LedgerApiError Applied
apply [] = err LedgerErrors.host_api_error
apply (b ∷ tx) = ok (applied (b ∷ tx))

abbrev validate : Bytes → Result LedgerApiError ℕ
validate [] = err LedgerErrors.host_api_error
validate (b ∷ tx) = ok b

abbrev ledger : Ledger ℕ
ledger = record {
  ensure_storage_initialized = λ w. w;
  flush_storage = λ w. w + 100;
  post_block_update = λ key c w. (ok (1 ∷ key), w + 10);
  apply_transaction = λ key tx c v w. (apply tx, w + 1);
  validate_transaction = λ key tx c v m w. (validate tx, w);
  validate_guaranteed_execution = λ key tx c v w. (ok tt, w);
  get_contract_state = λ key a w. ok key;
  get_zswap_chain_state = λ key a w. ok key;
  get_unclaimed_amount = λ key a w. ok 0;
  get_ledger_parameters = λ key w. ok key;
  get_transaction_cost = λ key tx c m w. ok (length tx);
  get_zswap_state_root = λ key w. ok key;
  get_ledger_state_root = λ key w. ok key;
}

abbrev rt : Runtime Bool ℕ ℕ
rt = record {
  ledger = ledger;
  ensure_root = λ o. o;
  slot_duration = 6000;
  spec_version = 22000;
  max_block_ref_time = 2000000000000;
  from_ref_time = λ t. t;
  add_weight = ◌+◌;
}

abbrev blank : Storage ℕ ℕ
blank = record {
  state_key = none;
  parent_timestamp = 0;
  network_id = none;
  transaction_size_weight = 20000000000;
  on_initialize_weight = 20000000000;
  on_runtime_upgrade_weight = 20000000000;
  max_skipped_slots = 1;
  timestamp = 0;
  parent_hash = [];
  events = [];
  world = 0;
}

abbrev genesis : Storage ℕ ℕ
genesis = record blank { state_key = some (7 ∷ []); network_id = some (100 ∷ []) }

abbrev first : Storage ℕ ℕ
first = start rt false (1 ∷ []) 6500 genesis

abbrev sent : Storage ℕ ℕ
sent = (send_mn_transaction rt (42 ∷ []) first).1

abbrev after_first : Storage ℕ ℕ
after_first = record sent { state_key = some (1 ∷ 42 ∷ []); world = 111 }

first_Body : Body rt ℕ ℕ first sent
first_Body = more empty (send (42 ∷ []))

first_end : on_finalize rt sent ≡ some after_first
unfolding on_finalize send_mn_transaction on_initialize
first_end = refl

sent_events : sent.events ≡ contract_call 9 (5 ∷ []) ∷ tx_applied 9 ∷ []
unfolding send_mn_transaction on_initialize applied_events
sent_events = refl

refused_code : (validate_unsigned rt (Types.send_mn_transaction []) genesis).0 ≡ custom 255
unfolding validate_unsigned validate_in_context LedgerErrors.code
refused_code = refl

abbrev answer_to : Bytes → Bytes → Result LedgerApiError Applied × ℕ
answer_to key tx =
    ledger.apply_transaction key tx (get_block_context genesis) rt.spec_version genesis.world

send_mn_transaction_lem_example :
    let (result, t) = send_mn_transaction rt (42 ∷ []) genesis in
    ((genesis.state_key ≡ none) × (result ≡ err missing_ledger_state) × (t ≡ genesis))
    ⊎ ((key : Bytes) × (genesis.state_key ≡ some key)
        × (((a : Applied) × ((answer_to key (42 ∷ [])).0 ≡ ok a)
              × (length a.state_root ≤ state_key_length)
              × (result ≡ ok tt)
              × (t ≡ record genesis {
                state_key = some a.state_root;
                events = genesis.events ++ applied_events a;
                world = (answer_to key (42 ∷ [])).1;
              }))
            ⊎ ((a : Applied) × ((answer_to key (42 ∷ [])).0 ≡ ok a)
                × (state_key_length < length a.state_root)
                × (result ≡ err new_state_out_of_bounds)
                × (t ≡ record genesis { world = (answer_to key (42 ∷ [])).1 }))
            ⊎ ((e : LedgerApiError) × ((answer_to key (42 ∷ [])).0 ≡ err e)
                × (result ≡ err (from_ledger e))
                × (t ≡ record genesis { world = (answer_to key (42 ∷ [])).1 }))))
send_mn_transaction_lem_example = send_mn_transaction_lem rt (42 ∷ []) genesis

pool_context_tblock_example :
    (pool_context rt first).tblock ≡ (get_block_context (record first { timestamp = 18500 })).tblock
unfolding on_initialize
pool_context_tblock_example = pool_context_tblock rt 6 first refl (omega arith)

-- The second transaction of a block, with the key that the first has left.
Body-start_example :
    let context : BlockContext = record {
      tblock = 6;
      tblock_err = 30;
      parent_block_hash = 1 ∷ [];
      last_block_time = 0;
    } in
    let (allowed, w) =
      ledger.validate_guaranteed_execution (42 ∷ []) (43 ∷ []) context rt.spec_version sent.world in
    let (answer, w') =
      ledger.apply_transaction (42 ∷ []) (43 ∷ []) context rt.spec_version sent.world in
    (pre_dispatch rt (Types.send_mn_transaction (43 ∷ [])) sent
      ≡ (dispatchable rt allowed, record sent { world = w }))
    × (send_mn_transaction rt (43 ∷ []) sent ≡ after_apply rt answer (record sent { world = w' }))
unfolding send_mn_transaction on_initialize
Body-start_example =
    Body-start rt ℕ ℕ genesis false (1 ∷ []) 6500 first_Body (42 ∷ []) (43 ∷ []) refl

initialize_state-Body_example :
    let u = (send_mn_transaction rt (43 ∷ []) (start rt true (2 ∷ []) 12500 after_first)).1 in
    (key : Bytes) × (u.state_key ≡ some key) × (length key ≤ state_key_length)
unfolding initialize_state
initialize_state-Body_example =
    initialize_state-Body rt ℕ ℕ (100 ∷ []) (7 ∷ []) blank true (2 ∷ []) 12500 refl
      (block here false (1 ∷ []) 6500 first_Body first_end) (more empty (send (43 ∷ [])))
