-- ===== src/Midnight/Blocks.antt =====
-- Blocks as sequences of steps: the pallet's hooks, the calls, and the changes of the state key that
-- other pallets make through `mut_ledger_state`. A step that panics is no step.
use midnight_node.Prelude.{
  ℕ, ◌/◌, ◌≤◌, ◌≡◌, refl, ◌∙◌, Bool, true, false, Option, none, some, if◌then◌else◌, leb, leb→le,
  length, arith, saturating_u64,
}
use midnight_node.Midnight.Types
use midnight_node.Midnight.Types.{Bytes, BlockContext, Result, ok, err, Runtime, Storage, Call}
use midnight_node.Midnight.Calls.{
  after_apply, get_block_context, state_key_length, mut_ledger_state, set_tx_size_weight,
}
use midnight_node.Midnight.Calls
use midnight_node.Midnight.Hooks.{initialize_state, on_initialize, on_finalize, on_runtime_upgrade}
use midnight_node.Midnight.Validation.{dispatchable, pre_dispatch}

abbrev bounded_key : Option Bytes → Bool
bounded_key none = false
bounded_key (some key) = leb (length key) state_key_length

abbrev HasKey : {Weight World : Type 0} → Storage Weight World → Type 0
HasKey s = bounded_key s.state_key ≡ true

module _ {Origin Weight World : Type 0} (rt : Runtime Origin Weight World) where
  -- The start of a block: the parent's hash, the hook, a runtime upgrade or none, and the timestamp
  -- that the inherent of the timestamp pallet sets.
  abbrev pub start : Bool → Bytes → ℕ → Storage Weight World → Storage Weight World
  start upgraded parent now s =
      let first = record s { parent_hash = parent } in
      let ready = if upgraded then (on_runtime_upgrade rt first).1 else first in
      record (on_initialize rt ready).1 { timestamp = now }

module _ {Origin Weight World : Type 0} (rt : Runtime Origin Weight World) (E R : Type 0) where
  -- The steps of the extrinsics of a block.
  pub data Step (s : Storage Weight World) : Storage Weight World → Type 0 where
    check : (call : Call Weight) → Step s (pre_dispatch rt call s).1
    send : (tx : Bytes) → Step s (Calls.send_mn_transaction rt tx s).1
    set_weight : (o : Origin) (w : Weight) → Step s (set_tx_size_weight rt o w s).1
    mutate :
        (f : Bytes → World → Result E (Bytes × R) × World)
        → (r : Result E R) (t : Storage Weight World) → mut_ledger_state f s ≡ some (r, t)
        → Step s t

  pub data Body (s : Storage Weight World) : Storage Weight World → Type 0 where
    empty : Body s s
    more : {t u : Storage Weight World} → Body s t → Step t u → Body s u

  pub data Chain (s : Storage Weight World) : Storage Weight World → Type 0 where
    here : Chain s s
    block :
        {t u v : Storage Weight World}
        → Chain s t
        → (upgraded : Bool) (parent : Bytes) (now : ℕ) → Body (start rt upgraded parent now t) u
        → on_finalize rt u ≡ some v
        → Chain s v

  Step-context : {s t : Storage Weight World} → Step s t → get_block_context t ≡ get_block_context s
  unfolding pre_dispatch set_tx_size_weight Calls.send_mn_transaction mut_ledger_state
  Step-context {s} (check (Types.send_mn_transaction tx)) = ground arith
  Step-context {s} (check (Types.set_tx_size_weight w)) = refl
  Step-context {s} (send tx) = ground arith
  Step-context (set_weight o w) = ground arith
  Step-context {s} (mutate f r t h) = ground arith

  Step-HasKey : {s t : Storage Weight World} → Step s t → HasKey s → HasKey t
  unfolding pre_dispatch set_tx_size_weight Calls.send_mn_transaction mut_ledger_state
  Step-HasKey {s} (check (Types.send_mn_transaction tx)) h = ground arith
  Step-HasKey {s} (check (Types.set_tx_size_weight w)) h = h
  Step-HasKey {s} (send tx) h = ground arith
  Step-HasKey (set_weight o w) h = ground arith
  Step-HasKey {s} (mutate f r t k) h = ground arith

  Body-context : {s t : Storage Weight World} → Body s t → get_block_context t ≡ get_block_context s
  Body-context empty = refl
  Body-context (more b st) = Step-context st ∙ Body-context b

  -- The context of a block: its time, the hash of its parent, and the time of its parent, each time in
  -- seconds.
  abbrev context_of : Bytes → ℕ → Storage Weight World → BlockContext
  context_of parent now s = record {
    tblock = saturating_u64 (now / 1000);
    tblock_err = 30;
    parent_block_hash = parent;
    last_block_time = saturating_u64 (s.timestamp / 1000);
  }

  start-context :
      (s : Storage Weight World) (upgraded : Bool) (parent : Bytes) (now : ℕ)
      → get_block_context (start rt upgraded parent now s) ≡ context_of parent now s
  unfolding on_initialize on_runtime_upgrade
  start-context s true parent now = refl
  start-context s false parent now = refl

  -- Whatever the extrinsics of a block have done before, a transaction is checked and applied with the
  -- state key stored then, in the context of that block: its time, the hash of its parent, and the
  -- time of its parent, each time in seconds. The result of the check is that of the ledger in this
  -- context, with the world that the ledger leaves, and so is what the transaction leaves.
  pub Body-start :
      {t : Storage Weight World} (s : Storage Weight World) (upgraded : Bool) (parent : Bytes)
      (now : ℕ)
      → Body (start rt upgraded parent now s) t
      → (key tx : Bytes) → t.state_key ≡ some key
      → let context : BlockContext = record {
        tblock = saturating_u64 (now / 1000);
        tblock_err = 30;
        parent_block_hash = parent;
        last_block_time = saturating_u64 (s.timestamp / 1000);
      } in
        let (allowed, w) =
          rt.ledger.validate_guaranteed_execution key tx context rt.spec_version t.world in
        let (answer, w') = rt.ledger.apply_transaction key tx context rt.spec_version t.world in
        (pre_dispatch rt (Types.send_mn_transaction tx) t
          ≡ (dispatchable rt allowed, record t { world = w }))
        × (Calls.send_mn_transaction rt tx t ≡ after_apply rt answer (record t { world = w' }))
  unfolding pre_dispatch Calls.send_mn_transaction
  Body-start {t} s upgraded parent now body key tx h =
      let same = Body-context body ∙ start-context s upgraded parent now in ground (arith, h, same)

  Body-HasKey : {s t : Storage Weight World} → Body s t → HasKey s → HasKey t
  Body-HasKey empty h = h
  Body-HasKey (more b st) h = Step-HasKey st (Body-HasKey b h)

  start-HasKey :
      (upgraded : Bool) (parent : Bytes) (now : ℕ) (s : Storage Weight World)
      → HasKey s
      → HasKey (start rt upgraded parent now s)
  unfolding on_initialize on_runtime_upgrade
  start-HasKey true parent now s h = h
  start-HasKey false parent now s h = h

  on_finalize-HasKey : (s t : Storage Weight World) → on_finalize rt s ≡ some t → HasKey t
  unfolding on_finalize
  on_finalize-HasKey s t h = ground arith

  initialize_state-HasKey :
      (network_id key : Bytes) (g s : Storage Weight World)
      → initialize_state network_id key g ≡ some s
      → HasKey s
  unfolding initialize_state
  initialize_state-HasKey network_id key g s h = ground arith

  HasKey-stored :
      (stored : Option Bytes)
      → bounded_key stored ≡ true
      → (key : Bytes) × (stored ≡ some key) × (length key ≤ state_key_length)
  HasKey-stored none h = ground arith
  HasKey-stored (some key) h = (key, refl, leb→le (length key) state_key_length h)

  Chain-HasKey : {s t : Storage Weight World} → Chain s t → HasKey s → HasKey t
  Chain-HasKey here h = h
  Chain-HasKey (block {t} {u} {v} c upgraded parent now body end) h = on_finalize-HasKey u v end

  -- Once the genesis has stored a state key, every chain of blocks that does not panic keeps one of
  -- at most 1065 bytes, and so does the body of its next block.
  pub initialize_state-Body :
      {s t u : Storage Weight World} (network_id key : Bytes) (g : Storage Weight World)
      (upgraded : Bool) (parent : Bytes) (now : ℕ)
      → initialize_state network_id key g ≡ some s
      → Chain s t
      → Body (start rt upgraded parent now t) u
      → (key' : Bytes) × (u.state_key ≡ some key') × (length key' ≤ state_key_length)
  initialize_state-Body {s} {t} {u} network_id key g upgraded parent now h chain body =
      let before = Chain-HasKey chain (initialize_state-HasKey network_id key g s h) in
      HasKey-stored u.state_key (Body-HasKey body (start-HasKey upgraded parent now t before))
