-- ===== src/Midnight/Hooks.antt =====
-- The hooks and the genesis of pallets/midnight/src/lib.rs; `none` is a panic.
use midnight_node.Prelude.{◌/◌, Option, none, some, if◌then◌else◌, leb, length, saturating_u64}
use midnight_node.LedgerErrors.{LedgerApiError}
use midnight_node.Midnight.Types.{Bytes, Result, ok, err, Runtime, Storage}
use midnight_node.Midnight.Calls.{get_block_context, put_state_key, max_network_id_length}

module _ {Weight World : Type 0} where
  abbrev put_network_id : Bytes → Option (Storage Weight World) → Option (Storage Weight World)
  put_network_id name none = none
  put_network_id name (some s) =
      if leb (length name) max_network_id_length
      then some (record s { network_id = some name })
      else none

  unfoldable pub initialize_state :
      Bytes → Bytes → Storage Weight World → Option (Storage Weight World)
  initialize_state network_id state_key s = put_network_id network_id (put_state_key state_key s)

module _ {Origin Weight World : Type 0} (rt : Runtime Origin Weight World) where
  open rt use {ledger}

  unfoldable pub on_initialize : Storage Weight World → Weight × Storage Weight World
  on_initialize s = (
    s.on_initialize_weight,
    record s {
      world = ledger.ensure_storage_initialized s.world;
      parent_timestamp = saturating_u64 (s.timestamp / 1000);
    },
  )

  abbrev flush : Option (Storage Weight World) → Option (Storage Weight World)
  flush none = none
  flush (some s) = some (record s { world = ledger.flush_storage s.world })

  abbrev store_root :
      Result LedgerApiError Bytes → Storage Weight World → Option (Storage Weight World)
  store_root (err e) s = none
  store_root (ok root) s = flush (put_state_key root s)

  abbrev update_from : Option Bytes → Storage Weight World → Option (Storage Weight World)
  update_from none s = none
  update_from (some key) s =
      let (result, w) = ledger.post_block_update key (get_block_context s) s.world in
      store_root result (record s { world = w })

  unfoldable pub on_finalize : Storage Weight World → Option (Storage Weight World)
  on_finalize s = update_from s.state_key s

  unfoldable pub on_runtime_upgrade : Storage Weight World → Weight × Storage Weight World
  on_runtime_upgrade s =
      (s.on_runtime_upgrade_weight, record s { world = ledger.ensure_storage_initialized s.world })
