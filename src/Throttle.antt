-- ===== src/Throttle.antt =====
-- The throttle pallet: pallets/throttle/src/lib.rs (the storage and the constants) and
-- pallets/throttle/src/check_throttle.rs (the transaction extension `CheckThrottle`).
-- Account ids and block numbers are natural numbers; a block number and a length stay below
-- their machine bounds, and the two saturating operations of the source are written out.
pub mod Trace
pub mod Bounds
pub mod Windows
mod Tests
use midnight_node.Prelude.{
  ℕ, zero, ◌+◌, ◌-◌, Bool, Option, none, some, ltb, leb, if◌then◌else◌, put, saturating_u64,
}

-- The constants `MaxBytes` and `WindowSize` of the pallet's configuration.
pub record Config : Type 0 where
  pub max_bytes : ℕ
  pub window_size : ℕ

-- The value of `AccountUsage` for one account; an account without an entry reads as two zeros.
pub record Usage : Type 0 where
  pub bytes_used : ℕ
  pub window_start : ℕ

-- The storage that the extension reads and writes, with the number of the current block.
pub record Storage : Type 0 where
  pub block_number : ℕ
  pub account_usage : ℕ → Usage

pub data Validity (A : Type 0) : Type 0 where
  valid : A → Validity A
  exhausts_resources : Validity A

-- `current_block.saturating_sub(window_start) >= window_size`: on ℕ the difference stops at 0.
abbrev pub expired : Config → ℕ → Usage → Bool
expired c block u = leb c.window_size (block - u.window_start)

-- The usage that counts at a block: nothing, if the window has run out.
abbrev pub effective_bytes : Config → ℕ → Usage → ℕ
effective_bytes c block u = if expired c block u then zero else u.bytes_used

admit : Config → Storage → ℕ → ℕ → Validity (Option ℕ)
admit c s len who =
    let new_bytes = saturating_u64 (effective_bytes c s.block_number (s.account_usage who) + len) in
    if ltb c.max_bytes new_bytes then exhausts_resources else valid (some who)

-- `validate`, on the signer that `as_system_origin_signer` finds in the origin.
unfoldable pub validate : Config → Storage → Option ℕ → ℕ → Validity (Option ℕ)
unfolding admit
validate c s none len = valid none
validate c s (some who) len = admit c s len who

-- The closure that `prepare` gives to `AccountUsage::mutate`.
charge : Config → ℕ → ℕ → Usage → Usage
charge c block len u =
    if expired c block u
    then record { bytes_used = saturating_u64 (zero + len); window_start = block }
    else record u { bytes_used = saturating_u64 (u.bytes_used + len) }

-- `prepare`, on the value that `validate` returned.
unfoldable pub prepare : Config → Storage → Option ℕ → ℕ → Storage
unfolding charge
prepare c s none len = s
prepare c s (some who) len = record s {
  account_usage = put who (charge c s.block_number len (s.account_usage who)) s.account_usage;
}
