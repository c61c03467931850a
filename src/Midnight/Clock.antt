-- ===== src/Midnight/Clock.antt =====
-- The times at which transactions are validated.
use midnight_node.Prelude.{ℕ, ◌+◌, ◌*◌, ◌/◌, ◌≡◌, ◌<◌, refl, saturating_u64, arith}
use midnight_node.Midnight.Types.{Runtime, Storage}
use midnight_node.Midnight.Calls.{get_block_context}
use midnight_node.Midnight.Validation.{pool_context}

later_seconds :
    (now secs k m : ℕ) → m ≡ secs * k → (now + 1000 * secs * (1 + k)) / 1000 ≡ now / 1000 + secs + m
later_seconds now secs k m h = omega (arith, h)

later_tblock :
    (now secs margin : ℕ)
    → saturating_u64 (saturating_u64 (saturating_u64 now + secs) + saturating_u64 margin)
      ≡ saturating_u64 (now + secs + margin)
later_tblock now secs margin = ground arith

whole_seconds :
    (slot secs : ℕ)
    → slot ≡ 1000 * secs
    → slot < 18446744073709551616
    → saturating_u64 slot / 1000 ≡ secs
whole_seconds slot secs h k = ground arith

module _ {Origin Weight World : Type 0} (rt : Runtime Origin Weight World) where
  -- The pool validates a transaction at the `tblock` of the block that follows after as many skipped
  -- slots as are allowed, if a slot is a whole number of seconds that 64 bits hold.
  pub pool_context_tblock :
      (secs : ℕ) (s : Storage Weight World)
      → rt.slot_duration ≡ 1000 * secs
      → rt.slot_duration < 18446744073709551616
      → (pool_context rt s).tblock
        ≡ (get_block_context (record s {
          timestamp = s.timestamp + rt.slot_duration * (1 + s.max_skipped_slots);
        })).tblock
  unfolding pool_context
  pool_context_tblock secs s whole small =
      let k = s.max_skipped_slots in
      rw (
        whole_seconds rt.slot_duration secs whole small,
        whole,
        later_tblock (s.timestamp / 1000) secs (secs * k),
        later_seconds s.timestamp secs k (secs * k) refl,
      )
