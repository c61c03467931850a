-- ===== src/Midnight/Applying.antt =====
-- What `send_mn_transaction` leaves behind, on every branch.
use midnight_node.Prelude.{
  ◌≤◌, ◌<◌, none, ◌≡◌, ◌⊎◌, inl, inr, refl, some, ◌++◌, length, arith, Bool-cases, Option-cases,
  leb, leb→le,
}
use midnight_node.LedgerErrors.{LedgerApiError}
use midnight_node.Midnight.Types.{
  Bytes, Applied, missing_ledger_state, new_state_out_of_bounds, from_ledger, Result, ok, err,
  Runtime, Storage,
}
use midnight_node.Midnight.Calls.{
  get_block_context, send_mn_transaction, applied_events, state_key_length,
}

pub Result-cases :
    {E A : Type 0} (r : Result E A) → ((a : A) × (r ≡ ok a)) ⊎ ((e : E) × (r ≡ err e))
Result-cases (ok a) = inl (a, refl)
Result-cases (err e) = inr (e, refl)

module _ {Origin Weight World : Type 0} (rt : Runtime Origin Weight World) where
  open rt use {ledger}

  abbrev answer : Bytes → Bytes → Storage Weight World → Result LedgerApiError Applied × World
  answer key tx s = ledger.apply_transaction key tx (get_block_context s) rt.spec_version s.world

  -- Without a state key, `send_mn_transaction` fails and changes nothing. Otherwise it asks the ledger
  -- to apply the transaction to the state of that key. If the ledger applies it, and its new key has
  -- at most 1065 bytes, the call succeeds, stores this key and deposits the events of the
  -- transaction; if the key is longer, the call fails with `new_state_out_of_bounds`; if the ledger
  -- refuses the transaction, it fails with the error of the ledger. Beside these changes only the
  -- world of the ledger is another.
  pub send_mn_transaction_lem :
      (tx : Bytes) (s : Storage Weight World)
      → let (result, t) = send_mn_transaction rt tx s in
        ((s.state_key ≡ none) × (result ≡ err missing_ledger_state) × (t ≡ s))
        ⊎ ((key : Bytes) × (s.state_key ≡ some key)
            × (((a : Applied) × ((answer key tx s).0 ≡ ok a)
                  × (length a.state_root ≤ state_key_length)
                  × (result ≡ ok tt)
                  × (t ≡ record s {
                    state_key = some a.state_root;
                    events = s.events ++ applied_events a;
                    world = (answer key tx s).1;
                  }))
                ⊎ ((a : Applied) × ((answer key tx s).0 ≡ ok a)
                    × (state_key_length < length a.state_root)
                    × (result ≡ err new_state_out_of_bounds)
                    × (t ≡ record s { world = (answer key tx s).1 }))
                ⊎ ((e : LedgerApiError) × ((answer key tx s).0 ≡ err e)
                    × (result ≡ err (from_ledger e))
                    × (t ≡ record s { world = (answer key tx s).1 }))))
  unfolding send_mn_transaction
  send_mn_transaction_lem tx s = elim (Option-cases s.state_key) [
    | inl h ↦ inl (h, ground (arith, h), ground (arith, h))
    | inr (key, h) ↦ elim (Result-cases (answer key tx s).0) [
      | inl (a, answered) ↦ elim (Bool-cases (leb (length a.state_root) state_key_length)) [
        | inl fits ↦ inr (
          key,
          h,
          inl (
            a,
            answered,
            leb→le (length a.state_root) state_key_length fits,
            ground (arith, h, answered, fits),
            ground (arith, h, answered, fits),
          ),
        )
        | inr long ↦ inr (
          key,
          h,
          inr (
              inl (
                a,
                answered,
                ground (arith, long),
                ground (arith, h, answered, long),
                ground (arith, h, answered, long),
              )),
        )
      ]
      | inr (e, refused) ↦
          inr
            (key, h, inr (inr (e, refused, ground (arith, h, refused), ground (arith, h, refused))))
    ]
  ]
