-- ===== src/MidnightSystem/Executing.antt =====
-- What a system transaction leaves behind.
use midnight_node.Prelude.{
  ℕ, ◌≡◌, ◌⊎◌, inl, inr, Bool, true, false, Bool-cases, some, [], ◌∷◌, ◌++◌, ◌&&◌, leb, length,
  arith,
}
use midnight_node.LedgerErrors.{LedgerApiError}
use midnight_node.Midnight.Types.{Bytes, Result, ok, err}
use midnight_node.Midnight.Calls.{get_block_context, state_key_length}
use midnight_node.Midnight.Applying.{Result-cases}
use midnight_node.MidnightSystem.{
  system_transaction_applied, Error, ledger_api_error, bad_origin,
  system_transaction_not_allowed_for_governance, Runtime, Storage, send_mn_system_transaction,
}

abbrev pub permitted : {Origin World : Type 0} → Runtime Origin World → Origin → Bytes → Bool
permitted rt o tx = rt.ensure_root o && rt.is_governance_allowed_system_tx tx

module _ {Origin Weight World : Type 0} (rt : Runtime Origin World) where
  abbrev answer : Bytes → Bytes → Storage Weight World → Result LedgerApiError (Bytes × ℕ) × World
  answer key tx s =
      rt.apply_system_transaction key tx (get_block_context s.midnight) rt.spec_version
        s.midnight.world

  -- Where a state key is stored and the ledger gives a root of at most 1065 bytes for a system
  -- transaction, or refuses it, governance can send it if the origin is root and the ledger allows it:
  -- then the root is the new key and one event is deposited, or the error is returned and the world
  -- of the ledger alone changes. Otherwise nothing changes.
  pub send_mn_system_transaction_lem :
      (o : Origin) (key tx : Bytes) (s : Storage Weight World)
      → s.midnight.state_key ≡ some key
      → ((root : Bytes) (hash : ℕ)
          → (answer key tx s).0 ≡ ok (root, hash)
          → leb (length root) state_key_length ≡ true)
      → let sent = send_mn_system_transaction rt o tx s in
        let m = record s.midnight { world = (answer key tx s).1 } in
        ((root : Bytes) × (hash : ℕ) × ((answer key tx s).0 ≡ ok (root, hash))
          × (permitted rt o tx ≡ true)
          × (sent
              ≡ some (
                ok tt,
                record s {
                  midnight = record m { state_key = some root };
                  events = s.events ++ system_transaction_applied hash tx ∷ [];
                },
              )))
        ⊎ ((e : LedgerApiError) × ((answer key tx s).0 ≡ err e)
            × (permitted rt o tx ≡ true)
            × (sent ≡ some (err (ledger_api_error e), record s { midnight = m })))
        ⊎ ((e : Error) × (permitted rt o tx ≡ false) × (sent ≡ some (err e, s)))
  unfolding send_mn_system_transaction
  send_mn_system_transaction_lem o key tx s h fits = elim (Bool-cases (rt.ensure_root o)) [
    | inr other ↦ inr (inr (bad_origin, ground (arith, other), ground (arith, other)))
    | inl root_origin ↦ elim (Bool-cases (rt.is_governance_allowed_system_tx tx)) [
      | inr banned ↦ inr (
          inr (
            system_transaction_not_allowed_for_governance,
            ground (arith, root_origin, banned),
            ground (arith, root_origin, banned),
          ))
      | inl allowed ↦ elim (Result-cases (answer key tx s).0) [
        | inl ((root, hash), answered) ↦ inl (
          root,
          hash,
          answered,
          ground (arith, root_origin, allowed),
          ground (arith, h, answered, fits root hash answered, root_origin, allowed),
        )
        | inr (e, refused) ↦ inr (
            inl (
              e,
              refused,
              ground (arith, root_origin, allowed),
              ground (arith, h, refused, root_origin, allowed),
            ))
      ]
    ]
  ]
