-- ===== src/CNightObservation/Blocks.antt =====
-- When `process_tokens` succeeds, what a failure leaves behind, and how the position moves.
use midnight_node.Prelude.{
  ℕ, ◌/◌, ◌%◌, ◌≡◌, refl, ◌∙◌, ap, true, false, List, [], ◌∷◌, leb, length, is_empty, arith,
  Bool-cases, Option-cases, ◌⊎◌, inl, inr,
}
use midnight_node.CNightObservation.Position.{CardanoPosition, position_compare, ObservedUtxoHeader}
use midnight_node.CNightObservation.Types.{
  ObservedUtxo, ObservedUtxoData, registration, deregistration, asset_create, asset_spend,
  inherent_already_executed, cardano_position_regression, too_many_utxos, bad_origin, execution,
  Storage, Execution-cases, Runtime,
}
use midnight_node.CNightObservation.Mappings.{handle_registration, handle_registration_removal}
use midnight_node.CNightObservation.Utxos.{handle_create, handle_spend}
use midnight_node.CNightObservation.Process.{
  Outcome, processed, failed, process_utxo, process_utxos, finish, advances, process_batch,
  capacity, process_tokens, on_finalize, set_mapping_validator_contract_address,
}

module _ {Origin World : Type 0} (rt : Runtime Origin World) where
  -- What the loop over the observations never touches.
  abbrev Apart : Storage World → Storage World → Type 0
  Apart s t =
      (t.inherent_executed_this_block ≡ s.inherent_executed_this_block)
      × (t.next_cardano_position ≡ s.next_cardano_position)

  process_utxo-Apart :
      (now : ℕ) (header : ObservedUtxoHeader) (payload : ObservedUtxoData) (events : List (List ℕ))
      (s : Storage World)
      → Apart s (process_utxo rt now header payload events s).1
  unfolding process_utxo handle_registration handle_registration_removal handle_create handle_spend
  process_utxo-Apart now header (registration d) events s = (ground arith, ground arith)
  process_utxo-Apart now header (deregistration d) events s = (ground arith, ground arith)
  process_utxo-Apart now header (asset_create d) events s = (ground arith, ground arith)
  process_utxo-Apart now header (asset_spend d) events s = (ground arith, ground arith)

  process_utxos-Apart :
      (us : List ObservedUtxo) (events : List (List ℕ)) (s : Storage World)
      → Apart s (process_utxos rt us events s).1
  unfolding process_utxos
  process_utxos-Apart [] events s = (refl, refl)
  process_utxos-Apart (u ∷ us) events s =
      let now = u.header.tx_position.block_timestamp / 1000 in
      let (events', t) = process_utxo rt now u.header u.payload events s in
      let (flag, position) = process_utxos-Apart us events' t in
      let (flag', position') = process_utxo-Apart now u.header u.payload events s in
      (flag ∙ flag', position ∙ position')

  finish_lem :
      (count : ℕ) (position : CardanoPosition) (events : List (List ℕ)) (s : Storage World)
      → let (out, t) = finish rt count position events s in
        ((out ≡ processed count) ⊎ ((code : ℕ) × (out ≡ failed (execution code))))
        × (t.inherent_executed_this_block ≡ s.inherent_executed_this_block)
        × (t.next_cardano_position ≡ position)
  unfolding finish
  finish_lem count position events s = elim (Bool-cases (is_empty events)) [
    | inl no_events ↦ (inl (ground arith), ground arith, ground arith)
    | inr some_events ↦ elim (Option-cases (rt.construct_system_tx events)) [
      | inl broken ↦ (inl (ground arith), ground arith, ground arith)
      | inr (tx, built) ↦ elim (Execution-cases (rt.execute_system_transaction tx s.world).0) [
        | inl (tx_hash, ran) ↦ (inl (ground arith), ground arith, ground arith)
        | inr (code, refused) ↦ (inr (code, ground arith), ground arith, ground arith)
      ]
    ]
  ]

  -- 2 ^ 32, for the cast of the number of observations to `u32`.
  abbrev count_of : List ObservedUtxo → ℕ
  count_of us = length us % 4294967296

  -- The batch is processed, or only the executor of the system transaction fails: the mark of the
  -- block is set and the position is the given one.
  abbrev pub Passed : List ObservedUtxo → CardanoPosition → Outcome × Storage World → Type 0
  Passed us position (out, t) =
      ((out ≡ processed (count_of us)) ⊎ ((code : ℕ) × (out ≡ failed (execution code))))
      × (t.inherent_executed_this_block ≡ true)
      × (t.next_cardano_position ≡ position)

  pub process_batch-Passed :
      (us : List ObservedUtxo) (position : CardanoPosition) (s : Storage World)
      → s.inherent_executed_this_block ≡ true
      → advances rt s.next_cardano_position position ≡ true
      → Passed us position (process_batch rt (count_of us) us position s)
  unfolding process_batch
  process_batch-Passed us position s marked ahead =
      let (events, t) = process_utxos rt us [] s in
      let (flag, _) = process_utxos-Apart us [] s in
      let (out, flag', position') = finish_lem (count_of us) position events t in
      rw (ahead, process_batch) (out, flag' ∙ flag ∙ marked, position')

  regression :
      (o : Origin) (us : List ObservedUtxo) (position : CardanoPosition) (s : Storage World)
      → rt.ensure_none o ≡ true
      → leb (count_of us) (capacity rt s) ≡ true
      → s.inherent_executed_this_block ≡ false
      → advances rt s.next_cardano_position position ≡ false
      → process_tokens rt o us position s
        ≡ (failed cardano_position_regression, record s { inherent_executed_this_block = true })
  unfolding process_tokens process_batch
  regression o us position s inherent few first back = ground arith

  -- The body of the call, without the storage layer of its dispatch. Where it fails at the origin,
  -- the number of observations or the mark of the block it has changed nothing, and where it fails
  -- at a regression of the position only the mark. Past these four guards it fails only if the
  -- system transaction does, and either way the position is then the given one and the mark is set.
  pub process_tokens_lem :
      (o : Origin) (us : List ObservedUtxo) (position : CardanoPosition) (s : Storage World)
      → let r = process_tokens rt o us position s in
        let count = length us % 4294967296 in
        ((rt.ensure_none o ≡ false) × (r ≡ (failed bad_origin, s)))
        ⊎ ((leb count (capacity rt s) ≡ false) × (r ≡ (failed too_many_utxos, s)))
        ⊎ ((s.inherent_executed_this_block ≡ true) × (r ≡ (failed inherent_already_executed, s)))
        ⊎ ((advances rt s.next_cardano_position position ≡ false)
            × (r ≡ (
              failed cardano_position_regression,
              record s { inherent_executed_this_block = true },
            )))
        ⊎ ((rt.ensure_none o ≡ true)
            × (leb count (capacity rt s) ≡ true)
            × (s.inherent_executed_this_block ≡ false)
            × (advances rt s.next_cardano_position position ≡ true)
            × Passed us position r)
  unfolding process_tokens
  process_tokens_lem o us position s = elim (Bool-cases (rt.ensure_none o)) [
    | inr signed ↦ inl (signed, ground arith)
    | inl inherent ↦ elim (Bool-cases (leb (count_of us) (capacity rt s))) [
      | inr many ↦ inr (inl (many, ground arith))
      | inl few ↦ elim (Bool-cases s.inherent_executed_this_block) [
        | inl again ↦ inr (inr (inl (again, ground arith)))
        | inr first ↦
            let marked = record s { inherent_executed_this_block = true } in
            elim (Bool-cases (advances rt s.next_cardano_position position)) [
              | inr back ↦
                  inr (inr (inr (inl (back, regression o us position s inherent few first back))))
              | inl ahead ↦ inr (
                  inr (
                    inr (
                      inr (
                        inherent,
                        few,
                        first,
                        ahead,
                        rw (inherent, few, first, process_tokens)
                            (process_batch-Passed us position marked refl ahead),
                      ))))
            ]
      ]
    ]
  ]

  advances_refl : (p : CardanoPosition) → advances rt p p ≡ true
  unfolding position_compare
  advances_refl p = ground arith

  advances_trans :
      (p q r : CardanoPosition)
      → advances rt p q ≡ true
      → advances rt q r ≡ true
      → advances rt p r ≡ true
  unfolding position_compare
  advances_trans p q r h k = ground arith

  process_tokens-advances :
      (o : Origin) (us : List ObservedUtxo) (position : CardanoPosition) (s : Storage World)
      → advances rt s.next_cardano_position
          (process_tokens rt o us position s).1.next_cardano_position
        ≡ true
  process_tokens-advances o us position s =
      let t = (process_tokens rt o us position s).1 in
      let still : t.next_cardano_position ≡ s.next_cardano_position
          → advances rt s.next_cardano_position t.next_cardano_position ≡ true =
        λ e. ap (advances rt s.next_cardano_position) e ∙ advances_refl s.next_cardano_position in
      elim (process_tokens_lem o us position s) [
        | inl (_, e) ↦ still (ap (λ r. r.1.next_cardano_position) e)
        | inr (inl (_, e)) ↦ still (ap (λ r. r.1.next_cardano_position) e)
        | inr (inr (inl (_, e))) ↦ still (ap (λ r. r.1.next_cardano_position) e)
        | inr (inr (inr (inl (_, e)))) ↦ still (ap (λ r. r.1.next_cardano_position) e)
        | inr (inr (inr (inr (_, _, _, ahead, (_, _, e))))) ↦
            ap (advances rt s.next_cardano_position) e ∙ ahead
      ]

  pub data Step (s : Storage World) : Storage World → Type 0 where
    inherent :
        (o : Origin) (us : List ObservedUtxo) (position : CardanoPosition)
        → Step s (process_tokens rt o us position s).1
    set_address :
        (o : Origin) (address : List ℕ)
        → Step s (set_mapping_validator_contract_address rt o address s).1
    finalize : Step s (on_finalize rt s)

  pub data Reach (s : Storage World) : Storage World → Type 0 where
    here : Reach s s
    next : {t u : Storage World} → Reach s t → Step t u → Reach s u

  Step-advances :
      {s t : Storage World}
      → Step s t
      → advances rt s.next_cardano_position t.next_cardano_position ≡ true
  unfolding on_finalize set_mapping_validator_contract_address position_compare
  Step-advances {s} (inherent o us position) = process_tokens-advances o us position s
  Step-advances {s} (set_address o address) = ground (arith, advances_refl s.next_cardano_position)
  Step-advances {s} finalize = advances_refl s.next_cardano_position

  -- Over any history of blocks and calls the position on Cardano never goes back.
  pub Reach-advances :
      {s t : Storage World}
      → Reach s t
      → advances rt s.next_cardano_position t.next_cardano_position ≡ true
  Reach-advances {s} here = advances_refl s.next_cardano_position
  Reach-advances {s} {t = u} (next {t} r st) =
      advances_trans s.next_cardano_position t.next_cardano_position u.next_cardano_position
        (Reach-advances r) (Step-advances st)
