-- ===== src/CNightObservation/Layer.antt =====
-- `process_tokens` as FRAME dispatches it, in a storage layer.
use midnight_node.Prelude.{
  [], some, is_empty, Bool-cases, Option-cases, ℕ, ◌%◌, ◌≤◌, ◌<◌, ◌≡◌, refl, ◌∙◌, ap, true, false,
  List, leb, length, arith, ◌⊎◌, inl, inr,
}
use midnight_node.CNightObservation.Position.{CardanoPosition}
use midnight_node.CNightObservation.Types.{
  Error, ObservedUtxo, inherent_already_executed, cardano_position_regression, too_many_utxos,
  bad_origin, execution, Storage, not_executed, Execution-cases, Runtime,
}
use midnight_node.CNightObservation.Process.{
  Outcome, processed, failed, process_utxos, finish, advances, process_batch, capacity,
  process_tokens,
}
use midnight_node.CNightObservation.Blocks.{process_tokens_lem}

module _ {Origin World : Type 0} (rt : Runtime Origin World) where
  -- The executor refuses the system transaction of the events of the observations.
  abbrev NotExecuted : List ObservedUtxo → Storage World → ℕ → Type 0
  NotExecuted us s code =
      let (events, t) = process_utxos rt us [] (record s { inherent_executed_this_block = true }) in
      (tx : List ℕ) × (rt.construct_system_tx events ≡ some tx)
      × ((rt.execute_system_transaction tx t.world).0 ≡ not_executed code)

  finish-refused :
      (count : ℕ) (position : CardanoPosition) (events : List (List ℕ)) (t : Storage World)
      (code : ℕ)
      → (finish rt count position events t).0 ≡ failed (execution code)
      → (tx : List ℕ) × (rt.construct_system_tx events ≡ some tx)
        × ((rt.execute_system_transaction tx t.world).0 ≡ not_executed code)
  unfolding finish
  finish-refused count position events t code fails = elim (Bool-cases (is_empty events)) [
    | inl no_events ↦ absurd (ground (arith, fails, no_events))
    | inr some_events ↦ elim (Option-cases (rt.construct_system_tx events)) [
      | inl broken ↦ absurd (ground (arith, fails, some_events, broken))
      | inr (tx, built) ↦ elim (Execution-cases (rt.execute_system_transaction tx t.world).0) [
        | inl (tx_hash, ran) ↦ absurd (ground (arith, fails, some_events, built, ran))
        | inr (code', refused) ↦ (tx, built, ground (arith, fails, some_events, built, refused))
      ]
    ]
  ]

  process_tokens-NotExecuted :
      (o : Origin) (us : List ObservedUtxo) (position : CardanoPosition) (s : Storage World)
      (code : ℕ)
      → rt.ensure_none o ≡ true
      → leb (length us % 4294967296) (capacity rt s) ≡ true
      → s.inherent_executed_this_block ≡ false
      → advances rt s.next_cardano_position position ≡ true
      → (process_tokens rt o us position s).0 ≡ failed (execution code)
      → NotExecuted us s code
  unfolding process_tokens process_batch
  process_tokens-NotExecuted o us position s code inherent few first ahead fails =
      let (events, t) = process_utxos rt us [] (record s { inherent_executed_this_block = true }) in
      finish-refused (length us % 4294967296) position events t code
        (ground (arith, inherent, few, first, ahead, fails))

  -- A second inherent in a block.
  marked-fails :
      (o : Origin) (us : List ObservedUtxo) (position : CardanoPosition) (t : Storage World)
      → t.inherent_executed_this_block ≡ true
      → (e : Error) × ((process_tokens rt o us position t).0 ≡ failed e)
  marked-fails o us position t marked = elim (process_tokens_lem rt o us position t) [
    | inl (_, r) ↦ (bad_origin, ap (λ r. r.0) r)
    | inr (inl (_, r)) ↦ (too_many_utxos, ap (λ r. r.0) r)
    | inr (inr (inl (_, r))) ↦ (inherent_already_executed, ap (λ r. r.0) r)
    | inr (inr (inr (inl (_, r)))) ↦ (cardano_position_regression, ap (λ r. r.0) r)
    | inr (inr (inr (inr (_, _, first, _, _)))) ↦ absurd (cc (marked, first))
  ]

  -- Why a call fails.
  abbrev pub Refused : Origin → List ObservedUtxo → CardanoPosition → Storage World → Error → Type 0
  Refused o us position s e =
      ((rt.ensure_none o ≡ false) × (e ≡ bad_origin))
      ⊎ ((capacity rt s < length us % 4294967296) × (e ≡ too_many_utxos))
      ⊎ ((s.inherent_executed_this_block ≡ true) × (e ≡ inherent_already_executed))
      ⊎ ((advances rt s.next_cardano_position position ≡ false) × (e ≡ cardano_position_regression))
      ⊎ ((code : ℕ) × NotExecuted us s code × (e ≡ execution code))

  abbrev Dispatched :
      ((Storage World → Outcome × Storage World) → Storage World → Outcome × Storage World)
      → Origin
      → List ObservedUtxo
      → CardanoPosition
      → Storage World
      → Type 0
  Dispatched layer o us position s =
      let (out, t) = layer (process_tokens rt o us position) s in
      ((e : Error) × (out ≡ failed e) × (t ≡ s) × Refused o us position s e)
      ⊎ ((out ≡ processed (length us % 4294967296))
          × (rt.ensure_none o ≡ true)
          × (s.inherent_executed_this_block ≡ false)
          × (t.inherent_executed_this_block ≡ true)
          × (advances rt s.next_cardano_position position ≡ true)
          × (t.next_cardano_position ≡ position)
          × (length us % 4294967296 ≤ capacity rt s)
          × ((o' : Origin) (us' : List ObservedUtxo) (position' : CardanoPosition)
              → (e : Error) × (layer (process_tokens rt o' us' position') t ≡ (failed e, t))))

  -- Dispatched in a layer that undoes a call that fails, and keeps what a call that succeeds has
  -- written, `process_tokens` either fails for one of its five causes, each with its own error, and
  -- changes nothing; or it succeeds, and then the origin is that of an inherent, the block had no
  -- such call before and has one now, the position on Cardano did not go back and is the given one,
  -- the number of observations, as 32 bits, is within the capacity, and any further call in this
  -- block, with whatever data, fails and changes nothing.
  pub process_tokens_in_layer :
      (layer : (Storage World → Outcome × Storage World) → Storage World → Outcome × Storage World)
      → ((f : Storage World → Outcome × Storage World) (s : Storage World) (e : Error)
          → (f s).0 ≡ failed e
          → layer f s ≡ (failed e, s))
      → ((f : Storage World → Outcome × Storage World) (s : Storage World) (n : ℕ)
          → (f s).0 ≡ processed n
          → layer f s ≡ f s)
      → (o : Origin) (us : List ObservedUtxo) (position : CardanoPosition) (s : Storage World)
      → let (out, t) = layer (process_tokens rt o us position) s in
        ((e : Error) × (out ≡ failed e) × (t ≡ s) × Refused o us position s e)
        ⊎ ((out ≡ processed (length us % 4294967296))
            × (rt.ensure_none o ≡ true)
            × (s.inherent_executed_this_block ≡ false)
            × (t.inherent_executed_this_block ≡ true)
            × (advances rt s.next_cardano_position position ≡ true)
            × (t.next_cardano_position ≡ position)
            × (length us % 4294967296 ≤ capacity rt s)
            × ((o' : Origin) (us' : List ObservedUtxo) (position' : CardanoPosition)
                → (e : Error) × (layer (process_tokens rt o' us' position') t ≡ (failed e, t))))
  process_tokens_in_layer layer undoes keeps o us position s =
      let call = process_tokens rt o us position in
      let drop : (e : Error)
          → (call s).0 ≡ failed e
          → Refused o us position s e
          → Dispatched layer o us position s =
        λ e fails cause. inl (
          e,
          ap (λ r. r.0) (undoes call s e fails),
          ap (λ r. r.1) (undoes call s e fails),
          cause,
        ) in
      elim (process_tokens_lem rt o us position s) [
        | inl (cause, r) ↦ drop bad_origin (ap (λ r. r.0) r) (inl (cause, refl))
        | inr (inl (cause, r)) ↦
            drop too_many_utxos (ap (λ r. r.0) r) (inr (inl (ground (arith, cause), refl)))
        | inr (inr (inl (cause, r))) ↦
            drop inherent_already_executed (ap (λ r. r.0) r) (inr (inr (inl (cause, refl))))
        | inr (inr (inr (inl (cause, r)))) ↦
            drop cardano_position_regression (ap (λ r. r.0) r) (inr (inr (inr (inl (cause, refl)))))
        | inr (inr (inr (inr (inherent, few, first, ahead, (inr (code, fails), flag, at))))) ↦
            let refused =
              process_tokens-NotExecuted o us position s code inherent few first ahead fails in
            drop (execution code) fails (inr (inr (inr (inr (code, refused, refl)))))
        | inr (inr (inr (inr (inherent, few, first, ahead, (inl runs, flag, at))))) ↦
            let kept = keeps call s (length us % 4294967296) runs in
            let t = (layer call s).1 in
            let marked : t.inherent_executed_this_block ≡ true =
              ap (λ r. r.1.inherent_executed_this_block) kept ∙ flag in
            inr (
              ap (λ r. r.0) kept ∙ runs,
              inherent,
              first,
              marked,
              ahead,
              ap (λ r. r.1.next_cardano_position) kept ∙ at,
              ground (arith, few),
              λ o' us' position'.
                  let (e, fails) = marked-fails o' us' position' t marked in
                  (e, undoes (process_tokens rt o' us' position') t e fails),
            )
      ]
