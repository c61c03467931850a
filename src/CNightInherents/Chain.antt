-- ===== src/CNightInherents/Chain.antt =====
-- Blocks one after the other, each with the inherent that the provider makes of the storage of the
-- one before.
use midnight_node.Prelude.{
  ℕ, zero, suc, ◌≤◌, ◌<◌, ◌≡◌, refl, sym, subst, ap, ◌∙◌, ◌⊎◌, inl, inr, Bool, true, false, not,
  Option, some, List, length-append, length, ◌==◌, arith,
}
use midnight_node.CNightObservation.Position.{CardanoPosition}
use midnight_node.CNightObservation.Types.{ObservedUtxo, Storage, Runtime}
use midnight_node.CNightObservation.Process.{
  Outcome, processed, failed, process_tokens, on_finalize,
}
use midnight_node.CNightSource.Capacity.{ObservedUtxos, before, position_of}
use midnight_node.CNightSource.Completeness.{IsPrefix}
use midnight_node.CNightSource.Rows.{
  RegistrationRow, DeregistrationRow, AssetCreateRow, AssetSpendRow,
}
use midnight_node.CNightSource.Decoding.{CardanoLib, then_some}
use midnight_node.CNightSource.Source.{CNightAddresses, Database}
use midnight_node.CNightSource.Tables.{same_tx, utxos_of, length-filter-filter}
use midnight_node.CNightSource.Complete.{IsObservable, observable}
use midnight_node.CNightSource.Resuming.{left-from_end, prefix_and_left, num_txs-length}
use midnight_node.CNightInherents.{
  config_of, block, apply_inherent, accept, provide_inherent_data, new_if_pallet_present,
}
use midnight_node.CNightInherents.Settings.{SameSettings, Executes}
use midnight_node.CNightInherents.Accepted.{IsReady, new-IsPrefix, before_asym}

accept_processed :
    {Origin World : Type 0} (rt : Runtime Origin World) (origin : Origin)
    (x : Outcome × Storage World) (count : ℕ)
    → x.0 ≡ processed count
    → accept rt origin x ≡ some (on_finalize rt x.1)
accept_processed rt origin (processed n, s) count h = refl
accept_processed rt origin (failed e, s) count h = cc h

module _ {Datum Constr Hash Credential Address Origin World : Type 0}
    (lib : CardanoLib Datum Constr Hash Credential Address) (db : Database Datum Hash)
    (is_utf8 : List ℕ → Bool) (rt : Runtime Origin World) (origin : Origin)
    (current_tip : List ℕ) where
  -- This many blocks, with the same block of Cardano as their reference.
  unfoldable pub blocks : ℕ → Storage World → Option (Storage World)
  unfolding block
  blocks zero s = some s
  blocks (suc count) s =
      then_some (block lib db is_utf8 rt origin current_tip s) (λ t. blocks count t)

  module _ (is_inherent : rt.ensure_none origin ≡ true) (runs : Executes rt) (cardano_network : ℕ)
      (policy_id : Hash) (end' : CardanoPosition) (rs : List (RegistrationRow Datum))
      (ds : List (DeregistrationRow Datum)) (cs : List AssetCreateRow)
      (ss : List AssetSpendRow) where
    abbrev Ready : Storage World → Type 0
    Ready s = IsReady lib db is_utf8 current_tip cardano_network policy_id end' rs ds cs ss s

    -- What is left to observe from the position of a storage.
    abbrev ahead : Storage World → List ObservedUtxo
    ahead s =
        observable lib db (config_of s) cardano_network s.next_cardano_position end' rs ds cs ss

    -- A storage with the settings of a ready one, a later position and no mark.
    Ready-later :
        (s t : Storage World)
        → Ready s
        → SameSettings rt s t
        → before end' t.next_cardano_position ≡ false
        → before t.next_cardano_position s.next_cardano_position ≡ false
        → t.inherent_executed_this_block ≡ false
        → Ready t
    Ready-later s t w (config, same_capacity) not_past later unmarked =
        let back = sym config in
        record {
          address_text =
              subst (λ (c : CNightAddresses). is_utf8 c.mapping_validator_address ≡ true) back
                w.address_text;
          token_text =
              subst (λ (c : CNightAddresses). is_utf8 c.auth_token_asset_name ≡ true) back
                w.token_text;
          asset_text =
              subst (λ (c : CNightAddresses). is_utf8 c.cnight_asset_name ≡ true) back w.asset_text;
          policy_length =
              subst (λ (c : CNightAddresses). (length c.cnight_policy_id == 28) ≡ true) back
                w.policy_length;
          tables =
              subst
                (λ c. IsObservable lib db c current_tip cardano_network policy_id end' rs ds cs ss)
                back w.tables;
          large = subst (λ n. 2 ≤ n) (sym same_capacity) w.large;
          small = omega (arith, same_capacity, w.small);
          few = λ p.
              let parts =
                left-from_end lib db (config_of s) current_tip s.cardano_tx_capacity_per_block
                  cardano_network policy_id end' rs ds cs ss w.large w.small w.tables
                  s.next_cardano_position t.next_cardano_position later in
              omega (
                arith,
                ap (utxos_of p) parts,
                length-filter-filter (λ u. same_tx p (position_of u))
                    (λ u. not (before (position_of u) t.next_cardano_position)) (ahead s),
                w.few p,
              );
          not_past = not_past;
          unmarked = unmarked;
        }

    -- What one more block does.
    record IsNext (s t : Storage World) (r : ObservedUtxos) : Type 0 where
      made : block lib db is_utf8 rt origin current_tip s ≡ some t
      ready : Ready t
      observed : IsPrefix s.next_cardano_position end' s.cardano_tx_capacity_per_block (ahead s) r
      moved : t.next_cardano_position ≡ r.end'
      onward : before r.end' s.next_cardano_position ≡ false

    block-IsNext :
        (s : Storage World) → Ready s → (t : Storage World) × (r : ObservedUtxos) × IsNext s t r
    unfolding block new_if_pallet_present provide_inherent_data on_finalize
    block-IsNext s w =
        let (r, e, h, passed, ran, same) =
          new-IsPrefix lib db is_utf8 rt origin is_inherent current_tip cardano_network policy_id
            end' rs ds cs ss s w in
        let u = (process_tokens rt origin r.utxos r.end' s).1 in
        let moved : u.next_cardano_position ≡ r.end' = passed.2 in
        let onward : before r.end' s.next_cardano_position ≡ false = elim h.advance [
          | inl at_tip ↦
              subst (λ e. before e s.next_cardano_position ≡ false) (sym at_tip) w.not_past
          | inr (full, later) ↦ before_asym s.next_cardano_position r.end' later
        ] in
        (
          on_finalize rt u,
          r,
          record {
            made =
                ap (λ c. apply_inherent rt origin c s) e
                ∙ accept_processed rt origin (process_tokens rt origin r.utxos r.end' s) _
                    (ran runs);
            ready =
                Ready-later s (on_finalize rt u) w same
                  (subst (λ p. before end' p ≡ false) (sym moved) h.upto)
                  (subst (λ p. before p s.next_cardano_position ≡ false) (sym moved) onward) refl;
            observed = h;
            moved = moved;
            onward = onward;
          },
        )

    -- There is less left to observe, or the position is the tip's.
    ahead-shorter :
        (count : ℕ) (s t : Storage World) (r : ObservedUtxos)
        → Ready s
        → IsNext s t r
        → (s.next_cardano_position ≡ end') ⊎ (length (ahead s) < suc count)
        → (t.next_cardano_position ≡ end') ⊎ (length (ahead t) < count)
    ahead-shorter count s t r w n fuel = elim n.observed.advance [
      | inl at_tip ↦ inl (n.moved ∙ at_tip)
      | inr (full, later) ↦ elim fuel [
        | inl here ↦ cc (ap (λ p. before p r.end') here, later, n.observed.upto)
        | inr enough ↦
            let parts =
              prefix_and_left lib db (config_of s) current_tip s.cardano_tx_capacity_per_block
                cardano_network policy_id end' rs ds cs ss w.large w.small w.tables
                s.next_cardano_position r w.not_past n.observed in
            let some_utxo = num_txs-length r.utxos (omega (arith, full, w.large)) in
            inr (
              omega (
                arith,
                enough,
                some_utxo,
                length-append r.utxos
                    (observable lib db (config_of s) cardano_network r.end' end' rs ds cs ss),
                ap length parts,
                ap
                    (λ p.
                      length (observable lib db (config_of s) cardano_network p end' rs ds cs ss))
                    n.moved,
              ))
      ]
    ]

    -- With proper texts in the storage, a capacity of two transactions or more, which the
    -- `assert!`s of the queries admit, four tables whose rows all decode, at most 64 UTXOs for a
    -- transaction in all of them together, a position that is not past the tip, and an executor
    -- that executes every system transaction: more blocks than there are UTXOs up to the tip are
    -- all made, and bring the position to the tip's.
    pub blocks-tip :
        (count : ℕ) (s : Storage World)
        → IsReady lib db is_utf8 current_tip cardano_network policy_id end' rs ds cs ss s
        → (s.next_cardano_position ≡ end')
          ⊎ (length (
                observable lib db
                  (config_of s)
                  cardano_network
                  s.next_cardano_position
                  end'
                  rs
                  ds
                  cs
                  ss)
              < count)
        → (t : Storage World) × (blocks count s ≡ some t) × (t.next_cardano_position ≡ end')
    unfolding blocks
    blocks-tip zero s w (inl here) = (s, refl, here)
    blocks-tip zero s w (inr fuel) = ground (arith, fuel)
    blocks-tip (suc count) s w fuel =
        let (t, r, n) = block-IsNext s w in
        let (u, made, at_tip) = blocks-tip count t n.ready (ahead-shorter count s t r w n fuel) in
        (u, ap (λ o. then_some o (λ v. blocks count v)) n.made ∙ made, at_tip)
