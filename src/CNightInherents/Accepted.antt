-- ===== src/CNightInherents/Accepted.antt =====
-- The inherent that a block author makes from the data source, in `process_tokens`.
use midnight_node.Prelude.{
  ℕ, ◌*◌, ◌-◌, ◌^◌, ◌%◌, ◌≤◌, ◌<◌, ◌≡◌, refl, sym, subst, ap, inl, inr, Bool, true, false, List,
  length, leb, ◌==◌, arith,
}
use midnight_node.CNightObservation.Position.{CardanoPosition, position_compare}
use midnight_node.CNightObservation.Types.{ObservedUtxo, Storage, Runtime}
use midnight_node.CNightObservation.Process.{processed, process_tokens, advances, capacity}
use midnight_node.CNightObservation.Blocks.{Passed, process_batch-Passed}
use midnight_node.CNightSource.Capacity.{ObservedUtxos, before, position_of}
use midnight_node.CNightSource.Occurring.{InOrder}
use midnight_node.CNightSource.Completeness.{IsPrefix}
use midnight_node.CNightSource.Covering.{sort-InOrder}
use midnight_node.CNightSource.Rows.{
  ok, RegistrationRow, DeregistrationRow, AssetCreateRow, AssetSpendRow,
}
use midnight_node.CNightSource.Decoding.{CardanoLib}
use midnight_node.CNightSource.Source.{Database, get_utxos_up_to_capacity}
use midnight_node.CNightSource.Tables.{same_tx, utxos_of, length-num_txs, length-filter-filter}
use midnight_node.CNightSource.Complete.{IsObservable, observable, get_utxos-IsPrefix}
use midnight_node.CNightSource.CatchingUp.{before_end-InOrder}
use midnight_node.CNightInherents.{Provider, created, config_of, new}
use midnight_node.CNightInherents.Settings.{
  SameSettings, Executes, process_batch-processed, process_batch-SameSettings,
}

not_before-advances :
    {Origin World : Type 0} (rt : Runtime Origin World) (p q : CardanoPosition)
    → before q p ≡ false
    → advances rt p q ≡ true
unfolding before position_compare
not_before-advances rt p q h = ground (arith, h)

pub before_asym : (p q : CardanoPosition) → before p q ≡ true → before q p ≡ false
unfolding before
before_asym p q h = ground (arith, h)

module _ {Datum Constr Hash Credential Address World : Type 0}
    (lib : CardanoLib Datum Constr Hash Credential Address) (db : Database Datum Hash)
    (is_utf8 : List ℕ → Bool) where
  -- The storage has proper texts and a capacity, the tables can be read, no transaction has more than
  -- 64 UTXOs in all of them together, the position is not past the tip, and the block has no
  -- inherent yet.
  pub record IsReady (current_tip : List ℕ) (cardano_network : ℕ) (policy_id : Hash)
      (end' : CardanoPosition) (rs : List (RegistrationRow Datum))
      (ds : List (DeregistrationRow Datum)) (cs : List AssetCreateRow) (ss : List AssetSpendRow)
      (s : Storage World) : Type 0 where
    pub address_text : is_utf8 s.mapping_validator_address ≡ true
    pub token_text : is_utf8 s.auth_token_asset_name ≡ true
    pub asset_text : is_utf8 s.cnight_asset_name ≡ true
    pub policy_length : (length s.cnight_policy_id == 28) ≡ true
    pub tables :
        IsObservable lib db (config_of s) current_tip cardano_network policy_id end' rs ds cs ss
    pub large : 2 ≤ s.cardano_tx_capacity_per_block
    pub small : s.cardano_tx_capacity_per_block * 64 < 2 ^ 31 - 1
    pub few :
        (p : CardanoPosition)
        → utxos_of p (
            observable lib db
              (config_of s)
              cardano_network
              s.next_cardano_position
              end'
              rs
              ds
              cs
              ss)
          ≤ 64
    pub not_past : before end' s.next_cardano_position ≡ false
    pub unmarked : s.inherent_executed_this_block ≡ false

  module _ {Origin : Type 0} (rt : Runtime Origin World) (origin : Origin)
      (is_inherent : rt.ensure_none origin ≡ true) (current_tip : List ℕ) (cardano_network : ℕ)
      (policy_id : Hash) (end' : CardanoPosition) (rs : List (RegistrationRow Datum))
      (ds : List (DeregistrationRow Datum)) (cs : List AssetCreateRow) (ss : List AssetSpendRow)
      (s : Storage World)
      (w : IsReady current_tip cardano_network policy_id end' rs ds cs ss s) where
    all : List ObservedUtxo
    all = observable lib db (config_of s) cardano_network s.next_cardano_position end' rs ds cs ss

    new-created :
        (r : ObservedUtxos)
        → get_utxos_up_to_capacity lib db
            (config_of s)
            s.next_cardano_position
            current_tip
            s.cardano_tx_capacity_per_block
          ≡ ok r
        → new lib db is_utf8 s current_tip
          ≡ created (record { utxos = r.utxos; next_cardano_position = r.end' })
    unfolding new
    new-created r e = rw (w.address_text, w.token_text, w.policy_length, w.asset_text, e) refl

    prefix_short :
        (r : ObservedUtxos)
        → IsPrefix s.next_cardano_position end' s.cardano_tx_capacity_per_block all r
        → length r.utxos ≤ s.cardano_tx_capacity_per_block * 64
    unfolding all
    prefix_short r h =
        let f : ObservedUtxo → Bool = λ u. before (position_of u) r.end' in
        let in_order : InOrder r.utxos =
          subst InOrder (sym h.kept) (before_end-InOrder r.end' all (sort-InOrder _)) in
        let few : (p : CardanoPosition) → utxos_of p r.utxos ≤ 64 = λ p. omega (
          arith,
          ap (utxos_of p) h.kept,
          length-filter-filter (λ u. same_tx p (position_of u)) f all,
          w.few p,
        ) in
        omega (arith, length-num_txs r.utxos in_order few, h.below)

    prefix-advances :
        (r : ObservedUtxos)
        → IsPrefix s.next_cardano_position end' s.cardano_tx_capacity_per_block all r
        → advances rt s.next_cardano_position r.end' ≡ true
    prefix-advances r h = not_before-advances rt s.next_cardano_position r.end' (elim h.advance [
      | inl at_tip ↦ subst (λ e. before e s.next_cardano_position ≡ false) (sym at_tip) w.not_past
      | inr (full, later) ↦ before_asym s.next_cardano_position r.end' later
    ])

    process_tokens_passes :
        (us : List ObservedUtxo) (position : CardanoPosition)
        → length us ≤ s.cardano_tx_capacity_per_block * 64
        → advances rt s.next_cardano_position position ≡ true
        → Passed rt us position (process_tokens rt origin us position s)
          × (Executes rt
              → (process_tokens rt origin us position s).0 ≡ processed (length us % 4294967296))
          × SameSettings rt s (process_tokens rt origin us position s).1
    unfolding process_tokens
    process_tokens_passes us position short ahead =
        let fits : leb (length us % 4294967296) (capacity rt s) ≡ true =
          ground (arith, short, w.small) in
        let marked = record s { inherent_executed_this_block = true } in
        rw (is_inherent, fits, w.unmarked, process_tokens)
          (
            process_batch-Passed rt us position marked refl ahead,
            λ runs.
                process_batch-processed rt (length us % 4294967296) us position marked runs ahead,
            process_batch-SameSettings rt (length us % 4294967296) us position marked,
          )

    pub new-IsPrefix :
        (r : ObservedUtxos) × (new lib db is_utf8 s current_tip
          ≡ created (record { utxos = r.utxos; next_cardano_position = r.end' }))
        × IsPrefix s.next_cardano_position end' s.cardano_tx_capacity_per_block
            (observable lib db
              (config_of s)
              cardano_network
              s.next_cardano_position
              end'
              rs
              ds
              cs
              ss)
            r
        × Passed rt r.utxos r.end' (process_tokens rt origin r.utxos r.end' s)
        × (Executes rt
            → (process_tokens rt origin r.utxos r.end' s).0
              ≡ processed (length r.utxos % 4294967296))
        × SameSettings rt s (process_tokens rt origin r.utxos r.end' s).1
    unfolding all
    new-IsPrefix =
        let (r, e, h) =
          get_utxos-IsPrefix lib db (config_of s) s.next_cardano_position current_tip
            s.cardano_tx_capacity_per_block cardano_network policy_id end' rs ds cs ss w.large
            w.small w.tables in
        let (passed, ran, same) =
          process_tokens_passes r.utxos r.end' (prefix_short r h) (prefix-advances r h) in
        (r, new-created r e, h, passed, ran, same)

    -- With proper texts in the storage, a capacity of two transactions or more, which the
    -- `assert!`s of the queries admit, four tables whose rows all decode, at most 64 UTXOs for a
    -- transaction in all of them together, a position that is not past the tip, and no inherent
    -- in the block so far: the provider is created, and `process_tokens` takes its inherent,
    -- where only the executor of the system transaction can fail; the position is then the
    -- provider's.
    pub process_tokens-new :
        (p : Provider) × (new lib db is_utf8 s current_tip ≡ created p)
        × Passed rt p.utxos p.next_cardano_position
            (process_tokens rt origin p.utxos p.next_cardano_position s)
    process_tokens-new =
        let (r, e, _, passed, _, _) = new-IsPrefix in
        (record { utxos = r.utxos; next_cardano_position = r.end' }, e, passed)
