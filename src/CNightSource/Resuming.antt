-- ===== src/CNightSource/Resuming.antt =====
-- All the UTXOs up to the tip, from calls of `get_utxos_up_to_capacity` one after the other.
use Prim.Native.Nat.{Ordering}
use midnight_node.Prelude.{
  ℕ, zero, suc, ◌*◌, ◌-◌, ◌^◌, ◌≤◌, ◌<◌, ◌≡◌, refl, sym, subst, ap, ap₂, ◌∙◌, inl, inr, Bool, true,
  false, not, List, [], ◌∷◌, ◌++◌, length, length-append, filter, arith,
}
use midnight_node.CNightObservation.Position.{CardanoPosition}
use midnight_node.CNightObservation.Types.{ObservedUtxo}
use midnight_node.CNightSource.Capacity.{before, position_of, ObservedUtxos}
use midnight_node.CNightSource.Sorting.{sort}
use midnight_node.CNightSource.Occurring.{InOrder, num_txs}
use midnight_node.CNightSource.Completeness.{IsPrefix}
use midnight_node.CNightSource.Covering.{ap₄, filter-merge, sort-InOrder}
use midnight_node.CNightSource.Merging.{merge}
use midnight_node.CNightSource.Rows.{
  Result, ok, pure, ◌>>=◌, RegistrationRow, DeregistrationRow, AssetCreateRow, AssetSpendRow,
  in_range, registration_position, deregistration_position, create_position, spend_position,
  registration_order, deregistration_order, create_order, spend_order,
}
use midnight_node.CNightSource.Decoding.{CardanoLib, filter_map}
use midnight_node.CNightSource.Source.{CNightAddresses, Database, get_utxos_up_to_capacity}
use midnight_node.CNightSource.Limits.{ranged}
use midnight_node.CNightSource.Observing.{
  registrations-IsTable, deregistrations-IsTable, creates-IsTable, spends-IsTable,
}
use midnight_node.CNightSource.Complete.{IsObservable, observable, get_utxos-IsPrefix}
use midnight_node.CNightSource.CatchingUp.{from_end, split-InOrder, ranged-from_end}

in_range-empty : (e p : CardanoPosition) → in_range e e p ≡ false
unfolding in_range
in_range-empty e p = ground arith

filter-none : {A : Type 0} (p : A → Bool) (xs : List A) → ((x : A) → p x ≡ false) → filter p xs ≡ []
filter-none p [] h = refl
filter-none p (x ∷ xs) h = rw (h x, filter) (filter-none p xs h)

ranged-empty :
    {Row : Type 0} (position : Row → CardanoPosition) (cmp : Row → Row → Ordering)
    (e : CardanoPosition) (rows : List Row)
    → ranged position cmp e e rows ≡ []
unfolding sort
ranged-empty position cmp e rows =
    ap (sort cmp)
      (filter-none (λ r. in_range e e (position r)) rows (λ r. in_range-empty e (position r)))

before_not_after : (p q : CardanoPosition) → before p q ≡ true → before q p ≡ false
unfolding before
before_not_after p q h = ground (arith, h)

length_zero : {A : Type 0} (xs : List A) → length xs ≤ 0 → xs ≡ []
length_zero [] h = refl
length_zero (x ∷ xs) h = ground (arith, h)

pub num_txs-length : (us : List ObservedUtxo) → 1 ≤ num_txs us → 1 ≤ length us
num_txs-length [] h = h
num_txs-length (u ∷ us) h = omega arith

module _ {Datum Constr Hash Credential Address : Type 0}
    (lib : CardanoLib Datum Constr Hash Credential Address) (db : Database Datum Hash)
    (config : CNightAddresses) (current_tip : List ℕ) (tx_capacity : ℕ) where
  -- This many calls, each from the end of the one before.
  unfoldable pub catch_up : ℕ → CardanoPosition → Result (List ObservedUtxo)
  unfolding get_utxos_up_to_capacity
  catch_up zero start = pure []
  catch_up (suc calls) start = do
    r ← get_utxos_up_to_capacity lib db config start current_tip tx_capacity
    rest ← catch_up calls r.end'
    pure (r.utxos ++ rest)

  module _ (cardano_network : ℕ) (policy_id : Hash) (end' : CardanoPosition)
      (rs : List (RegistrationRow Datum)) (ds : List (DeregistrationRow Datum))
      (cs : List AssetCreateRow) (ss : List AssetSpendRow) (large : 2 ≤ tx_capacity)
      (small : tx_capacity * 64 < 2 ^ 31 - 1)
      (o : IsObservable lib db config current_tip cardano_network policy_id end' rs ds cs ss) where
    abbrev pub left : CardanoPosition → List ObservedUtxo
    left start = observable lib db config cardano_network start end' rs ds cs ss

    pub left-from_end :
        (start e : CardanoPosition) → before e start ≡ false → left e ≡ from_end e (left start)
    left-from_end start e h =
        ap₄ merge (ranged-from_end (registrations-IsTable lib cardano_network) start e end' rs h)
          (ranged-from_end (deregistrations-IsTable lib cardano_network) start e end' ds h)
          (ranged-from_end (creates-IsTable lib cardano_network) start e end' cs h)
          (ranged-from_end (spends-IsTable lib cardano_network) start e end' ss h)
        ∙ sym (filter-merge (λ u. not (before (position_of u) e)) _ _ _ _)

    left-end : left end' ≡ []
    unfolding sort
    left-end =
        ap₄ merge
          (ap (filter_map _) (ranged-empty registration_position registration_order end' rs))
          (ap (filter_map _) (ranged-empty deregistration_position deregistration_order end' ds))
          (ap (filter_map _) (ranged-empty create_position create_order end' cs))
          (ap (filter_map _) (ranged-empty spend_position spend_order end' ss))

    left-InOrder : (start : CardanoPosition) → InOrder (left start)
    left-InOrder start = sort-InOrder _

    pub prefix_and_left :
        (start : CardanoPosition) (r : ObservedUtxos)
        → before end' start ≡ false
        → IsPrefix start end' tx_capacity (left start) r
        → r.utxos ++ left r.end' ≡ left start
    prefix_and_left start r inside w =
        let forward : before r.end' start ≡ false = elim w.advance [
          | inl at_tip ↦ subst (λ e. before e start ≡ false) (sym at_tip) inside
          | inr (full, later) ↦ before_not_after start r.end' later
        ] in
        ap₂ (λ xs ys. xs ++ ys) w.kept (left-from_end start r.end' forward)
        ∙ split-InOrder r.end' (left start) (left-InOrder start)

    left-shorter :
        (calls : ℕ) (start : CardanoPosition) (r : ObservedUtxos)
        → IsPrefix start end' tx_capacity (left start) r
        → r.utxos ++ left r.end' ≡ left start
        → length (left start) ≤ suc calls
        → length (left r.end') ≤ calls
    left-shorter calls start r w parts fuel = elim w.advance [
      | inl at_tip ↦ omega (arith, ap length (ap left at_tip ∙ left-end))
      | inr (full, later) ↦
          let some_utxo = num_txs-length r.utxos (omega (arith, full, large)) in
          omega (arith, some_utxo, length-append r.utxos (left r.end'), ap length parts, fuel)
    ]

    -- With a capacity of two transactions or more, which the `assert!`s of the queries admit,
    -- four tables whose rows all decode and have at most 64 rows for a transaction, and a start
    -- that is not past the tip: as many calls as there are UTXOs up to the tip, each from the
    -- end of the one before, return each of these UTXOs once, in their order.
    pub catch_up_lem :
        (calls : ℕ) (start : CardanoPosition)
        → before end' start ≡ false
        → length (observable lib db config cardano_network start end' rs ds cs ss) ≤ calls
        → catch_up calls start
          ≡ ok (observable lib db config cardano_network start end' rs ds cs ss)
    unfolding catch_up
    catch_up_lem zero start inside fuel = ap ok (sym (length_zero (left start) fuel))
    catch_up_lem (suc calls) start inside fuel =
        let (r, returned, w) =
          get_utxos-IsPrefix lib db config start current_tip tx_capacity cardano_network policy_id
            end' rs ds cs ss large small o in
        let parts = prefix_and_left start r inside w in
        let rest = catch_up_lem calls r.end' w.upto (left-shorter calls start r w parts fuel) in
        rw (returned, rest) (ap ok parts)
