-- ===== src/CNightObservation/Inherent.antt =====
-- The inherent of the pallet: `create_inherent`, `check_inherent` and their neighbours, on the data
-- that `get_data_from_inherent_data` finds for the pallet's identifier, if there is any. Data that
-- does not decode is a panic of the node and stands outside the model.
use native.Mathlib.Decide.{ℕ_discrete}
use mathlib.Core.Logic.{ite}
use midnight_node.Prelude.{ℕ, ◌≡◌, ◌↔◌, Bool, true, false, Option, none, some, List, arith}
use midnight_node.CNightObservation.Position.{CardanoPosition}
use midnight_node.CNightObservation.Types.{ObservedUtxo}

pub record TokenMovement : Type 0 where
  pub utxos : List ObservedUtxo
  pub next_cardano_position : CardanoPosition

pub data InherentError : Type 0 where
  missing other : InherentError

pub data Result (A : Type 0) : Type 0 where
  ok : A → Result A
  err : InherentError → Result A

pub data Call : Type 0 where
  process_tokens : List ObservedUtxo → CardanoPosition → Call
  set_mapping_validator_contract_address : List ℕ → Call

-- Equality as the derived `PartialEq` has it, field by field.
pub utxos_discrete : Discrete (List ObservedUtxo)
utxos_discrete = hlevel ℕ_discrete

pub position_discrete : Discrete CardanoPosition
position_discrete = hlevel ℕ_discrete

unfoldable pub create_inherent : Option TokenMovement → Option Call
create_inherent none = none
create_inherent (some d) = some (process_tokens d.utxos d.next_cardano_position)

matches : List ObservedUtxo → CardanoPosition → TokenMovement → Result (Unit {0})
matches utxos position parsed =
    ite (utxos_discrete parsed.utxos utxos)
      (ite (position_discrete parsed.next_cardano_position position) (ok tt) (err other))
      (err other)

unfoldable pub check_inherent : Call → Option TokenMovement → Result (Unit {0})
unfolding matches
check_inherent (process_tokens utxos position) none = err other
check_inherent (process_tokens utxos position) (some parsed) = matches utxos position parsed
check_inherent (set_mapping_validator_contract_address address) d = ok tt

unfoldable pub is_inherent : Call → Bool
is_inherent (process_tokens utxos position) = true
is_inherent (set_mapping_validator_contract_address address) = false

unfoldable pub is_inherent_required : Option TokenMovement → Result (Option InherentError)
is_inherent_required none = ok none
is_inherent_required (some d) = ok (some missing)

-- A `process_tokens` is accepted exactly if it is the inherent that the checking node would have
-- made itself.
check_inherent_iff :
    (utxos : List ObservedUtxo) (position : CardanoPosition) (d : Option TokenMovement)
    → (check_inherent (process_tokens utxos position) d ≡ ok tt)
      ↔ (create_inherent d ≡ some (process_tokens utxos position))
unfolding check_inherent create_inherent
check_inherent_iff utxos position none = (λ h. cc, λ h. cc)
check_inherent_iff utxos position (some d) = (λ h. ground arith, λ h. ground arith)
