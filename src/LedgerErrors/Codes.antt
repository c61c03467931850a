-- ===== src/LedgerErrors/Codes.antt =====
-- From the codes of the ledger errors back to the errors.
use midnight_node.Prelude.{
  ℕ, ◌≡◌, refl, ap, Option, none, some, List, [], ◌∷◌, ◌++◌, map, ◌==◌, if◌then◌else◌,
}
use midnight_node.LedgerErrors.{
  LedgerApiError, invalid, malformed, system_transaction, deserialization, serialization,
  transaction, ledger_cache_error, no_ledger_state, ledger_state_scale_decoding_error,
  contract_call_cost_error, block_limit_exceeded_error, fee_calculation_error, host_api_error,
  get_transaction_context_error, transaction_code, code,
}
use midnight_node.LedgerErrors.Deserialization
use midnight_node.LedgerErrors.Deserialization.{DeserializationError}
use midnight_node.LedgerErrors.Serialization
use midnight_node.LedgerErrors.Serialization.{SerializationError}
use midnight_node.LedgerErrors.Invalid
use midnight_node.LedgerErrors.Invalid.{InvalidError}
use midnight_node.LedgerErrors.Malformed
use midnight_node.LedgerErrors.Malformed.{MalformedError}
use midnight_node.LedgerErrors.SystemTransaction
use midnight_node.LedgerErrors.SystemTransaction.{SystemTransactionError}

abbrev pub all_errors : List LedgerApiError
all_errors =
    map deserialization Deserialization.errors
    ++ map serialization Serialization.errors
    ++ map (λ e. transaction (invalid e)) Invalid.errors
    ++ map (λ e. transaction (malformed e)) Malformed.errors
    ++ map (λ e. transaction (system_transaction e)) SystemTransaction.errors
    ++ (ledger_cache_error ∷ no_ledger_state ∷ ledger_state_scale_decoding_error
        ∷ contract_call_cost_error ∷ block_limit_exceeded_error ∷ fee_calculation_error
        ∷ host_api_error ∷ get_transaction_context_error ∷ [])

unfoldable pub find : ℕ → List LedgerApiError → Option LedgerApiError
unfolding code transaction_code Deserialization.code Serialization.code Invalid.code Malformed.code
    SystemTransaction.code
find n [] = none
find n (e ∷ es) = if code e == n then some e else find n es

-- The error that a code stands for.
unfoldable pub error_of : ℕ → Option LedgerApiError
unfolding find
error_of n = find n all_errors

error_of-code_deserialization :
    (e : DeserializationError) → error_of (code (deserialization e)) ≡ some (deserialization e)
unfolding error_of
error_of-code_deserialization Deserialization.network_id = refl
error_of-code_deserialization Deserialization.transaction = refl
error_of-code_deserialization Deserialization.ledger_state = refl
error_of-code_deserialization Deserialization.contract_address = refl
error_of-code_deserialization Deserialization.public_key = refl
error_of-code_deserialization Deserialization.typed_arena_key = refl
error_of-code_deserialization Deserialization.versioned_arena_key = refl
error_of-code_deserialization Deserialization.user_address = refl
error_of-code_deserialization Deserialization.system_transaction = refl
error_of-code_deserialization Deserialization.dust_public_key = refl
error_of-code_deserialization Deserialization.cnight_generates_dust_action_type = refl
error_of-code_deserialization Deserialization.cnight_generates_dust_event = refl

error_of-code_serialization :
    (e : SerializationError) → error_of (code (serialization e)) ≡ some (serialization e)
unfolding error_of
error_of-code_serialization Serialization.transaction_identifier = refl
error_of-code_serialization Serialization.zswap_state = refl
error_of-code_serialization Serialization.ledger_state = refl
error_of-code_serialization Serialization.ledger_parameters = refl
error_of-code_serialization Serialization.contract_address = refl
error_of-code_serialization Serialization.contract_state = refl
error_of-code_serialization Serialization.contract_state_to_json = refl
error_of-code_serialization Serialization.unknown_type = refl
error_of-code_serialization Serialization.merkle_tree_digest = refl
error_of-code_serialization Serialization.typed_arena_key = refl
error_of-code_serialization Serialization.versioned_arena_key = refl
error_of-code_serialization Serialization.cnight_generates_dust_event = refl
error_of-code_serialization Serialization.system_transaction = refl
error_of-code_serialization Serialization.arena_hash = refl

error_of-code_invalid :
    (e : InvalidError) → error_of (code (transaction (invalid e))) ≡ some (transaction (invalid e))
unfolding error_of
error_of-code_invalid Invalid.effects_mismatch = refl
error_of-code_invalid Invalid.contract_already_deployed = refl
error_of-code_invalid Invalid.contract_not_present = refl
error_of-code_invalid Invalid.zswap = refl
error_of-code_invalid Invalid.transcript = refl
error_of-code_invalid Invalid.insufficient_claimable = refl
error_of-code_invalid Invalid.verifier_key_not_found = refl
error_of-code_invalid Invalid.verifier_key_already_present = refl
error_of-code_invalid Invalid.replay_counter_mismatch = refl
error_of-code_invalid Invalid.replay_protection_violation = refl
error_of-code_invalid Invalid.balance_check_out_of_bounds = refl
error_of-code_invalid Invalid.input_not_in_utxos = refl
error_of-code_invalid Invalid.dust_double_spend = refl
error_of-code_invalid Invalid.dust_deregistration_not_registered = refl
error_of-code_invalid Invalid.generation_info_already_present = refl
error_of-code_invalid Invalid.invariant_violation = refl
error_of-code_invalid Invalid.reward_too_small = refl
error_of-code_invalid Invalid.unknown_error = refl

error_of-code_malformed :
    (e : MalformedError)
    → error_of (code (transaction (malformed e))) ≡ some (transaction (malformed e))
unfolding error_of
error_of-code_malformed Malformed.verifier_key_not_set = refl
error_of-code_malformed Malformed.transaction_too_large = refl
error_of-code_malformed Malformed.verifier_key_too_large = refl
error_of-code_malformed Malformed.verifier_key_not_present = refl
error_of-code_malformed Malformed.contract_not_present = refl
error_of-code_malformed Malformed.invalid_proof = refl
error_of-code_malformed Malformed.binding_commitment_opening_invalid = refl
error_of-code_malformed Malformed.not_normalized = refl
error_of-code_malformed Malformed.fallible_without_checkpoint = refl
error_of-code_malformed Malformed.claim_receive_failed = refl
error_of-code_malformed Malformed.claim_spend_failed = refl
error_of-code_malformed Malformed.claim_nullifier_failed = refl
error_of-code_malformed Malformed.claim_call_failed = refl
error_of-code_malformed Malformed.invalid_schnorr_proof = refl
error_of-code_malformed Malformed.unclaimed_coin_com = refl
error_of-code_malformed Malformed.unclaimed_nullifier = refl
error_of-code_malformed Malformed.unbalanced = refl
error_of-code_malformed Malformed.zswap = refl
error_of-code_malformed Malformed.builtin_decode = refl
error_of-code_malformed Malformed.guaranteed_limit = refl
error_of-code_malformed Malformed.merging_contracts = refl
error_of-code_malformed Malformed.cant_merge_types = refl
error_of-code_malformed Malformed.claim_overflow = refl
error_of-code_malformed Malformed.claim_coin_mismatch = refl
error_of-code_malformed Malformed.key_not_in_committee = refl
error_of-code_malformed Malformed.invalid_committee_signature = refl
error_of-code_malformed Malformed.threshold_missed = refl
error_of-code_malformed Malformed.too_many_zswap_entries = refl
error_of-code_malformed Malformed.balance_check_overspend = refl
error_of-code_malformed Malformed.invalid_network_id = refl
error_of-code_malformed Malformed.illegally_declared_guaranteed = refl
error_of-code_malformed Malformed.fee_calculation = refl
error_of-code_malformed Malformed.invalid_dust_registration_signature = refl
error_of-code_malformed Malformed.invalid_dust_spend_proof = refl
error_of-code_malformed Malformed.out_of_dust_validity_window = refl
error_of-code_malformed Malformed.multiple_dust_registrations_for_key = refl
error_of-code_malformed Malformed.insufficient_dust_for_registration_fee = refl
error_of-code_malformed Malformed.malformed_contract_deploy = refl
error_of-code_malformed Malformed.intent_signature_verification_failure = refl
error_of-code_malformed Malformed.intent_signature_key_mismatch = refl
error_of-code_malformed Malformed.intent_segment_id_collision = refl
error_of-code_malformed Malformed.intent_at_guaranteed_segment_id = refl
error_of-code_malformed Malformed.unsupported_proof_version = refl
error_of-code_malformed Malformed.guaranteed_transcript_version = refl
error_of-code_malformed Malformed.fallible_transcript_version = refl
error_of-code_malformed Malformed.transaction_application_error = refl
error_of-code_malformed Malformed.balance_check_out_of_bounds = refl
error_of-code_malformed Malformed.balance_check_conversion_failure = refl
error_of-code_malformed Malformed.pedersen_check_failure = refl
error_of-code_malformed Malformed.effects_check_failure = refl
error_of-code_malformed Malformed.disjoint_check_failure = refl
error_of-code_malformed Malformed.sequencing_check_failure = refl
error_of-code_malformed Malformed.inputs_not_sorted = refl
error_of-code_malformed Malformed.outputs_not_sorted = refl
error_of-code_malformed Malformed.duplicate_inputs = refl
error_of-code_malformed Malformed.inputs_signatures_length_mismatch = refl
error_of-code_malformed Malformed.unknown_error = refl

error_of-code_system_transaction :
    (e : SystemTransactionError)
    → error_of (code (transaction (system_transaction e)))
      ≡ some (transaction (system_transaction e))
unfolding error_of
error_of-code_system_transaction SystemTransaction.illegal_payout = refl
error_of-code_system_transaction SystemTransaction.insufficient_treasury_funds = refl
error_of-code_system_transaction SystemTransaction.commitment_already_present = refl
error_of-code_system_transaction SystemTransaction.unknown_error = refl
error_of-code_system_transaction SystemTransaction.replay_protection_failure = refl
error_of-code_system_transaction SystemTransaction.illegal_reserve_distribution = refl
error_of-code_system_transaction SystemTransaction.generation_info_already_present = refl
error_of-code_system_transaction SystemTransaction.invalid_basis_points = refl
error_of-code_system_transaction SystemTransaction.invariant_violation = refl
error_of-code_system_transaction SystemTransaction.treasury_disabled = refl

-- The error can be told from its code.
pub error_of-code : (e : LedgerApiError) → error_of (code e) ≡ some e
unfolding error_of
error_of-code (deserialization e) = error_of-code_deserialization e
error_of-code (serialization e) = error_of-code_serialization e
error_of-code (transaction (invalid e)) = error_of-code_invalid e
error_of-code (transaction (malformed e)) = error_of-code_malformed e
error_of-code (transaction (system_transaction e)) = error_of-code_system_transaction e
error_of-code ledger_cache_error = refl
error_of-code no_ledger_state = refl
error_of-code ledger_state_scale_decoding_error = refl
error_of-code contract_call_cost_error = refl
error_of-code block_limit_exceeded_error = refl
error_of-code fee_calculation_error = refl
error_of-code host_api_error = refl
error_of-code get_transaction_context_error = refl

-- Two errors with one code are the same error.
pub code_injective : (e e' : LedgerApiError) → code e ≡ code e' → e ≡ e'
code_injective e e' h = cc (error_of-code e, error_of-code e', ap error_of h)
