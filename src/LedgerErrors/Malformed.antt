-- ===== src/LedgerErrors/Malformed.antt =====
-- The errors `MalformedError` of ledger/src/versions/common/types.rs, with their codes in the order of
-- the source.
use midnight_node.Prelude.{ℕ, List, [], ◌∷◌}

pub data MalformedError : Type 0 where
  verifier_key_not_set transaction_too_large verifier_key_too_large verifier_key_not_present
        contract_not_present invalid_proof binding_commitment_opening_invalid not_normalized
        fallible_without_checkpoint claim_receive_failed claim_spend_failed claim_nullifier_failed
        claim_call_failed invalid_schnorr_proof unclaimed_coin_com unclaimed_nullifier unbalanced
        zswap builtin_decode guaranteed_limit merging_contracts cant_merge_types claim_overflow
        claim_coin_mismatch key_not_in_committee invalid_committee_signature threshold_missed
        too_many_zswap_entries balance_check_overspend invalid_network_id
        illegally_declared_guaranteed fee_calculation invalid_dust_registration_signature
        invalid_dust_spend_proof out_of_dust_validity_window multiple_dust_registrations_for_key
        insufficient_dust_for_registration_fee malformed_contract_deploy
        intent_signature_verification_failure intent_signature_key_mismatch
        intent_segment_id_collision intent_at_guaranteed_segment_id unsupported_proof_version
        guaranteed_transcript_version fallible_transcript_version transaction_application_error
        balance_check_out_of_bounds balance_check_conversion_failure pedersen_check_failure
        effects_check_failure disjoint_check_failure sequencing_check_failure inputs_not_sorted
        outputs_not_sorted duplicate_inputs inputs_signatures_length_mismatch unknown_error :
      MalformedError

-- The code of an error in the conversion of `LedgerApiError` into a byte.
unfoldable pub code : MalformedError → ℕ
code verifier_key_not_set = 110
code transaction_too_large = 111
code verifier_key_too_large = 112
code verifier_key_not_present = 113
code contract_not_present = 114
code invalid_proof = 115
code binding_commitment_opening_invalid = 116
code not_normalized = 117
code fallible_without_checkpoint = 118
code claim_receive_failed = 119
code claim_spend_failed = 120
code claim_nullifier_failed = 121
code claim_call_failed = 122
code invalid_schnorr_proof = 123
code unclaimed_coin_com = 124
code unclaimed_nullifier = 125
code unbalanced = 126
code zswap = 127
code builtin_decode = 128
code guaranteed_limit = 129
code merging_contracts = 130
code cant_merge_types = 131
code claim_overflow = 132
code claim_coin_mismatch = 133
code key_not_in_committee = 134
code invalid_committee_signature = 135
code threshold_missed = 136
code too_many_zswap_entries = 137
code balance_check_overspend = 138
code invalid_network_id = 166
code illegally_declared_guaranteed = 167
code fee_calculation = 168
code invalid_dust_registration_signature = 169
code invalid_dust_spend_proof = 170
code out_of_dust_validity_window = 171
code multiple_dust_registrations_for_key = 172
code insufficient_dust_for_registration_fee = 173
code malformed_contract_deploy = 174
code intent_signature_verification_failure = 175
code intent_signature_key_mismatch = 176
code intent_segment_id_collision = 177
code intent_at_guaranteed_segment_id = 178
code unsupported_proof_version = 179
code guaranteed_transcript_version = 180
code fallible_transcript_version = 181
code transaction_application_error = 182
code balance_check_out_of_bounds = 183
code balance_check_conversion_failure = 184
code pedersen_check_failure = 185
code effects_check_failure = 186
code disjoint_check_failure = 187
code sequencing_check_failure = 188
code inputs_not_sorted = 189
code outputs_not_sorted = 190
code duplicate_inputs = 191
code inputs_signatures_length_mismatch = 192
code unknown_error = 139

-- All of the errors.
abbrev pub errors : List MalformedError
errors =
    verifier_key_not_set ∷ transaction_too_large ∷ verifier_key_too_large ∷ verifier_key_not_present
    ∷ contract_not_present ∷ invalid_proof ∷ binding_commitment_opening_invalid ∷ not_normalized
    ∷ fallible_without_checkpoint ∷ claim_receive_failed ∷ claim_spend_failed
    ∷ claim_nullifier_failed ∷ claim_call_failed ∷ invalid_schnorr_proof ∷ unclaimed_coin_com
    ∷ unclaimed_nullifier ∷ unbalanced ∷ zswap ∷ builtin_decode ∷ guaranteed_limit
    ∷ merging_contracts ∷ cant_merge_types ∷ claim_overflow ∷ claim_coin_mismatch
    ∷ key_not_in_committee ∷ invalid_committee_signature ∷ threshold_missed ∷ too_many_zswap_entries
    ∷ balance_check_overspend ∷ invalid_network_id ∷ illegally_declared_guaranteed ∷ fee_calculation
    ∷ invalid_dust_registration_signature ∷ invalid_dust_spend_proof ∷ out_of_dust_validity_window
    ∷ multiple_dust_registrations_for_key ∷ insufficient_dust_for_registration_fee
    ∷ malformed_contract_deploy ∷ intent_signature_verification_failure
    ∷ intent_signature_key_mismatch ∷ intent_segment_id_collision ∷ intent_at_guaranteed_segment_id
    ∷ unsupported_proof_version ∷ guaranteed_transcript_version ∷ fallible_transcript_version
    ∷ transaction_application_error ∷ balance_check_out_of_bounds ∷ balance_check_conversion_failure
    ∷ pedersen_check_failure ∷ effects_check_failure ∷ disjoint_check_failure
    ∷ sequencing_check_failure ∷ inputs_not_sorted ∷ outputs_not_sorted ∷ duplicate_inputs
    ∷ inputs_signatures_length_mismatch ∷ unknown_error ∷ []
