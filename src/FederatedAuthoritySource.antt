-- ===== src/FederatedAuthoritySource.antt =====
-- The source of the members of the federated authority,
-- primitives/mainchain-follower/src/data_source/federated_authority_observation.rs.
pub mod Decoded
mod Tests
use midnight_node.Prelude.{
  ℕ, ◌⊎◌, inl, inr, Bool, true, false, Option, none, some, List, [], ◌∷◌, zero, suc, get_elem?,
  length, ltb, ◌==◌, if◌then◌else◌,
}
use midnight_node.FederatedAuthorityObservation.Inherent.{FederatedAuthorityData}

-- The errors of the decoding, which are messages in the code.
pub data DatumError : Type 0 where
  not_list not_data_list : DatumError
  short_list short_data_list : ℕ → DatumError
  round_not_integer round_not_u64 round_not_u8 not_map : DatumError
  bad_key_length bad_value_length : ℕ → DatumError

-- The functions of `cardano_serialization_lib` that are called; the 28 bytes of a member of the
-- main chain are kept as a number.
pub record PlutusLib (Datum Integer Map Values : Type 0) : Type 0 where
  pub as_list : Datum → Option (List Datum)
  pub as_integer : Datum → Option Integer
  pub as_u64 : Integer → Option ℕ
  pub as_map : Datum → Option Map
  pub keys : Map → List Datum
  pub get : Map → Datum → Option Values
  pub first : Values → Option Datum
  pub as_bytes : Datum → Option (List ℕ)
  pub policy_number : List ℕ → ℕ

pub record GovernanceAuthorityDatumR0 : Type 0 where
  pub authorities : List (List ℕ × ℕ)
  pub round : ℕ

-- The two fields that are read.
pub record AuthBodyConfig : Type 0 where
  pub address : List ℕ
  pub policy_id : ℕ

pub record Config : Type 0 where
  pub council : AuthBodyConfig
  pub technical_committee : AuthBodyConfig

-- The number of a block by its hash, and the datum of the newest UTXO of a body up to a block. The
-- outer `none` is an error of the database.
pub record Database (Datum : Type 0) : Type 0 where
  pub block_number : List ℕ → Option (Option ℕ)
  pub governance_body_datum : List ℕ → ℕ → ℕ → Option (Option Datum)

pub data SourceError : Type 0 where
  database_error block_not_found : SourceError

abbrev pub drop : ℕ → List ℕ → List ℕ
drop zero xs = xs
drop (suc n) [] = []
drop (suc n) (x ∷ xs) = drop n xs

abbrev pub or_error : {E A : Type 0} → E → Option A → E ⊎ A
or_error e none = inl e
or_error e (some a) = inr a

infixl 5 ◌>>=◌
unfoldable pub ◌>>=◌ : {E A B : Type 0} → E ⊎ A → (A → E ⊎ B) → E ⊎ B
inl e >>= f = inl e
inr a >>= f = f a

abbrev pub cons_some : {A : Type 0} → Option A → List A → List A
cons_some none xs = xs
cons_some (some x) xs = x ∷ xs

abbrev pub long_enough : {A : Type 0} → (ℕ → DatumError) → List A → DatumError ⊎ List A
long_enough e xs = if ltb (length xs) 2 then inl (e (length xs)) else inr xs

module _ {Datum Integer Map Values : Type 0} (lib : PlutusLib Datum Integer Map Values) where
  -- The key of a member: `none` skips the entry.
  unfoldable pub value_bytes : Map → Datum → Option (List ℕ)
  value_bytes members_map key = elim (lib.get members_map key) [
    | none ↦ none
    | some values ↦ elim (lib.first values) [
      | none ↦ none
      | some value_data ↦ lib.as_bytes value_data
    ]
  ]

  -- One round of the loop over the keys of the map.
  unfoldable pub decode_member : Map → Datum → DatumError ⊎ Option (List ℕ × ℕ)
  decode_member members_map key = elim (lib.as_bytes key) [
    | none ↦ inr none
    | some key_bytes ↦
        if length key_bytes == 32
        then elim (value_bytes members_map key) [
          | none ↦ inr none
          | some sr25519_key ↦
              if length sr25519_key == 32
              then inr (some (sr25519_key, lib.policy_number (drop 4 key_bytes)))
              else inl (bad_value_length (length sr25519_key))
        ]
        else inl (bad_key_length (length key_bytes))
  ]

  unfoldable pub decode_members : Map → List Datum → DatumError ⊎ List (List ℕ × ℕ)
  unfolding decode_member ◌>>=◌
  decode_members members_map [] = inr []
  decode_members members_map (key ∷ keys) = decode_member members_map key >>= λ member.
      decode_members members_map keys >>= λ rest. inr (cons_some member rest)

  unfoldable pub decode_round : Datum → DatumError ⊎ ℕ
  unfolding ◌>>=◌
  decode_round round_field =
      or_error round_not_integer (lib.as_integer round_field) >>= λ round_bigint.
      or_error round_not_u64 (lib.as_u64 round_bigint) >>= λ round.
      if ltb round 256 then inr round else inl round_not_u8

  -- The members, after the round.
  unfoldable pub decode_authorities : ℕ → Datum → DatumError ⊎ GovernanceAuthorityDatumR0
  unfolding decode_members ◌>>=◌
  decode_authorities round members_data =
      or_error not_map (lib.as_map members_data) >>= λ members_map.
      decode_members members_map (lib.keys members_map) >>= λ authorities.
      inr (record { authorities = authorities; round = round })

  -- An element that is known to be there is looked up by its index.
  unfoldable pub decode_rest : List Datum → ℕ → DatumError ⊎ GovernanceAuthorityDatumR0
  unfolding decode_authorities ◌>>=◌
  decode_rest data_list round =
      or_error not_data_list (get_elem? data_list 1) >>= decode_authorities round

  unfoldable pub decode_lists : List Datum → List Datum → DatumError ⊎ GovernanceAuthorityDatumR0
  unfolding decode_round decode_rest ◌>>=◌
  decode_lists versioned_list data_list =
      (or_error not_list (get_elem? versioned_list 1) >>= decode_round) >>= decode_rest data_list

  unfoldable pub decode_versioned : List Datum → DatumError ⊎ GovernanceAuthorityDatumR0
  unfolding decode_lists ◌>>=◌
  decode_versioned versioned_list =
      ((or_error not_list (get_elem? versioned_list 0) >>= λ data_field.
      or_error not_data_list (lib.as_list data_field))
        >>= long_enough short_data_list)
      >>= decode_lists versioned_list

  unfoldable pub decode_governance_datum : Datum → DatumError ⊎ GovernanceAuthorityDatumR0
  unfolding decode_versioned ◌>>=◌
  decode_governance_datum datum =
      (or_error not_list (lib.as_list datum) >>= long_enough short_list) >>= decode_versioned

  -- A body without a UTXO, or with one whose datum does not decode, has no authorities.
  unfoldable pub authorities_of : Option Datum → List (List ℕ × ℕ)
  unfolding decode_governance_datum
  authorities_of none = []
  authorities_of (some datum) = elim (decode_governance_datum datum) [
    | inl e ↦ []
    | inr d ↦ d.authorities
  ]

  -- The data of the two bodies, from what the queries return.
  unfoldable pub collect :
      Option (Option Datum) → Option (Option Datum) → SourceError ⊎ FederatedAuthorityData
  unfolding authorities_of ◌>>=◌
  collect council_utxo committee_utxo = or_error database_error council_utxo >>= λ council.
      or_error database_error committee_utxo >>= λ committee. inr (record {
        council_authorities = authorities_of council;
        technical_committee_authorities = authorities_of committee;
      })

  abbrev pub data_at : Database Datum → Config → ℕ → SourceError ⊎ FederatedAuthorityData
  data_at db config block_number =
      collect
        (db.governance_body_datum config.council.address config.council.policy_id block_number)
        (db.governance_body_datum config.technical_committee.address
          config.technical_committee.policy_id block_number)

  unfoldable pub get_federated_authority_data :
      Database Datum → Config → List ℕ → SourceError ⊎ FederatedAuthorityData
  unfolding collect ◌>>=◌
  get_federated_authority_data db config mc_block_hash =
      (or_error database_error (db.block_number mc_block_hash) >>= or_error block_not_found)
      >>= data_at db config
