-- ===== src/CNightSource/Decoding.antt =====
-- What the rows hold, decoded by the functions of `cardano_serialization_lib`.
use midnight_node.Prelude.{
  ℕ, zero, suc, ◌+◌, ◌-◌, ◌^◌, ◌⊎◌, inl, inr, Option, none, some, List, [], ◌∷◌, length, get_elem?,
  ltb, leb, ◌==◌, if◌then◌else◌,
}

pub data RegistrationDatumDecodeError : Type 0 where
  cardano_credential_not_bytes : RegistrationDatumDecodeError
  cardano_credential_invalid_tag : ℕ → RegistrationDatumDecodeError
  cardano_credential_invalid_key_hash : RegistrationDatumDecodeError
  cardano_credential_invalid_script_hash : RegistrationDatumDecodeError
  dust_address_not_bytes : RegistrationDatumDecodeError
  dust_address_invalid_length : ℕ → RegistrationDatumDecodeError

-- The functions of `cardano_serialization_lib` that are called, over its types. The bytes of a
-- reward address and of a key are kept as a number.
pub record CardanoLib (Datum Constr Hash Credential Address : Type 0) : Type 0 where
  pub as_constr_plutus_data : Datum → Option Constr
  pub alternative : Constr → ℕ
  pub fields : Constr → List Datum
  pub as_bytes : Datum → Option (List ℕ)
  pub key_hash_from_bytes : List ℕ → Option Hash
  pub script_hash_from_bytes : List ℕ → Option Hash
  pub from_keyhash : Hash → Credential
  pub from_scripthash : Hash → Credential
  pub to_scripthash : Credential → Option Hash
  pub from_bech32 : List ℕ → Address ⊎ ℕ
  pub network_id : Address → Option ℕ
  pub enterprise_payment_cred : Address → Option Credential
  pub base_stake_cred : Address → Option Credential
  pub reward_address_bytes : ℕ → Credential → ℕ
  pub key_number : List ℕ → ℕ

abbrev pub or_error :
    {A : Type 0} → RegistrationDatumDecodeError → Option A → RegistrationDatumDecodeError ⊎ A
or_error e none = inl e
or_error e (some a) = inr a

abbrev pub then_some : {A B : Type 0} → Option A → (A → Option B) → Option B
then_some none f = none
then_some (some a) f = f a

abbrev pub then_right :
    {A B : Type 0}
    → RegistrationDatumDecodeError ⊎ A
    → (A → RegistrationDatumDecodeError ⊎ B)
    → RegistrationDatumDecodeError ⊎ B
then_right (inl e) f = inl e
then_right (inr a) f = f a

-- The rows that decode.
abbrev pub filter_map : {A B : Type 0} → (A → Option B) → List A → List B
filter_map f [] = []
filter_map f (x ∷ xs) = elim (f x) [ none ↦ filter_map f xs | some y ↦ y ∷ filter_map f xs ]

-- `as u128` of the bit pattern of an `i64`.
unfoldable pub quantity_as_u128 : ℕ → ℕ
quantity_as_u128 q = if ltb q (2 ^ 63) then q else q + (2 ^ 128 - 2 ^ 64)

module _ {Datum Constr Hash Credential Address : Type 0}
    (lib : CardanoLib Datum Constr Hash Credential Address) where
  first_bytes : Constr → Option (List ℕ)
  first_bytes constr = then_some (get_elem? (lib.fields constr) 0) lib.as_bytes

  unfoldable pub decode_credential : Constr → RegistrationDatumDecodeError ⊎ Credential
  unfolding first_bytes
  decode_credential constr = elim (lib.alternative constr) [
    | zero ↦ or_error cardano_credential_invalid_key_hash (
        then_some (first_bytes constr) (λ bytes.
          then_some (lib.key_hash_from_bytes bytes) (λ hash. some (lib.from_keyhash hash))))
    | suc k ↦
        if k == 0
        then or_error cardano_credential_invalid_script_hash (
            then_some (first_bytes constr) (λ bytes.
              then_some (lib.script_hash_from_bytes bytes)
                (λ hash. some (lib.from_scripthash hash))))
        else inl (cardano_credential_invalid_tag (suc k))
  ]

  -- `DustPublicKeyBytes::try_from`, a vector of at most 33 bytes.
  unfoldable pub decode_dust_address : List ℕ → RegistrationDatumDecodeError ⊎ ℕ
  decode_dust_address bytes =
      if leb (length bytes) 33
      then inr (lib.key_number bytes)
      else inl (dust_address_invalid_length (length bytes))

  unfoldable pub decode_registration_datum :
      Constr → RegistrationDatumDecodeError ⊎ (Credential × ℕ)
  unfolding decode_credential decode_dust_address
  decode_registration_datum datum =
      let list = lib.fields datum in
      then_right
        (or_error cardano_credential_not_bytes
          (then_some (get_elem? list 0) lib.as_constr_plutus_data))
        (λ cardano_credential. then_right (decode_credential cardano_credential) (λ credential.
          then_right (or_error dust_address_not_bytes (then_some (get_elem? list 1) lib.as_bytes))
            (λ dust_address.
              then_right (decode_dust_address dust_address) (λ key. inr (credential, key)))))

  -- The owner and the key of a datum that is a registration.
  unfoldable pub decode_datum : ℕ → Datum → Option (ℕ × ℕ)
  unfolding decode_registration_datum
  decode_datum cardano_network datum = then_some (lib.as_constr_plutus_data datum) (λ constr.
      elim (decode_registration_datum constr) [
        | inl e ↦ none
        | inr (credential, key) ↦ some (lib.reward_address_bytes cardano_network credential, key)
      ])

  -- The owner of an address that has a delegation part.
  unfoldable pub decode_owner : ℕ → List ℕ → Option ℕ
  decode_owner cardano_network holder_address = elim (lib.from_bech32 holder_address) [
    | inr e ↦ none
    | inl address ↦
        then_some (lib.base_stake_cred address)
          (λ credential. some (lib.reward_address_bytes cardano_network credential))
  ]
