-- ===== src/FederatedAuthoritySource/Decoded.antt =====
-- What `decode_governance_datum` returns, and what becomes of data that it cannot decode.
use midnight_node.Prelude.{
  ℕ, ◌<◌, ◌≡◌, refl, sym, subst, ap, ◌∙◌, ◌⊎◌, inl, inr, Option, none, some, List, [], ◌∷◌, All,
  get_elem?, length, ltb, ◌==◌, arith, Bool-cases, Option-cases,
}
use midnight_node.FederatedAuthorityObservation.Types.{Runtime}
use midnight_node.FederatedAuthorityObservation.Inherent.{
  FederatedAuthorityData, create_inherent-no_council, create_inherent-no_committee, create_inherent,
  ok,
}
use midnight_node.FederatedAuthoritySource.{
  PlutusLib, DatumError, Database, Config, GovernanceAuthorityDatumR0, decode_member,
  decode_members, decode_round, decode_governance_datum, authorities_of,
  get_federated_authority_data, collect, data_at, SourceError, database_error, block_not_found,
  value_bytes, or_error, ◌>>=◌, cons_some, decode_authorities, decode_rest, decode_lists,
  decode_versioned, not_map, not_list, not_data_list, round_not_integer, round_not_u64,
  AuthBodyConfig, long_enough, short_list, short_data_list,
}

abbrev council_or : SourceError ⊎ FederatedAuthorityData → List (List ℕ × ℕ)
council_or (inl e) = []
council_or (inr d) = d.council_authorities

abbrev committee_or : SourceError ⊎ FederatedAuthorityData → List (List ℕ × ℕ)
committee_or (inl e) = []
committee_or (inr d) = d.technical_committee_authorities

-- What a result satisfies, if there is one.
Holds : {E A : Type 0} → (A → Type 0) → E ⊎ A → Type 0
Holds P (inl e) = Unit {0}
Holds P (inr a) = P a

Holds-bind :
    {E A B : Type 0} (P : B → Type 0) (x : E ⊎ A) (f : A → E ⊎ B)
    → ((a : A) → x ≡ inr a → Holds P (f a))
    → Holds P (x >>= f)
unfolding Holds ◌>>=◌
Holds-bind P (inl e) f h = tt
Holds-bind P (inr a) f h = h a refl

Holds-inr : {E A : Type 0} (P : A → Type 0) (x : E ⊎ A) (a : A) → Holds P x → x ≡ inr a → P a
unfolding Holds
Holds-inr P x a h e = subst (Holds P) e h

abbrev pub KeysOf32 : List (List ℕ × ℕ) → Type 0
KeysOf32 = All (λ m. length m.0 ≡ 32)

abbrev KeyOf32 : Option (List ℕ × ℕ) → Type 0
KeyOf32 none = Unit {0}
KeyOf32 (some m) = length m.0 ≡ 32

KeysOf32-cons :
    (m : Option (List ℕ × ℕ)) (ms : List (List ℕ × ℕ))
    → KeyOf32 m
    → KeysOf32 ms
    → KeysOf32 (cons_some m ms)
KeysOf32-cons none ms h k = k
KeysOf32-cons (some m) ms h k = (h, k)

module _ {Datum Integer Map Values : Type 0} (lib : PlutusLib Datum Integer Map Values) where
  decode_member-KeyOf32 :
      (members_map : Map) (key : Datum) → Holds KeyOf32 (decode_member lib members_map key)
  unfolding Holds decode_member
  decode_member-KeyOf32 members_map key = elim (Option-cases (lib.as_bytes key)) [
    | inl no_bytes ↦ rw (no_bytes, decode_member) tt
    | inr (key_bytes, e) ↦ elim (Bool-cases (length key_bytes == 32)) [
      | inr bad ↦ rw (e, bad, decode_member) tt
      | inl good ↦ elim (Option-cases (value_bytes lib members_map key)) [
        | inl no_value ↦ rw (e, good, no_value, decode_member) tt
        | inr (sr25519_key, value) ↦ elim (Bool-cases (length sr25519_key == 32)) [
          | inr short ↦ rw (e, good, value, short, decode_member) tt
          | inl fits ↦ rw (e, good, value, fits, decode_member) (ground (arith, fits))
        ]
      ]
    ]
  ]

  decode_members-KeysOf32 :
      (members_map : Map) (keys : List Datum) → Holds KeysOf32 (decode_members lib members_map keys)
  unfolding Holds decode_members
  decode_members-KeysOf32 members_map [] = tt
  decode_members-KeysOf32 members_map (key ∷ keys) =
      Holds-bind KeysOf32 (decode_member lib members_map key) _ (λ m e.
        Holds-bind KeysOf32 (decode_members lib members_map keys) _ (λ ms e'.
          KeysOf32-cons m ms
            (Holds-inr KeyOf32 (decode_member lib members_map key) m
              (decode_member-KeyOf32 members_map key) e)
            (Holds-inr KeysOf32 (decode_members lib members_map keys) ms
              (decode_members-KeysOf32 members_map keys) e')))

  decode_round-bound : (d : Datum) → Holds (λ n. n < 256) (decode_round lib d)
  unfolding Holds decode_round
  decode_round-bound d =
      Holds-bind (λ n. n < 256) (or_error round_not_integer (lib.as_integer d)) _
        (λ i e.
          Holds-bind (λ n. n < 256) (or_error round_not_u64 (lib.as_u64 i)) _
            (λ n e'. elim (Bool-cases (ltb n 256)) [
              | inl fits ↦ rw fits (ground (arith, fits))
              | inr large ↦ rw large tt
            ]))

  abbrev Proper : GovernanceAuthorityDatumR0 → Type 0
  Proper d = KeysOf32 d.authorities × (d.round < 256)

  decoded-Proper :
      (round : ℕ) (ms : List (List ℕ × ℕ))
      → (round < 256)
      → KeysOf32 ms
      → Holds {E = DatumError} Proper (inr (record { authorities = ms; round = round }))
  unfolding Holds
  decoded-Proper round ms r k = (k, r)

  authorities-Proper :
      (round : ℕ) (d : Datum) → round < 256 → Holds Proper (decode_authorities lib round d)
  unfolding decode_authorities
  authorities-Proper round d small =
      Holds-bind Proper (or_error not_map (lib.as_map d)) _ (λ members_map e.
        Holds-bind Proper (decode_members lib members_map (lib.keys members_map)) _ (λ ms e'.
          decoded-Proper round ms small (
            Holds-inr KeysOf32 (decode_members lib members_map (lib.keys members_map)) ms
              (decode_members-KeysOf32 members_map (lib.keys members_map)) e')))

  rest-Proper :
      (ds : List Datum) (round : ℕ) → round < 256 → Holds Proper (decode_rest lib ds round)
  unfolding decode_rest
  rest-Proper ds round small =
      Holds-bind Proper (or_error not_data_list (get_elem? ds 1)) (decode_authorities lib round)
        (λ d e. authorities-Proper round d small)

  lists-Proper : (vs ds : List Datum) → Holds Proper (decode_lists lib vs ds)
  unfolding decode_lists
  lists-Proper vs ds =
      let field : DatumError ⊎ Datum = or_error not_list (get_elem? vs 1) in
      Holds-bind Proper (field >>= decode_round lib) (decode_rest lib ds) (λ round e.
        rest-Proper ds round (
          Holds-inr (λ n. n < 256) (field >>= decode_round lib) round
            (Holds-bind (λ n. n < 256) field (decode_round lib) (λ d e'. decode_round-bound d)) e))

  versioned-Proper : (vs : List Datum) → Holds Proper (decode_versioned lib vs)
  unfolding decode_versioned
  versioned-Proper vs =
      Holds-bind Proper
        ((or_error not_list (get_elem? vs 0) >>= λ data_field.
            or_error not_data_list (lib.as_list data_field))
          >>= long_enough short_data_list)
        (decode_lists lib vs) (λ ds e. lists-Proper vs ds)

  datum-Proper : (datum : Datum) → Holds Proper (decode_governance_datum lib datum)
  unfolding decode_governance_datum
  datum-Proper datum =
      Holds-bind Proper (or_error not_list (lib.as_list datum) >>= long_enough short_list)
        (decode_versioned lib) (λ vs e. versioned-Proper vs)

  -- Whatever datum decodes, the keys of its authorities have 32 bytes and its round is a byte.
  decode_governance_datum_lem :
      (datum : Datum) (d : GovernanceAuthorityDatumR0)
      → decode_governance_datum lib datum ≡ inr d
      → All (λ m. length m.0 ≡ 32) d.authorities × (d.round < 256)
  decode_governance_datum_lem datum d e =
      Holds-inr Proper (decode_governance_datum lib datum) d (datum-Proper datum) e

  -- A body whose datum at the block is missing or does not decode.
  abbrev pub IsUnreadable : Database Datum → AuthBodyConfig → ℕ → Type 0
  IsUnreadable db body block =
      (db.governance_body_datum body.address body.policy_id block ≡ some none)
      ⊎ ((datum : Datum) × (db.governance_body_datum body.address body.policy_id block
            ≡ some (some datum))
          × (e : DatumError) × (decode_governance_datum lib datum ≡ inl e))

  authorities_of-unreadable :
      (db : Database Datum) (body : AuthBodyConfig) (block : ℕ) (found : Option Datum)
      → IsUnreadable db body block
      → db.governance_body_datum body.address body.policy_id block ≡ some found
      → authorities_of lib found ≡ []
  unfolding authorities_of
  authorities_of-unreadable db body block none h k = refl
  authorities_of-unreadable db body block (some datum) (inl no_utxo) k = cc (no_utxo, k)
  authorities_of-unreadable db body block (some datum) (inr (other, is_other, e, broken)) k =
      let same : other ≡ datum = cc (is_other, k) in
      rw (subst (λ d. decode_governance_datum lib d ≡ inl e) same broken, authorities_of) refl

  collect-found :
      (x y : Option (Option Datum)) (d : FederatedAuthorityData)
      → collect lib x y ≡ inr d
      → (c : Option Datum) × (t : Option Datum) × (x ≡ some c)
        × (y ≡ some t)
        × (d.council_authorities ≡ authorities_of lib c)
        × (d.technical_committee_authorities ≡ authorities_of lib t)
  unfolding collect
  collect-found none y d h = cc h
  collect-found (some c) none d h = cc h
  collect-found (some c) (some t) d h =
      (c, t, refl, refl, sym (ap (λ x. council_or x) h), sym (ap (λ x. committee_or x) h))

  -- Where a body's datum is missing or does not decode, the data that are made of it give no
  -- inherent, so that the members stay as they are.
  pub create_inherent-unreadable :
      {Origin Weight World : Type 0} (rt : Runtime Origin Weight World) (db : Database Datum)
      (config : Config) (hash : List ℕ) (block : ℕ) (d : FederatedAuthorityData)
      → db.block_number hash ≡ some (some block)
      → IsUnreadable db config.council block ⊎ IsUnreadable db config.technical_committee block
      → get_federated_authority_data lib db config hash ≡ inr d
      → create_inherent rt (ok (some d)) ≡ none
  unfolding get_federated_authority_data
  create_inherent-unreadable rt db config hash block d at_block unreadable e =
      let at : data_at lib db config block ≡ inr d =
        subst
          (λ o.
            ((or_error database_error o >>= or_error block_not_found) >>= data_at lib db config)
            ≡ inr d)
          at_block e in
      let (c, t, found, found', council, committee) = collect-found _ _ d at in
      elim unreadable [
        | inl broken ↦
            create_inherent-no_council rt d
              (council ∙ authorities_of-unreadable db config.council block c broken found)
        | inr broken ↦ create_inherent-no_committee rt d (
            committee
            ∙ authorities_of-unreadable db config.technical_committee block t broken found')
      ]
