-- ===== src/FederatedAuthoritySource/Tests.antt =====
-- A datum with one member, and one that is no list.
use midnight_node.Prelude.{
  ℕ, ◌+◌, ◌≡◌, refl, inl, inr, Bool, not, Option, none, some, List, [], ◌∷◌, length, replicate,
  ◌==◌, if◌then◌else◌,
}
use midnight_node.FederatedAuthorityObservation.Types.{Runtime}
use midnight_node.FederatedAuthorityObservation.Inherent.{create_inherent, ok}
use midnight_node.FederatedAuthoritySource.{
  PlutusLib, Database, Config, GovernanceAuthorityDatumR0, decode_governance_datum, not_list,
  get_federated_authority_data, value_bytes,
}
use midnight_node.FederatedAuthoritySource.Decoded.{create_inherent-unreadable}

-- 0 is the datum, 1 its multisig, 2 its round, 3 the number of signers, 4 the map, 5 its key and 6
-- the key's value; 7 is none of these.
abbrev as_list : ℕ → Option (List ℕ)
as_list d = if d == 0 then some (1 ∷ 2 ∷ []) else if d == 1 then some (3 ∷ 4 ∷ []) else none

abbrev as_bytes : ℕ → Option (List ℕ)
as_bytes d =
    if d == 5 then some (replicate 32 9) else if d == 6 then some (replicate 32 8) else none

abbrev lib : PlutusLib ℕ ℕ ℕ ℕ
lib = record {
  as_list = as_list;
  as_integer = λ d. if d == 2 then some 17 else none;
  as_u64 = λ i. some i;
  as_map = λ d. if d == 4 then some 0 else none;
  keys = λ m. 5 ∷ 3 ∷ [];
  get = λ m key. if key == 5 then some 6 else none;
  first = λ values. some values;
  as_bytes = as_bytes;
  policy_number = length;
}

abbrev member : GovernanceAuthorityDatumR0
member = record { authorities = (replicate 32 8, 28) ∷ []; round = 17 }

-- The key that is not bytes is skipped.
decoded : decode_governance_datum lib 0 ≡ inr member
unfolding decode_governance_datum value_bytes
decoded = refl

not_decoded : decode_governance_datum lib 7 ≡ inl not_list
unfolding decode_governance_datum value_bytes
not_decoded = refl

-- The council has the datum at its address 1, and the committee has none.
abbrev db : Database ℕ
db = record {
  block_number = λ hash. some (some 5);
  governance_body_datum =
      λ address policy_id block. if length address == 1 then some (some 0) else some (some 7);
}

abbrev config : Config
config = record {
  council = record { address = 1 ∷ []; policy_id = 1 };
  technical_committee = record { address = []; policy_id = 2 };
}

abbrev rt : Runtime Bool ℕ (List ℕ)
rt = record {
  council = record { sorted_members = λ w. w; set_members_sorted = λ new old w. new };
  committee = record { sorted_members = λ w. w; set_members_sorted = λ new old w. new };
  council_max_members = 10;
  committee_max_members = 10;
  weights = record {
    zero_weight = 0;
    saturating_add = ◌+◌;
    reset_members_none = λ n k. n + k;
    reset_members_only_council = λ n k. n + k;
    reset_members_only_technical_committee = λ n k. n + k;
  };
  ensure_none = λ origin. not origin;
  ensure_root = λ origin. origin;
  decode_account = λ key. some (length key);
}

observed :
    get_federated_authority_data lib db config []
    ≡ inr
        (record { council_authorities = member.authorities; technical_committee_authorities = [] })
unfolding get_federated_authority_data value_bytes
observed = refl

create_inherent-unreadable_example :
    create_inherent rt (
      ok (
        some (record {
          council_authorities = member.authorities;
          technical_committee_authorities = [];
        })))
    ≡ none
create_inherent-unreadable_example =
    create_inherent-unreadable lib rt db config [] 5
      (record { council_authorities = member.authorities; technical_committee_authorities = [] })
      refl (inr (inr (7, refl, not_list, not_decoded))) observed
