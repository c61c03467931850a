-- ===== src/FederatedAuthorityObservation/Inherent.antt =====
-- The inherent of the pallet: what a block author proposes and what the others accept.
use midnight_node.Prelude.{
  ℕ, ◌≡◌, ◌↔◌, refl, sym, ◌⊎◌, inl, inr, Bool, true, false, not, ◌||◌, ◌&&◌, Option, none, some,
  List, [], ◌∷◌, arith, leb, if◌then◌else◌, length, is_empty,
}
use midnight_node.FederatedAuthorityObservation.Types.{Runtime}
use midnight_node.FederatedAuthorityObservation.Members.{
  Pairs, accounts, pairs_eq, pairs_eq_refl, pairs_eq_sound, has_duplicated_members,
}
use midnight_node.FederatedAuthorityObservation.Duplicates.{
  distinct, has_duplicated_members-distinct,
}

pub data InherentError : Type 0 where
  decode_failed council_members_mismatch technical_committee_members_mismatch : InherentError
  too_many_members : InherentError

pub data Result (A : Type 0) : Type 0 where
  ok : A → Result A
  err : InherentError → Result A

Result-cases :
    {A : Type 0} (r : Result A) → ((a : A) × (r ≡ ok a)) ⊎ ((e : InherentError) × (r ≡ err e))
Result-cases (ok a) = inl (a, refl)
Result-cases (err e) = inr (e, refl)

infixl 5 ◌>>=◌
abbrev pub ◌>>=◌ : {A B : Type 0} → Result A → (A → Result B) → Result B
ok a >>= f = f a
err e >>= f = err e

-- `FederatedAuthorityData`: the key bytes and mainchain member of each authority of both bodies; the
-- rounds and the block hash, which the inherent does not read, are left out.
pub record FederatedAuthorityData : Type 0 where
  pub council_authorities : List (List ℕ × ℕ)
  pub technical_committee_authorities : List (List ℕ × ℕ)

-- The calls of the pallet; all but the first are of no interest to the inherent.
pub data Call : Type 0 where
  reset_members : Pairs → Pairs → Call
  set_council_address set_technical_committee_address : ℕ → Call
  set_council_policy_id set_technical_committee_policy_id : ℕ → Call

module _ {Origin Weight World : Type 0} (rt : Runtime Origin Weight World) where
  decode_key : Option ℕ → ℕ → Result (ℕ × ℕ)
  decode_key none member = err decode_failed
  decode_key (some account) member = ok (account, member)

  decode_all : List (List ℕ × ℕ) → Result Pairs
  unfolding decode_key
  decode_all [] = ok []
  decode_all ((key, member) ∷ rest) =
      decode_key (rt.decode_account key) member >>= λ p. decode_all rest >>= λ ps. ok (p ∷ ps)

  -- `decode_auth_members::<MAX>`.
  unfoldable pub decode_auth_members : ℕ → List (List ℕ × ℕ) → Result Pairs
  unfolding decode_all
  decode_auth_members max auth_data = decode_all auth_data >>= λ members.
      if leb (length members) max then ok members else err too_many_members

  propose : Pairs → Pairs → Option Call
  propose council committee =
      let has_empty_members = is_empty council || is_empty committee in
      let has_duplicates = has_duplicated_members council || has_duplicated_members committee in
      if not has_empty_members && not has_duplicates
      then some (reset_members council committee)
      else none

  abbrev or_none : {A : Type 0} → Result A → (A → Option Call) → Option Call
  or_none (ok a) f = f a
  or_none (err e) f = none

  -- `create_inherent`, on what `get_data_from_inherent_data` returns.
  unfoldable pub create_inherent : Result (Option FederatedAuthorityData) → Option Call
  unfolding propose
  create_inherent (err e) = none
  create_inherent (ok none) = none
  create_inherent (ok (some d)) =
      or_none (decode_auth_members rt.council_max_members d.council_authorities) λ council.
        or_none (decode_auth_members rt.committee_max_members d.technical_committee_authorities)
          λ committee. propose council committee

  compare_call : Call → Pairs → Pairs → Result (Unit {0})
  compare_call (reset_members expected_council expected_committee) council committee =
      if not (pairs_eq council expected_council)
      then err council_members_mismatch
      else if not (pairs_eq committee expected_committee)
      then err technical_committee_members_mismatch
      else ok tt
  compare_call _ council committee = ok tt

  unfoldable pub check_inherent : Call → Result (Option FederatedAuthorityData) → Result (Unit {0})
  unfolding compare_call
  check_inherent call (err e) = err e
  check_inherent call (ok none) = ok tt
  check_inherent call (ok (some d)) =
      decode_auth_members rt.council_max_members d.council_authorities >>= λ council.
      decode_auth_members rt.committee_max_members d.technical_committee_authorities
      >>= λ committee. compare_call call council committee

  unfoldable pub is_inherent : Call → Bool
  is_inherent (reset_members council committee) = true
  is_inherent _ = false

  decode_auth_members_nil : (max : ℕ) → decode_auth_members max [] ≡ ok []
  unfolding decode_auth_members
  decode_auth_members_nil max = ground arith

  propose_nil : (ps : Pairs) → (propose [] ps ≡ none) × (propose ps [] ≡ none)
  unfolding propose
  propose_nil [] = (refl, refl)
  propose_nil (p ∷ ps) = (refl, refl)

  -- A body without authorities is not proposed.
  pub create_inherent-no_council :
      (d : FederatedAuthorityData)
      → d.council_authorities ≡ []
      → create_inherent (ok (some d)) ≡ none
  unfolding create_inherent
  create_inherent-no_council d h =
      let none_there : decode_auth_members rt.council_max_members d.council_authorities ≡ ok [] =
        rw h (decode_auth_members_nil rt.council_max_members) in
      elim (Result-cases
        (decode_auth_members rt.committee_max_members d.technical_committee_authorities)) [
          | inl (committee, e) ↦ rw (none_there, e) (propose_nil committee).0
          | inr (x, e) ↦ rw (none_there, e) refl
        ]

  pub create_inherent-no_committee :
      (d : FederatedAuthorityData)
      → d.technical_committee_authorities ≡ []
      → create_inherent (ok (some d)) ≡ none
  unfolding create_inherent
  create_inherent-no_committee d h =
      let none_there : decode_auth_members rt.committee_max_members
            d.technical_committee_authorities
          ≡ ok [] =
        rw h (decode_auth_members_nil rt.committee_max_members) in
      elim (Result-cases (decode_auth_members rt.council_max_members d.council_authorities)) [
        | inl (council, e) ↦ rw (e, none_there) (propose_nil council).1
        | inr (x, e) ↦ rw e refl
      ]

  propose-some :
      (council committee : Pairs) (call : Call)
      → propose council committee ≡ some call
      → (call ≡ reset_members council committee)
        × (is_empty council ≡ false)
        × (is_empty committee ≡ false)
        × (distinct (accounts council) ≡ true)
        × (distinct (accounts committee) ≡ true)
  unfolding propose
  propose-some council committee call h =
      ground
        (arith, has_duplicated_members-distinct council, has_duplicated_members-distinct committee)

  -- What one node proposes from its data another node with the same data accepts, and it is an
  -- inherent: a `reset_members` of two lists that are not empty and name no account twice.
  pub check_inherent-create_inherent :
      (data' : Result (Option FederatedAuthorityData)) (call : Call)
      → create_inherent data' ≡ some call
      → (check_inherent call data' ≡ ok tt)
        × (is_inherent call ≡ true)
        × ((council : Pairs) × (committee : Pairs) × (call ≡ reset_members council committee)
            × (is_empty council ≡ false)
            × (is_empty committee ≡ false)
            × (distinct (accounts council) ≡ true)
            × (distinct (accounts committee) ≡ true))
  unfolding create_inherent check_inherent is_inherent
  check_inherent-create_inherent (err e) call h = cc
  check_inherent-create_inherent (ok none) call h = cc
  check_inherent-create_inherent (ok (some d)) call h =
      elim (Result-cases (decode_auth_members rt.council_max_members d.council_authorities)) [
        | inr (e, undecoded) ↦ absurd (ground arith)
        | inl (council, hc) ↦
            elim (Result-cases
              (decode_auth_members rt.committee_max_members d.technical_committee_authorities)) [
                | inr (e, undecoded) ↦ absurd (ground arith)
                | inl (committee, ht) ↦
                    let (same, full, full', once, once') =
                      propose-some council committee call (ground arith) in
                    (
                      rw (hc, ht, same, ◌>>=◌, compare_call)
                          (rw (pairs_eq_refl council, pairs_eq_refl committee)),
                      rw same refl,
                      (council, committee, same, full, full', once, once'),
                    )
              ]
      ]

  -- Where there is data that decodes, a `reset_members` is accepted exactly if it carries the
  -- decoded lists.
  pub check_inherent_exact :
      (d : FederatedAuthorityData) (council committee council' committee' : Pairs)
      → decode_auth_members rt.council_max_members d.council_authorities ≡ ok council
      → decode_auth_members rt.committee_max_members d.technical_committee_authorities
        ≡ ok committee
      → (check_inherent (reset_members council' committee') (ok (some d)) ≡ ok tt)
        ↔ ((council' ≡ council) × (committee' ≡ committee))
  unfolding check_inherent
  check_inherent_exact d council committee council' committee' hc ht = (
    λ h. (
      sym (ground (arith, pairs_eq_sound council council', pairs_eq_sound committee committee')),
      sym (ground (arith, pairs_eq_sound council council', pairs_eq_sound committee committee')),
    ),
    λ same. ground (arith, pairs_eq_refl council, pairs_eq_refl committee),
  )
