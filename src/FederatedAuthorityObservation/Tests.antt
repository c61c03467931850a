-- ===== src/FederatedAuthorityObservation/Tests.antt =====
-- A runtime whose membership handlers sort and keep two lists, runs under it, and the theorems at
-- concrete data.
use mathlib.Core.List.{Perm}
use midnight_node.Prelude.{
  ℕ, ◌+◌, ◌≡◌, ◌↔◌, ◌≤◌, All, leb, if◌then◌else◌, refl, Bool, true, false, not, List, [], ◌∷◌,
  arith, is_empty, Option, some, none,
}
use midnight_node.FederatedAuthorityObservation.Types.{
  Storage, Runtime, IsAscending, IsMembership, council_members_reset,
  technical_committee_members_reset,
}
use midnight_node.FederatedAuthorityObservation.Members.{
  Pairs, sort_pairs, accounts, IsSorted, has_duplicated_members,
}
use midnight_node.FederatedAuthorityObservation.Duplicates.{distinct}
use midnight_node.FederatedAuthorityObservation.Calls.{
  reset_members, apply_council, apply_committee,
}
use midnight_node.FederatedAuthorityObservation.Inherent
use midnight_node.FederatedAuthorityObservation.Inherent.{
  FederatedAuthorityData, Call, Result, ok, err, create_inherent, check_inherent, is_inherent,
  decode_auth_members, check_inherent-create_inherent, check_inherent_exact,
}
use midnight_node.FederatedAuthorityObservation.Reset.{
  council_of, committee_of, reset_members-applied,
}

abbrev World : Type 0
World = List ℕ × List ℕ

abbrev first_key : List ℕ → Option ℕ
first_key [] = none
first_key (k ∷ ks) = some k

abbrev insert : ℕ → List ℕ → List ℕ
insert a [] = a ∷ []
insert a (b ∷ bs) = if leb a b then a ∷ b ∷ bs else b ∷ insert a bs

-- `members.sort()` of the membership pallet.
abbrev sort : List ℕ → List ℕ
sort [] = []
sort (a ∷ bs) = insert a (sort bs)

insert-first : (a : ℕ) (bs : List ℕ) → All (λ b. a ≤ b) bs → insert a bs ≡ a ∷ bs
insert-first a [] h = refl
insert-first a (b ∷ bs) h = ground (arith, h.0)

sort-IsAscending : (bs : List ℕ) → IsAscending bs → sort bs ≡ bs
sort-IsAscending [] h = refl
sort-IsAscending (a ∷ bs) h = rw (sort-IsAscending bs h.1) (insert-first a bs h.0)

abbrev rt : Runtime Bool ℕ World
rt = record {
  council = record { sorted_members = λ w. w.0; set_members_sorted = λ new old w. (sort new, w.1) };
  committee = record {
    sorted_members = λ w. w.1;
    set_members_sorted = λ new old w. (w.0, sort new);
  };
  council_max_members = 10;
  committee_max_members = 10;
  weights = record {
    zero_weight = 0;
    saturating_add = ◌+◌;
    reset_members_none = λ n k. n + k;
    reset_members_only_council = λ n k. n + k + 100;
    reset_members_only_technical_committee = λ n k. n + k + 200;
  };
  ensure_none = λ origin. not origin;
  ensure_root = λ origin. origin;
  decode_account = first_key;
}

rt-IsMembership : IsMembership rt
rt-IsMembership = record {
  council_set = λ new old w rising fits. sort-IsAscending new rising;
  committee_set = λ new old w rising fits. sort-IsAscending new rising;
  council_kept = λ new old w. refl;
  committee_kept = λ new old w. refl;
}

abbrev council : Pairs
council = (7, 70) ∷ (3, 31) ∷ (5, 50) ∷ []

abbrev committee : Pairs
committee = (9, 90) ∷ []

abbrev empty : Storage World
empty = record {
  council_address = 1;
  council_policy_id = 2;
  technical_committee_address = 3;
  technical_committee_policy_id = 4;
  council_mainchain_members = [];
  technical_committee_mainchain_members = [];
  inherent_executed_this_block = false;
  events = [];
  world = ([], []);
}

abbrev later : Storage World
later = (reset_members rt false council committee empty).1

reset_events :
    later.events
    ≡ council_members_reset (3 ∷ 5 ∷ 7 ∷ []) (31 ∷ 50 ∷ 70 ∷ [])
      ∷ technical_committee_members_reset (9 ∷ []) (90 ∷ [])
      ∷ []
unfolding reset_members apply_council apply_committee sort_pairs
reset_events = refl

-- A duplicate is logged by `reset_members`, and set all the same.
reset_duplicate :
    rt.council.sorted_members
      (reset_members rt false ((7, 70) ∷ (7, 71) ∷ []) committee empty).1.world
    ≡ 7 ∷ 7 ∷ []
unfolding reset_members apply_council apply_committee sort_pairs
reset_duplicate = refl

reset_members-applied_example :
    (council_of rt rt-IsMembership later ≡ (3 ∷ 5 ∷ 7 ∷ [], 31 ∷ 50 ∷ 70 ∷ []))
    × (committee_of rt rt-IsMembership later ≡ (9 ∷ [], 90 ∷ []))
    × (later.inherent_executed_this_block ≡ true)
    × (Perm (sort_pairs council) council × IsSorted (sort_pairs council))
    × (Perm (sort_pairs committee) committee × IsSorted (sort_pairs committee))
unfolding sort_pairs
reset_members-applied_example =
    reset_members-applied rt rt-IsMembership false council committee empty refl refl refl refl
      (omega arith) (omega arith)

abbrev observed : FederatedAuthorityData
observed = record {
  council_authorities = (7 ∷ 1 ∷ [], 70) ∷ (3 ∷ [], 31) ∷ [];
  technical_committee_authorities = (9 ∷ [], 90) ∷ [];
}

abbrev proposed : Call
proposed = Inherent.reset_members ((7, 70) ∷ (3, 31) ∷ []) ((9, 90) ∷ [])

check_inherent-create_inherent_example :
    (check_inherent rt proposed (ok (some observed)) ≡ ok tt)
    × (is_inherent rt proposed ≡ true)
    × ((council : Pairs) × (committee : Pairs) × (proposed
          ≡ Inherent.reset_members council committee)
        × (is_empty council ≡ false)
        × (is_empty committee ≡ false)
        × (distinct (accounts council) ≡ true)
        × (distinct (accounts committee) ≡ true))
unfolding create_inherent decode_auth_members has_duplicated_members
check_inherent-create_inherent_example =
    check_inherent-create_inherent rt (ok (some observed)) proposed refl

check_inherent_exact_example : (check_inherent rt proposed (ok (some observed)) ≡ ok tt) ↔ (
    ◌≡◌ {A = Pairs} ((7, 70) ∷ (3, 31) ∷ []) ((7, 70) ∷ (3, 31) ∷ [])
    × ◌≡◌ {A = Pairs} ((9, 90) ∷ []) ((9, 90) ∷ []))
unfolding decode_auth_members
check_inherent_exact_example =
    check_inherent_exact rt observed ((7, 70) ∷ (3, 31) ∷ []) ((9, 90) ∷ [])
      ((7, 70) ∷ (3, 31) ∷ []) ((9, 90) ∷ []) refl refl
