-- ===== src/FederatedAuthorityObservation/Types.antt =====
-- The storage of the pallet and the interface of what it calls.
use midnight_node.Prelude.{ℕ, ◌≤◌, ◌≡◌, Bool, Option, List, [], ◌∷◌, length, All}

-- `EmptyMembers` and `DuplicatedMembers` are declared, and no call returns them.
pub data Error : Type 0 where
  empty_members duplicated_members inherent_already_executed : Error
  -- An error of `ensure_none` or `ensure_root`.
  bad_origin : Error

pub data Event : Type 0 where
  council_members_reset : List ℕ → List ℕ → Event
  technical_committee_members_reset : List ℕ → List ℕ → Event

-- The storage items, the events of `frame_system`, and the rest of the chain, in which the two
-- membership pallets keep their members.
pub record Storage (World : Type 0) : Type 0 where
  pub council_address : ℕ
  pub council_policy_id : ℕ
  pub technical_committee_address : ℕ
  pub technical_committee_policy_id : ℕ
  pub council_mainchain_members : List ℕ
  pub technical_committee_mainchain_members : List ℕ
  pub inherent_executed_this_block : Bool
  pub events : List Event
  pub world : World

-- `ChangeMembers` and `SortedMembers` of a membership handler.
pub record Handler (World : Type 0) : Type 0 where
  pub sorted_members : World → List ℕ
  pub set_members_sorted : List ℕ → List ℕ → World → World

pub record Weights (Weight : Type 0) : Type 0 where
  pub zero_weight : Weight
  pub saturating_add : Weight → Weight → Weight
  pub reset_members_none : ℕ → ℕ → Weight
  pub reset_members_only_council : ℕ → ℕ → Weight
  pub reset_members_only_technical_committee : ℕ → ℕ → Weight

pub record Runtime (Origin Weight World : Type 0) : Type 0 where
  pub council : Handler World
  pub committee : Handler World
  pub council_max_members : ℕ
  pub committee_max_members : ℕ
  pub weights : Weights Weight
  pub ensure_none : Origin → Bool
  pub ensure_root : Origin → Bool
  pub decode_account : List ℕ → Option ℕ

-- The account ids rise along the list.
abbrev pub IsAscending : List ℕ → Type 0
IsAscending [] = Unit
IsAscending (x ∷ xs) = All (λ y. x ≤ y) xs × IsAscending xs

-- What the pallet relies on of the two handlers: members that were set in order are read back, if
-- there are no more than the limit, and the two bodies are apart. The handlers of the runtime
-- dispatch `reset_members` of the membership pallet, which sorts what it is given.
pub record IsMembership {Origin Weight World : Type 0} (rt : Runtime Origin Weight World)
    : Type 0 where
  pub council_set :
      (new old : List ℕ) (w : World)
      → IsAscending new
      → length new ≤ rt.council_max_members
      → rt.council.sorted_members (rt.council.set_members_sorted new old w) ≡ new
  pub committee_set :
      (new old : List ℕ) (w : World)
      → IsAscending new
      → length new ≤ rt.committee_max_members
      → rt.committee.sorted_members (rt.committee.set_members_sorted new old w) ≡ new
  pub council_kept :
      (new old : List ℕ) (w : World)
      → rt.council.sorted_members (rt.committee.set_members_sorted new old w)
        ≡ rt.council.sorted_members w
  pub committee_kept :
      (new old : List ℕ) (w : World)
      → rt.committee.sorted_members (rt.council.set_members_sorted new old w)
        ≡ rt.committee.sorted_members w

-- The result of a call: the weight that was used, with `Pays::No`, or an error.
pub data Outcome (Weight : Type 0) : Type 0 where
  done : Weight → Outcome Weight
  failed : Error → Outcome Weight
