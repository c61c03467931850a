-- ===== src/FederatedAuthorityObservation/Calls.antt =====
-- The calls of the pallet, its genesis and its hook. A body runs on the storage and returns what
-- it has written, also where it fails.
use midnight_node.Prelude.{
  list_eq, ℕ, Bool, true, false, not, ◌||◌, ◌&&◌, Option, none, some, List, [], ◌∷◌, ◌++◌, leb,
  if◌then◌else◌, length, is_empty,
}
use midnight_node.FederatedAuthorityObservation.Types.{
  inherent_already_executed, bad_origin, Event, council_members_reset,
  technical_committee_members_reset, Storage, Runtime, Outcome, done, failed,
}
use midnight_node.FederatedAuthorityObservation.Members.{Pairs, sort_pairs, accounts, mainchain}

-- The fields of the genesis configuration.
pub record GenesisConfig : Type 0 where
  pub council_address : ℕ
  pub council_policy_id : ℕ
  pub technical_committee_address : ℕ
  pub technical_committee_policy_id : ℕ
  pub council_members_mainchain : List ℕ
  pub technical_committee_members_mainchain : List ℕ

module _ {Origin Weight World : Type 0} (rt : Runtime Origin Weight World) where
  open rt use {weights}

  deposit_event : Event → Storage World → Storage World
  deposit_event e s = record s { events = s.events ++ e ∷ [] }

  -- `GenesisConfig::build`; `none` is the panic of an `expect`.
  unfoldable pub build : GenesisConfig → Storage World → Option (Storage World)
  build g s =
      if leb (length g.council_members_mainchain) rt.council_max_members
        && leb (length g.technical_committee_members_mainchain) rt.committee_max_members
      then some (record s {
        council_address = g.council_address;
        council_policy_id = g.council_policy_id;
        technical_committee_address = g.technical_committee_address;
        technical_committee_policy_id = g.technical_committee_policy_id;
        council_mainchain_members = g.council_members_mainchain;
        technical_committee_mainchain_members = g.technical_committee_members_mainchain;
      })
      else none

  unfoldable pub on_finalize : Storage World → Storage World
  on_finalize s = record s { inherent_executed_this_block = false }

  -- The state changes for the council, and whether there were any.
  unfoldable pub apply_council : List ℕ → List ℕ → Storage World → Bool × Storage World
  unfolding deposit_event
  apply_council members members_mainchain s =
      let current = rt.council.sorted_members s.world in
      let members_have_changed = not (list_eq current members) in
      let mainchain_have_changed = not (list_eq s.council_mainchain_members members_mainchain) in
      let has_changed = members_have_changed || mainchain_have_changed in
      let w = rt.council.set_members_sorted members current s.world in
      let s1 = record s { world = if members_have_changed then w else s.world } in
      let s2 = record s1 {
        council_mainchain_members =
            if mainchain_have_changed then members_mainchain else s1.council_mainchain_members;
      } in
      (
        has_changed,
        if has_changed
            then deposit_event (council_members_reset members members_mainchain) s2
            else s2,
      )

  -- The same for the technical committee.
  unfoldable pub apply_committee : List ℕ → List ℕ → Storage World → Bool × Storage World
  unfolding deposit_event
  apply_committee members members_mainchain s =
      let current = rt.committee.sorted_members s.world in
      let members_have_changed = not (list_eq current members) in
      let mainchain_have_changed =
        not (list_eq s.technical_committee_mainchain_members members_mainchain) in
      let has_changed = members_have_changed || mainchain_have_changed in
      let w = rt.committee.set_members_sorted members current s.world in
      let s1 = record s { world = if members_have_changed then w else s.world } in
      let s2 = record s1 {
        technical_committee_mainchain_members =
            if mainchain_have_changed
            then members_mainchain
            else s1.technical_committee_mainchain_members;
      } in
      (
        has_changed,
        if has_changed
            then deposit_event (technical_committee_members_reset members members_mainchain) s2
            else s2,
      )

  reset_weight : Bool → Bool → ℕ → ℕ → Weight
  reset_weight council_changed committee_changed n k =
      let only_council =
        weights.saturating_add weights.zero_weight (weights.reset_members_only_council n k) in
      let so_far = if council_changed then only_council else weights.zero_weight in
      let both =
        weights.saturating_add so_far (weights.reset_members_only_technical_committee n k) in
      let added = if committee_changed then both else so_far in
      if not council_changed && not committee_changed then weights.reset_members_none n k else added

  -- The body behind the two `ensure!`s, on the sorted pairs. What `has_duplicated_members` finds is
  -- only logged here, so it does not occur.
  unfoldable pub reset_sorted : Pairs → Pairs → Storage World → Outcome Weight × Storage World
  unfolding reset_weight
  reset_sorted council committee s =
      let n = length (accounts council) in
      let k = length (accounts committee) in
      if is_empty (accounts council)
        || is_empty (mainchain council)
        || is_empty (accounts committee)
        || is_empty (mainchain committee)
      then (done (weights.reset_members_none n k), s)
      else let (council_changed, s1) = apply_council (accounts council) (mainchain council) s in
        let (committee_changed, s2) =
          apply_committee (accounts committee) (mainchain committee) s1 in
        (done (reset_weight council_changed committee_changed n k), s2)

  unfoldable pub reset_members :
      Origin → Pairs → Pairs → Storage World → Outcome Weight × Storage World
  unfolding reset_sorted
  reset_members origin council_authorities technical_committee_authorities s =
      if not (rt.ensure_none origin)
      then (failed bad_origin, s)
      else if s.inherent_executed_this_block
      then (failed inherent_already_executed, s)
      else reset_sorted (sort_pairs council_authorities)
          (sort_pairs technical_committee_authorities)
          (record s { inherent_executed_this_block = true })

  -- The calls that set one address or one policy id; the result is whether the origin was root.
  abbrev as_root : Origin → Storage World → Storage World → Bool × Storage World
  as_root origin s t = if rt.ensure_root origin then (true, t) else (false, s)

  unfoldable pub set_council_address : Origin → ℕ → Storage World → Bool × Storage World
  set_council_address origin address s = as_root origin s (record s { council_address = address })

  unfoldable pub set_technical_committee_address : Origin → ℕ → Storage World → Bool × Storage World
  set_technical_committee_address origin address s =
      as_root origin s (record s { technical_committee_address = address })

  unfoldable pub set_council_policy_id : Origin → ℕ → Storage World → Bool × Storage World
  set_council_policy_id origin policy_id s =
      as_root origin s (record s { council_policy_id = policy_id })

  unfoldable pub set_technical_committee_policy_id :
      Origin → ℕ → Storage World → Bool × Storage World
  set_technical_committee_policy_id origin policy_id s =
      as_root origin s (record s { technical_committee_policy_id = policy_id })
