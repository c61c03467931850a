-- ===== src/FederatedAuthorityObservation/Reset.antt =====
-- What `reset_members` achieves, when it does nothing, and how often it runs in a block.
use mathlib.Core.List.{Perm}
use midnight_node.Prelude.{
  list_eq_sound, list_eq_refl, ℕ, ◌≤◌, ◌<◌, ◌≡◌, refl, ◌∙◌, true, false, List, [], ◌∷◌, arith,
  length, is_empty, All,
}
use midnight_node.FederatedAuthorityObservation.Types.{
  inherent_already_executed, Storage, Runtime, IsAscending, IsMembership, done, failed,
}
use midnight_node.FederatedAuthorityObservation.Members.{
  Pairs, sort_pairs, accounts, mainchain, length-sort_pairs, sort_pairs-perm, sort_pairs-IsSorted,
  IsSorted,
}
use midnight_node.FederatedAuthorityObservation.Calls.{
  apply_council, apply_committee, reset_members, reset_sorted, on_finalize,
}

length-accounts : (ps : Pairs) → length (accounts ps) ≡ length ps
length-accounts [] = refl
length-accounts (p ∷ ps) = omega (arith, length-accounts ps)

All-accounts :
    (n : ℕ) (ps : Pairs) → All (λ (q : ℕ × ℕ). n ≤ q.0) ps → All (λ a. n ≤ a) (accounts ps)
All-accounts n [] h = tt
All-accounts n (p ∷ ps) h = (h.0, All-accounts n ps h.1)

accounts-IsAscending : (ps : Pairs) → IsSorted ps → IsAscending (accounts ps)
accounts-IsAscending [] h = tt
accounts-IsAscending (p ∷ ps) h = (All-accounts p.0 ps h.0, accounts-IsAscending ps h.1)

length-mainchain : (ps : Pairs) → length (mainchain ps) ≡ length ps
length-mainchain [] = refl
length-mainchain (p ∷ ps) = omega (arith, length-mainchain ps)

length-pos : (ps : Pairs) → is_empty ps ≡ false → 0 < length ps
length-pos [] h = cc
length-pos (p ∷ ps) h = omega arith

pos-is_empty : (xs : List ℕ) → 0 < length xs → is_empty xs ≡ false
pos-is_empty [] h = absurd (omega arith)
pos-is_empty (x ∷ xs) h = refl

module _ {Origin Weight World : Type 0} (rt : Runtime Origin Weight World) where
  apply_council_flag :
      (members members_mainchain : List ℕ) (s : Storage World)
      → (apply_council rt members members_mainchain s).1.inherent_executed_this_block
        ≡ s.inherent_executed_this_block
  unfolding apply_council
  apply_council_flag members members_mainchain s = ground arith

  apply_committee_flag :
      (members members_mainchain : List ℕ) (s : Storage World)
      → (apply_committee rt members members_mainchain s).1.inherent_executed_this_block
        ≡ s.inherent_executed_this_block
  unfolding apply_committee
  apply_committee_flag members members_mainchain s = ground arith

  reset_sorted_flag :
      (council committee : Pairs) (s : Storage World)
      → (reset_sorted rt council committee s).1.inherent_executed_this_block
        ≡ s.inherent_executed_this_block
  unfolding reset_sorted
  reset_sorted_flag council committee s =
      let s1 = (apply_council rt (accounts council) (mainchain council) s).1 in
      ground (
        arith,
        apply_council_flag (accounts council) (mainchain council) s,
        apply_committee_flag (accounts committee) (mainchain committee) s1,
      )

  -- Once an inherent has run in a block, any further one fails and changes nothing.
  reset_members_once :
      (o o' : Origin) (council committee council' committee' : Pairs) (s : Storage World)
      {w : Weight}
      → (reset_members rt o council committee s).0 ≡ done w
      → rt.ensure_none o' ≡ true
      → let t = (reset_members rt o council committee s).1 in
        reset_members rt o' council' committee' t ≡ (failed inherent_already_executed, t)
  unfolding reset_members
  reset_members_once o o' council committee council' committee' s ran inherent =
      let marked = record s { inherent_executed_this_block = true } in
      ground (arith, reset_sorted_flag (sort_pairs council) (sort_pairs committee) marked)

module _ {Origin Weight World : Type 0} (rt : Runtime Origin Weight World)
    (laws : IsMembership rt) where
  -- The members of a body as the chain knows them: the accounts from the membership pallet, and
  -- the mainchain ids from the storage of this one.
  abbrev pub council_of : Storage World → List ℕ × List ℕ
  council_of s = (rt.council.sorted_members s.world, s.council_mainchain_members)

  abbrev pub committee_of : Storage World → List ℕ × List ℕ
  committee_of s = (rt.committee.sorted_members s.world, s.technical_committee_mainchain_members)

  abbrev halves : Pairs → List ℕ × List ℕ
  halves ps = (accounts ps, mainchain ps)

  apply_council_lem :
      (members members_mainchain : List ℕ) (s : Storage World)
      → IsAscending members
      → length members ≤ rt.council_max_members
      → let t = (apply_council rt members members_mainchain s).1 in
        (council_of t ≡ (members, members_mainchain))
        × (committee_of t ≡ committee_of s)
        × (t.inherent_executed_this_block ≡ s.inherent_executed_this_block)
  unfolding apply_council
  apply_council_lem members members_mainchain s rising fits =
      let old = rt.council.sorted_members s.world in
      ground (
        arith,
        laws.council_set members old s.world rising fits,
        laws.committee_kept members old s.world,
        list_eq_sound old members,
        list_eq_sound s.council_mainchain_members members_mainchain,
      )

  apply_committee_lem :
      (members members_mainchain : List ℕ) (s : Storage World)
      → IsAscending members
      → length members ≤ rt.committee_max_members
      → let t = (apply_committee rt members members_mainchain s).1 in
        (committee_of t ≡ (members, members_mainchain))
        × (council_of t ≡ council_of s)
        × (t.inherent_executed_this_block ≡ s.inherent_executed_this_block)
  unfolding apply_committee
  apply_committee_lem members members_mainchain s rising fits =
      let old = rt.committee.sorted_members s.world in
      ground (
        arith,
        laws.committee_set members old s.world rising fits,
        laws.council_kept members old s.world,
        list_eq_sound old members,
        list_eq_sound s.technical_committee_mainchain_members members_mainchain,
      )

  length-accounts_sorted : (ps : Pairs) → length (accounts (sort_pairs ps)) ≡ length ps
  length-accounts_sorted ps = length-accounts (sort_pairs ps) ∙ length-sort_pairs ps

  is_empty-halves :
      (ps : Pairs)
      → is_empty ps ≡ false
      → (is_empty (accounts (sort_pairs ps)) ≡ false)
        × (is_empty (mainchain (sort_pairs ps)) ≡ false)
  is_empty-halves ps full =
      let n = length-pos ps full in
      (
        pos-is_empty (accounts (sort_pairs ps)) (omega (arith, n, length-accounts_sorted ps)),
        pos-is_empty (mainchain (sort_pairs ps))
            (omega (arith, n, length-mainchain (sort_pairs ps), length-sort_pairs ps)),
      )

  apply_council_same :
      (s : Storage World) (members members_mainchain : List ℕ)
      → council_of s ≡ (members, members_mainchain)
      → apply_council rt members members_mainchain s ≡ (false, s)
  unfolding apply_council
  apply_council_same s members members_mainchain same =
      ground (arith, list_eq_refl members, list_eq_refl members_mainchain)

  apply_committee_same :
      (s : Storage World) (members members_mainchain : List ℕ)
      → committee_of s ≡ (members, members_mainchain)
      → apply_committee rt members members_mainchain s ≡ (false, s)
  unfolding apply_committee
  apply_committee_same s members members_mainchain same =
      ground (arith, list_eq_refl members, list_eq_refl members_mainchain)

  reset_sorted_same :
      (council committee : Pairs) (s : Storage World)
      → is_empty council ≡ false
      → is_empty committee ≡ false
      → council_of s ≡ halves (sort_pairs council)
      → committee_of s ≡ halves (sort_pairs committee)
      → reset_sorted rt (sort_pairs council) (sort_pairs committee) s
        ≡ (done (rt.weights.reset_members_none (length council) (length committee)), s)
  unfolding reset_sorted
  reset_sorted_same council committee s full full' is is' =
      let cs = sort_pairs council in
      let ts = sort_pairs committee in
      ground (
        arith,
        is_empty-halves council full,
        is_empty-halves committee full',
        length-accounts_sorted council,
        length-accounts_sorted committee,
        apply_council_same s (accounts cs) (mainchain cs) is,
        apply_committee_same s (accounts ts) (mainchain ts) is',
      )

  reset_sorted_lem :
      (council committee : Pairs) (s : Storage World)
      → is_empty council ≡ false
      → is_empty committee ≡ false
      → length council ≤ rt.council_max_members
      → length committee ≤ rt.committee_max_members
      → let t = (reset_sorted rt (sort_pairs council) (sort_pairs committee) s).1 in
        (council_of t ≡ halves (sort_pairs council))
        × (committee_of t ≡ halves (sort_pairs committee))
        × (t.inherent_executed_this_block ≡ s.inherent_executed_this_block)
  unfolding reset_sorted
  reset_sorted_lem council committee s full full' fits fits' =
      let cs = sort_pairs council in
      let ts = sort_pairs committee in
      let s1 = (apply_council rt (accounts cs) (mainchain cs) s).1 in
      ground (
        arith,
        is_empty-halves council full,
        is_empty-halves committee full',
        length-accounts_sorted council,
        length-accounts_sorted committee,
        accounts-IsAscending cs (sort_pairs-IsSorted council),
        accounts-IsAscending ts (sort_pairs-IsSorted committee),
        apply_council_lem (accounts cs) (mainchain cs) s,
        apply_committee_lem (accounts ts) (mainchain ts) s1,
      )

  -- If the membership handlers keep a sorted list within their limit that they are given, each
  -- apart from the other body, the first inherent of a block sets both bodies, if neither list is
  -- empty or longer than its limit: the accounts and the mainchain ids of each body then are the
  -- two halves of the given pairs, ordered by account, so that each account keeps its own mainchain
  -- id.
  pub reset_members-applied :
      (o : Origin) (council committee : Pairs) (s : Storage World)
      → rt.ensure_none o ≡ true
      → s.inherent_executed_this_block ≡ false
      → is_empty council ≡ false
      → is_empty committee ≡ false
      → length council ≤ rt.council_max_members
      → length committee ≤ rt.committee_max_members
      → let t = (reset_members rt o council committee s).1 in
        (council_of t ≡ halves (sort_pairs council))
        × (committee_of t ≡ halves (sort_pairs committee))
        × (t.inherent_executed_this_block ≡ true)
        × (Perm (sort_pairs council) council × IsSorted (sort_pairs council))
        × (Perm (sort_pairs committee) committee × IsSorted (sort_pairs committee))
  unfolding reset_members
  reset_members-applied o council committee s inherent first full full' fits fits' =
      let marked = record s { inherent_executed_this_block = true } in
      let (c, t, flag) = reset_sorted_lem council committee marked full full' fits fits' in
      (
        ground (arith, c),
        ground (arith, t),
        ground (arith, flag),
        (sort_pairs-perm council, sort_pairs-IsSorted council),
        (sort_pairs-perm committee, sort_pairs-IsSorted committee),
      )

  -- The same data once more, in a later block, changes nothing but the mark of the block: no event
  -- is deposited, and the weight is that of a call with no changes.
  reset_members_again :
      (o : Origin) (council committee : Pairs) (s : Storage World)
      → rt.ensure_none o ≡ true
      → s.inherent_executed_this_block ≡ false
      → is_empty council ≡ false
      → is_empty committee ≡ false
      → length council ≤ rt.council_max_members
      → length committee ≤ rt.committee_max_members
      → let t = on_finalize rt (reset_members rt o council committee s).1 in
        reset_members rt o council committee t ≡ (
          done (rt.weights.reset_members_none (length council) (length committee)),
          record t { inherent_executed_this_block = true },
        )
  unfolding reset_members on_finalize
  reset_members_again o council committee s inherent first full full' fits fits' =
      let marked = record s { inherent_executed_this_block = true } in
      let (c, t, flag) = reset_sorted_lem council committee marked full full' fits fits' in
      let after = (reset_sorted rt (sort_pairs council) (sort_pairs committee) marked).1 in
      ground (
        arith,
        reset_sorted_same council committee (record after { inherent_executed_this_block = true })
            full full' c t,
      )
