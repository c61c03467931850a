-- ===== src/CNightObservation/Registrations.antt =====
-- How the two registration handlers change the mappings and what events they deposit.
use mathlib.Core.List.{append-nil}
use midnight_node.Prelude.{
  ℕ, ◌≡◌, ◌≢◌, refl, ◌∙◌, true, false, Option, none, some, List, [], ◌∷◌, ◌++◌, ◌==◌, if◌then◌else◌,
  arith, Bool-cases, inl, inr, list_eq_refl,
}
use midnight_node.CNightObservation.Position.{ObservedUtxoHeader}
use midnight_node.CNightObservation.Types.{
  RegistrationData, DeregistrationData, MappingEntry, Event, registered, deregistered,
  mapping_added, mapping_removed, Storage,
}
use midnight_node.CNightObservation.Mappings.{
  entry_eq, remove_first, get_registration, registration_entry, handle_registration,
  handle_registration_removal,
}

-- What an observer has to be told when the registered key of an address changes.
abbrev pub transition : ℕ → Option ℕ → Option ℕ → List Event
transition address none none = []
transition address none (some key) = registered address key ∷ []
transition address (some key) none = deregistered address key ∷ []
transition address (some key) (some key') =
    if key == key' then [] else deregistered address key ∷ registered address key' ∷ []

module _ {World : Type 0} where
  added_events :
      (header : ObservedUtxoHeader) (d : RegistrationData) (s : Storage World)
      (xs : List MappingEntry)
      → s.mappings d.cardano_reward_address ≡ xs
      → let t = handle_registration header d s in
        let address = d.cardano_reward_address in
        t.events
        ≡ (s.events ++ transition address (get_registration s address) (get_registration t address))
          ++ mapping_added (registration_entry header address d.dust_public_key) ∷ []
  unfolding handle_registration
  added_events header d s [] e = ground arith
  added_events header d s (x ∷ []) e = ground arith
  added_events header d s (x ∷ y ∷ xs) e = ground (arith, append-nil s.events)

  -- Adding a mapping deposits the event that tells how the registered key of the address changed,
  -- if it did, and then `MappingAdded`; the new mapping stands last, and no other address changes.
  pub handle_registration_lem :
      (header : ObservedUtxoHeader) (d : RegistrationData) (s : Storage World)
      → let t = handle_registration header d s in
        let address = d.cardano_reward_address in
        let e = registration_entry header address d.dust_public_key in
        (t.mappings address ≡ s.mappings address ++ e ∷ [])
        × ((other : ℕ) → other ≢ address → t.mappings other ≡ s.mappings other)
        × (t.events
            ≡ (s.events
                ++ transition address (get_registration s address) (get_registration t address))
              ++ mapping_added e ∷ [])
  unfolding handle_registration
  handle_registration_lem header d s = (
    ground arith,
    λ other ne. ground arith,
    added_events header d s (s.mappings d.cardano_reward_address) refl,
  )

  removed_events :
      (header : ObservedUtxoHeader) (d : DeregistrationData) (s : Storage World)
      (xs : List MappingEntry)
      → s.mappings d.cardano_reward_address ≡ xs
      → let t = handle_registration_removal header d s in
        let address = d.cardano_reward_address in
        t.events
        ≡ (s.events ++ transition address (get_registration s address) (get_registration t address))
          ++ mapping_removed (registration_entry header address d.dust_public_key) ∷ []
  unfolding handle_registration_removal remove_first
  removed_events header d s [] e = ground (arith, append-nil s.events)
  removed_events header d s (x ∷ []) e = ground (arith, append-nil s.events)
  removed_events header d s (x ∷ y ∷ []) e = ground (arith, append-nil s.events)
  removed_events header d s (x ∷ y ∷ z ∷ xs) e = ground (arith, append-nil s.events)

  -- Removing a mapping deposits the event that tells how the registered key of the address changed,
  -- if it did, and then `MappingRemoved`, also where the mapping is not found; the first equal
  -- mapping is gone, and no other address changes.
  pub handle_registration_removal_lem :
      (header : ObservedUtxoHeader) (d : DeregistrationData) (s : Storage World)
      → let t = handle_registration_removal header d s in
        let address = d.cardano_reward_address in
        let e = registration_entry header address d.dust_public_key in
        (t.mappings address ≡ remove_first e (s.mappings address))
        × ((other : ℕ) → other ≢ address → t.mappings other ≡ s.mappings other)
        × (t.events
            ≡ (s.events
                ++ transition address (get_registration s address) (get_registration t address))
              ++ mapping_removed e ∷ [])
  unfolding handle_registration_removal
  handle_registration_removal_lem header d s = (
    ground arith,
    λ other ne. ground arith,
    removed_events header d s (s.mappings d.cardano_reward_address) refl,
  )

abbrev pub registration_data : ℕ → ℕ → RegistrationData
registration_data address key = record { cardano_reward_address = address; dust_public_key = key }

abbrev pub deregistration_data : ℕ → ℕ → DeregistrationData
deregistration_data address key = record { cardano_reward_address = address; dust_public_key = key }

same_entry :
    (header header' : ObservedUtxoHeader) (address key : ℕ)
    → header'.utxo_tx_hash ≡ header.utxo_tx_hash
    → header'.utxo_index ≡ header.utxo_index
    → registration_entry header' address key ≡ registration_entry header address key
same_entry header header' address key hash index = λ i. record {
  cardano_reward_address = address;
  dust_public_key = key;
  utxo_tx_hash = hash i;
  utxo_index = index i;
}

entry_eq_refl : (e : MappingEntry) → entry_eq e e ≡ true
entry_eq_refl e = ground (arith, list_eq_refl e.utxo_tx_hash)

-- No entry of the list is equal to `e`.
abbrev pub IsAbsent : MappingEntry → List MappingEntry → Type 0
IsAbsent e [] = Unit
IsAbsent e (x ∷ xs) = (entry_eq x e ≡ false) × IsAbsent e xs

remove_first-append :
    (e : MappingEntry) (xs : List MappingEntry) → IsAbsent e xs → remove_first e (xs ++ e ∷ []) ≡ xs
unfolding remove_first
remove_first-append e [] h = ground (arith, entry_eq_refl e)
remove_first-append e (x ∷ xs) h = ground (arith, remove_first-append e xs h.1)

remove_first-absent :
    (e : MappingEntry) (xs : List MappingEntry) → IsAbsent e xs → remove_first e xs ≡ xs
unfolding remove_first
remove_first-absent e [] h = refl
remove_first-absent e (x ∷ xs) h = ground (arith, remove_first-absent e xs h.1)

module _ {World : Type 0} where
  -- Spending the UTXO of a registration that was not on record before it undoes the registration:
  -- every address has the mappings that it had.
  pub handle_registration_removal-handle_registration :
      (header header' : ObservedUtxoHeader) (address key : ℕ) (s : Storage World)
      → header'.utxo_tx_hash ≡ header.utxo_tx_hash
      → header'.utxo_index ≡ header.utxo_index
      → IsAbsent (registration_entry header address key) (s.mappings address)
      → let added = handle_registration header (registration_data address key) s in
        let removed = handle_registration_removal header' (deregistration_data address key) added in
        (other : ℕ) → removed.mappings other ≡ s.mappings other
  handle_registration_removal-handle_registration header header' address key s hash index absent
        other =
      let d = registration_data address key in
      let d' = deregistration_data address key in
      let added = handle_registration header d s in
      let (here, elsewhere, _) = handle_registration_lem header d s in
      let (here', elsewhere', _) = handle_registration_removal_lem header' d' added in
      let e = registration_entry header address key in
      elim (Bool-cases (other == address)) [
        | inl same ↦ ground (
          arith,
          here,
          here',
          same_entry header header' address key hash index,
          remove_first-append e (s.mappings address) absent,
        )
        | inr apart ↦ elsewhere' other (ground arith) ∙ elsewhere other (ground arith)
      ]
