-- ===== src/CNightObservation/Mappings.antt =====
-- Registrations: `get_registration`, `is_registered`, `handle_registration` and
-- `handle_registration_removal`.
use midnight_node.Prelude.{
  ℕ, Bool, not, ◌&&◌, Option, none, some, List, [], ◌∷◌, ◌++◌, ◌==◌, list_eq, if◌then◌else◌, put,
  length,
}
use midnight_node.CNightObservation.Position.{ObservedUtxoHeader}
use midnight_node.CNightObservation.Types.{
  RegistrationData, DeregistrationData, MappingEntry, Event, registered, deregistered,
  mapping_added, mapping_removed, Storage,
}

abbrev pub entry_eq : MappingEntry → MappingEntry → Bool
entry_eq x y =
    x.cardano_reward_address == y.cardano_reward_address
    && x.dust_public_key == y.dust_public_key
    && list_eq x.utxo_tx_hash y.utxo_tx_hash
    && x.utxo_index == y.utxo_index

-- The key of the only mapping, if there is one and no more.
abbrev pub only_key : List MappingEntry → Option ℕ
only_key [] = none
only_key (x ∷ []) = some x.dust_public_key
only_key (x ∷ y ∷ xs) = none

-- `position` and `Vec::remove` of the first entry that is equal.
unfoldable pub remove_first : MappingEntry → List MappingEntry → List MappingEntry
remove_first e [] = []
remove_first e (x ∷ xs) = if entry_eq x e then xs else x ∷ remove_first e xs

abbrev pub registration_entry : ObservedUtxoHeader → ℕ → ℕ → MappingEntry
registration_entry header address key = record {
  cardano_reward_address = address;
  dust_public_key = key;
  utxo_tx_hash = header.utxo_tx_hash;
  utxo_index = header.utxo_index;
}

module _ {World : Type 0} where
  unfoldable pub deposit_event : Event → Storage World → Storage World
  deposit_event e s = record s { events = s.events ++ e ∷ [] }

  abbrev pub get_registration : Storage World → ℕ → Option ℕ
  get_registration s wallet = only_key (s.mappings wallet)

  abbrev pub is_registered : Storage World → ℕ → Bool
  is_registered s utxo_holder = length (s.mappings utxo_holder) == 1

  announce_added : ℕ → ℕ → Option ℕ → Bool → Storage World → Storage World
  unfolding deposit_event
  announce_added address key none is s = if is then deposit_event (registered address key) s else s
  announce_added address key (some previous) is s =
      if not is then deposit_event (deregistered address previous) s else s

  -- The returned pair is not used by the caller.
  unfoldable pub handle_registration :
      ObservedUtxoHeader → RegistrationData → Storage World → Storage World
  unfolding announce_added deposit_event
  handle_registration header d s =
      let address = d.cardano_reward_address in
      let new_reg = registration_entry header address d.dust_public_key in
      let previous_registration = get_registration s address in
      let t = record s { mappings = put address (s.mappings address ++ new_reg ∷ []) s.mappings } in
      deposit_event (mapping_added new_reg)
        (announce_added address d.dust_public_key previous_registration (is_registered t address) t)

  announce_removed : ℕ → ℕ → Bool → Option ℕ → Storage World → Storage World
  unfolding deposit_event
  announce_removed address key was (some registered_key) s =
      if not was then deposit_event (registered address registered_key) s else s
  announce_removed address key was none s =
      if was then deposit_event (deregistered address key) s else s

  -- Where the entry is not found, the source logs an error and goes on. A key without mappings is
  -- removed from the storage, and reads as the empty list.
  unfoldable pub handle_registration_removal :
      ObservedUtxoHeader → DeregistrationData → Storage World → Storage World
  unfolding announce_removed deposit_event
  handle_registration_removal header d s =
      let address = d.cardano_reward_address in
      let reg_entry = registration_entry header address d.dust_public_key in
      let was_registered = is_registered s address in
      let t = record s {
        mappings = put address (remove_first reg_entry (s.mappings address)) s.mappings;
      } in
      deposit_event (mapping_removed reg_entry)
        (announce_removed address d.dust_public_key was_registered (get_registration t address) t)
