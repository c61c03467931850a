-- ===== src/CNightObservation/Observer.antt =====
-- An observer that reads only the events, and the registered keys that it works out from them.
use midnight_node.Prelude.{
  ℕ, ◌/◌, ◌%◌, leb, ◌≡◌, ◌≢◌, refl, sym, ap, ◌∙◌, true, Option, none, some, List, [], ◌∷◌, ◌++◌,
  ◌==◌, put, length, arith, Bool-cases, Option-cases, ◌⊎◌, inl, inr, is_empty,
}
use midnight_node.CNightObservation.Position.{CardanoPosition, ObservedUtxoHeader}
use midnight_node.CNightObservation.Types.{
  MappingEntry, Event, registered, deregistered, mapping_added, mapping_removed,
  system_transaction_applied, ObservedUtxo, ObservedUtxoData, registration, deregistration,
  asset_create, asset_spend, CreateData, SpendData, Storage, Runtime, Execution-cases, CmstHeader,
}
use midnight_node.CNightObservation.Mappings.{
  only_key, registration_entry, get_registration, handle_registration, handle_registration_removal,
}
use midnight_node.CNightObservation.Utxos.{handle_create, handle_spend}
use midnight_node.CNightObservation.Process.{
  process_utxo, process_utxos, finish, process_batch, process_tokens, advances, capacity,
}
use midnight_node.CNightObservation.Registrations.{
  transition, handle_registration_lem, handle_registration_removal_lem,
}

abbrev pub Registry : Type 0
Registry = ℕ → Option ℕ

-- What the observer does on one event, and on a log.
abbrev pub follow : Event → Registry → Registry
follow (registered address key) known = put address (some key) known
follow (deregistered address key) known = put address none known
follow (mapping_added e) known = known
follow (mapping_removed e) known = known
follow (system_transaction_applied header tx_hash) known = known

unfoldable pub replay : List Event → Registry → Registry
replay [] known = known
replay (e ∷ es) known = replay es (follow e known)

replay-append :
    (es fs : List Event) (known : Registry) → replay (es ++ fs) known ≡ replay fs (replay es known)
unfolding replay
replay-append [] fs known = refl
replay-append (e ∷ es) fs known = replay-append es fs (follow e known)

replay-transition :
    (address : ℕ) (before after : Option ℕ) (known : Registry) (other : ℕ)
    → known address ≡ before
    → replay (transition address before after) known other ≡ put address after known other
unfolding replay
replay-transition address none none known other h = ground arith
replay-transition address none (some key) known other h = refl
replay-transition address (some key) none known other h = refl
replay-transition address (some key) (some key') known other h = ground arith

module _ {World : Type 0} (known : Registry) where
  -- The observer, who knew `known` before the log began, now knows every registration.
  abbrev pub IsInformed : Storage World → Type 0
  IsInformed s = (address : ℕ) → replay s.events known address ≡ get_registration s address

  told-IsInformed :
      (s t : Storage World) (address : ℕ) (e : Event)
      → ((f : Registry) → follow e f ≡ f)
      → ((other : ℕ) → other ≢ address → t.mappings other ≡ s.mappings other)
      → t.events
        ≡ (s.events ++ transition address (get_registration s address) (get_registration t address))
          ++ e ∷ []
      → IsInformed s
      → IsInformed t
  unfolding replay
  told-IsInformed s t address e silent kept log h other =
      let told = transition address (get_registration s address) (get_registration t address) in
      let before = replay s.events known in
      let read : replay t.events known ≡ replay told before =
        ap (λ es. replay es known) log
        ∙ replay-append (s.events ++ told) (e ∷ []) known
        ∙ silent (replay (s.events ++ told) known)
        ∙ replay-append s.events told known in
      ap (λ f. f other) read
      ∙ replay-transition address _ (get_registration t address) before other (h address)
      ∙ elim (Bool-cases (other == address)) [
        | inl same ↦ ground arith
        | inr apart ↦ ground (arith, kept other, h other)
      ]

  -- A handler that deposits no event and leaves the mappings alone.
  same-IsInformed :
      (s t : Storage World)
      → t.mappings ≡ s.mappings
      → t.events ≡ s.events
      → IsInformed s
      → IsInformed t
  same-IsInformed s t mappings log h address =
      ap (λ es. replay es known address) log
      ∙ h address
      ∙ ap (λ (m : ℕ → List MappingEntry). only_key (m address)) (sym mappings)

abbrev header_of : CardanoPosition → CmstHeader
header_of position = record {
  block_hash = position.block_hash;
  tx_index_in_block = position.tx_index_in_block;
}

module _ {Origin World : Type 0} (rt : Runtime Origin World) (known : Registry) where
  create_same :
      (now : ℕ) (d : CreateData) (s : Storage World)
      → ((handle_create rt now d s).1.mappings ≡ s.mappings)
        × ((handle_create rt now d s).1.events ≡ s.events)
  unfolding handle_create
  create_same now d s = ground arith

  spend_same :
      (now : ℕ) (d : SpendData) (s : Storage World)
      → ((handle_spend rt now d s).1.mappings ≡ s.mappings)
        × ((handle_spend rt now d s).1.events ≡ s.events)
  unfolding handle_spend
  spend_same now d s = ground arith

  process_utxo-IsInformed :
      (now : ℕ) (header : ObservedUtxoHeader) (payload : ObservedUtxoData) (events : List (List ℕ))
      (s : Storage World)
      → IsInformed known s
      → IsInformed known (process_utxo rt now header payload events s).1
  unfolding process_utxo
  process_utxo-IsInformed now header (registration d) events s h =
      let (_, kept, log) = handle_registration_lem header d s in
      told-IsInformed known s (handle_registration header d s) d.cardano_reward_address
        (mapping_added (registration_entry header d.cardano_reward_address d.dust_public_key))
        (λ f. refl) kept log h
  process_utxo-IsInformed now header (deregistration d) events s h =
      let (_, kept, log) = handle_registration_removal_lem header d s in
      told-IsInformed known s (handle_registration_removal header d s) d.cardano_reward_address
        (mapping_removed (registration_entry header d.cardano_reward_address d.dust_public_key))
        (λ f. refl) kept log h
  process_utxo-IsInformed now header (asset_create d) events s h =
      let (m, l) = create_same now d s in same-IsInformed known s (handle_create rt now d s).1 m l h
  process_utxo-IsInformed now header (asset_spend d) events s h =
      let (m, l) = spend_same now d s in same-IsInformed known s (handle_spend rt now d s).1 m l h

  process_utxos-IsInformed :
      (us : List ObservedUtxo) (events : List (List ℕ)) (s : Storage World)
      → IsInformed known s
      → IsInformed known (process_utxos rt us events s).1
  unfolding process_utxos
  process_utxos-IsInformed [] events s h = h
  process_utxos-IsInformed (u ∷ us) events s h =
      let now = u.header.tx_position.block_timestamp / 1000 in
      let (events', t) = process_utxo rt now u.header u.payload events s in
      process_utxos-IsInformed us events' t
        (process_utxo-IsInformed now u.header u.payload events s h)

  finish_log :
      (count : ℕ) (position : CardanoPosition) (events : List (List ℕ)) (s : Storage World)
      → let t = (finish rt count position events s).1 in
        (t.mappings ≡ s.mappings)
        × ((t.events ≡ s.events)
            ⊎ ((header : CmstHeader) × (tx_hash : ℕ) × (t.events
                  ≡ s.events ++ system_transaction_applied header tx_hash ∷ [])))
  unfolding finish
  finish_log count position events s = elim (Bool-cases (is_empty events)) [
    | inl no_events ↦ (ground arith, inl (ground arith))
    | inr some_events ↦ elim (Option-cases (rt.construct_system_tx events)) [
      | inl failed ↦ (ground arith, inl (ground arith))
      | inr (tx, built) ↦ elim (Execution-cases (rt.execute_system_transaction tx s.world).0) [
        | inl (tx_hash, ran) ↦ (ground arith, inr (header_of position, tx_hash, ground arith))
        | inr (code, refused) ↦ (ground arith, inl (ground arith))
      ]
    ]
  ]

  finish-IsInformed :
      (count : ℕ) (position : CardanoPosition) (events : List (List ℕ)) (s : Storage World)
      → IsInformed known s
      → IsInformed known (finish rt count position events s).1
  unfolding replay
  finish-IsInformed count position events s h address =
      let t = (finish rt count position events s).1 in
      let (mappings, log) = finish_log count position events s in
      elim log [
        | inl silent ↦ same-IsInformed known s t mappings silent h address
        | inr (header, tx_hash, told) ↦
            ap (λ es. replay es known address) told
            ∙ ap (λ (f : Registry). f address)
                (replay-append s.events (system_transaction_applied header tx_hash ∷ []) known)
            ∙ h address
            ∙ ap (λ (m : ℕ → List MappingEntry). only_key (m address)) (sym mappings)
      ]

  process_batch-IsInformed :
      (count : ℕ) (us : List ObservedUtxo) (position : CardanoPosition) (s : Storage World)
      → IsInformed known s
      → IsInformed known (process_batch rt count us position s).1
  unfolding process_batch
  process_batch-IsInformed count us position s h =
      let (events, t) = process_utxos rt us [] s in
      elim (Bool-cases (advances rt s.next_cardano_position position)) [
        | inr back ↦
            same-IsInformed known s (process_batch rt count us position s).1 (ground arith)
              (ground arith) h
        | inl ahead ↦
            rw (ahead, process_batch)
              (finish-IsInformed count position events t (process_utxos-IsInformed us [] s h))
      ]

  -- If an observer of the events knows the registered key of every address before a block's
  -- observations are processed, it knows them after, whatever the outcome of the call.
  pub process_tokens-IsInformed :
      (o : Origin) (us : List ObservedUtxo) (position : CardanoPosition) (s : Storage World)
      → IsInformed known s
      → IsInformed known (process_tokens rt o us position s).1
  unfolding process_tokens
  process_tokens-IsInformed o us position s h =
      let t = (process_tokens rt o us position s).1 in
      let count = length us % 4294967296 in
      let keep : t.mappings ≡ s.mappings → t.events ≡ s.events → IsInformed known t =
        λ m l. same-IsInformed known s t m l h in
      elim (Bool-cases (rt.ensure_none o)) [
        | inr signed ↦ keep (ground arith) (ground arith)
        | inl inherent ↦ elim (Bool-cases (leb count (capacity rt s))) [
          | inr many ↦ keep (ground arith) (ground arith)
          | inl few ↦ elim (Bool-cases s.inherent_executed_this_block) [
            | inl again ↦ keep (ground arith) (ground arith)
            | inr first ↦
                rw (inherent, few, first, process_tokens)
                  (process_batch-IsInformed count us position
                    (record s { inherent_executed_this_block = true }) h)
          ]
        ]
      ]
