-- ===== src/SystemParameters/History.antt =====
-- Sequences of the calls of pallets/system-parameters/src/lib.rs: an observer of their events, and the
-- terms and conditions that are stored.
use midnight_node.Prelude.{
  ℕ, ◌≤◌, ◌≡◌, ◌≢◌, ◌↔◌, refl, Bool, true, false, Option, some, none, List, [], ◌∷◌, ◌++◌, leb,
  length, arith,
}
use midnight_node.SystemParameters.{
  TermsAndConditions, Event, terms_and_conditions_updated, d_parameter_updated, Storage, ok,
  max_url_size, GenesisConfig, build, update_terms_and_conditions, update_d_parameter,
  get_terms_and_conditions, get_d_parameter,
}

-- What an observer knows: the terms and the D-parameter.
abbrev pub Known : Type 0
Known = Option TermsAndConditions × ℕ × ℕ

abbrev learn : Event → Known → Known
learn (terms_and_conditions_updated h u) (t, d, d') = (some (record { hash = h; url = u }), d, d')
learn (d_parameter_updated p r) (t, d, d') = (t, p, r)

unfoldable pub replay : Known → List Event → Known
replay known [] = known
replay known (e ∷ es) = replay (learn e known) es

replay-append :
    (known : Known) (es : List Event) (e : Event)
    → replay known (es ++ e ∷ []) ≡ learn e (replay known es)
unfolding replay
replay-append known [] e = refl
replay-append known (x ∷ es) e = replay-append (learn x known) es e

abbrev pub IsInformed : Known → Storage → Type 0
IsInformed known s =
    replay known s.events
    ≡ (get_terms_and_conditions s, (get_d_parameter s).0, (get_d_parameter s).1)

-- Terms and conditions are stored, with a URL within the bound.
abbrev bounded_terms : Option TermsAndConditions → Bool
bounded_terms none = false
bounded_terms (some t) = leb (length t.url) max_url_size

abbrev pub HasTerms : Storage → Type 0
HasTerms s = bounded_terms (get_terms_and_conditions s) ≡ true

pub data Call (Origin : Type 0) : Type 0 where
  terms : Origin → ℕ → List ℕ → Call Origin
  d_parameter : Origin → ℕ → ℕ → Call Origin

module _ {Origin : Type 0} (ensure_origin : Origin → Bool) where
  unfoldable pub run : List (Call Origin) → Storage → Storage
  run [] s = s
  run (terms o hash url ∷ cs) s = run cs (update_terms_and_conditions ensure_origin o hash url s).1
  run (d_parameter o p r ∷ cs) s = run cs (update_d_parameter ensure_origin o p r s).1

  -- `update_terms_and_conditions` succeeds exactly if the origin passes and the URL has at most 256
  -- bytes; then the terms are the given ones, and otherwise nothing changes.
  update_terms_and_conditions_iff :
      (o : Origin) (hash : ℕ) (url : List ℕ) (s : Storage)
      → let (result, t) = update_terms_and_conditions ensure_origin o hash url s in
        ((result ≡ ok) ↔ ((ensure_origin o ≡ true) × (length url ≤ max_url_size)))
        × (result ≡ ok → get_terms_and_conditions t ≡ some (record { hash = hash; url = url }))
        × (result ≢ ok → t ≡ s)
  unfolding update_terms_and_conditions
  update_terms_and_conditions_iff o hash url s = ground arith

  update_terms_and_conditions-IsInformed :
      (known : Known) (o : Origin) (hash : ℕ) (url : List ℕ) (s : Storage)
      → IsInformed known s
      → IsInformed known (update_terms_and_conditions ensure_origin o hash url s).1
  unfolding update_terms_and_conditions
  update_terms_and_conditions-IsInformed known o hash url s h =
      ground (arith, replay-append known s.events (terms_and_conditions_updated hash url), h)

  update_d_parameter-IsInformed :
      (known : Known) (o : Origin) (p r : ℕ) (s : Storage)
      → IsInformed known s
      → IsInformed known (update_d_parameter ensure_origin o p r s).1
  unfolding update_d_parameter
  update_d_parameter-IsInformed known o p r s h =
      ground (arith, replay-append known s.events (d_parameter_updated p r), h)

  -- After any calls, the getters return what an observer has learnt from the events.
  pub run-IsInformed :
      (known : Known) (cs : List (Call Origin)) (s : Storage)
      → IsInformed known s
      → IsInformed known (run cs s)
  unfolding run
  run-IsInformed known [] s h = h
  run-IsInformed known (terms o hash url ∷ cs) s h =
      run-IsInformed known cs (update_terms_and_conditions ensure_origin o hash url s).1
        (update_terms_and_conditions-IsInformed known o hash url s h)
  run-IsInformed known (d_parameter o p r ∷ cs) s h =
      run-IsInformed known cs (update_d_parameter ensure_origin o p r s).1
        (update_d_parameter-IsInformed known o p r s h)

  update_terms_and_conditions-HasTerms :
      (o : Origin) (hash : ℕ) (url : List ℕ) (s : Storage)
      → HasTerms s
      → HasTerms (update_terms_and_conditions ensure_origin o hash url s).1
  unfolding update_terms_and_conditions
  update_terms_and_conditions-HasTerms o hash url s h = ground arith

  update_d_parameter-HasTerms :
      (o : Origin) (p r : ℕ) (s : Storage)
      → HasTerms s
      → HasTerms (update_d_parameter ensure_origin o p r s).1
  unfolding update_d_parameter
  update_d_parameter-HasTerms o p r s h = ground arith

  run-HasTerms : (cs : List (Call Origin)) (s : Storage) → HasTerms s → HasTerms (run cs s)
  unfolding run
  run-HasTerms [] s h = h
  run-HasTerms (terms o hash url ∷ cs) s h =
      run-HasTerms cs (update_terms_and_conditions ensure_origin o hash url s).1
        (update_terms_and_conditions-HasTerms o hash url s h)
  run-HasTerms (d_parameter o p r ∷ cs) s h =
      run-HasTerms cs (update_d_parameter ensure_origin o p r s).1
        (update_d_parameter-HasTerms o p r s h)

  -- Where the genesis does not panic, terms and conditions with a URL of at most 256 bytes are stored
  -- after any calls.
  pub build-HasTerms :
      (g : GenesisConfig) (s t : Storage) (cs : List (Call Origin))
      → build g s ≡ some t
      → HasTerms (run cs t)
  unfolding build
  build-HasTerms g s t cs h = run-HasTerms cs t (ground arith)
