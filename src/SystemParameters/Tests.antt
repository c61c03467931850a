-- ===== src/SystemParameters/Tests.antt =====
-- An origin that is a flag, and the theorems at concrete calls.
use midnight_node.Prelude.{◌≡◌, refl, Bool, true, some, none, List, [], ◌∷◌}
use midnight_node.SystemParameters.{
  Storage, GenesisConfig, build, update_terms_and_conditions, update_d_parameter,
}
use midnight_node.SystemParameters.History.{
  Call, terms, d_parameter, run, IsInformed, HasTerms, run-IsInformed, build-HasTerms, replay,
}

abbrev empty : Storage
empty = record { terms_and_conditions = none; d_parameter = (0, 0); events = [] }

abbrev genesis : GenesisConfig
genesis = record {
  hash = some 17;
  url = some (104 ∷ 116 ∷ []);
  num_permissioned_candidates = some 10;
  num_registered_candidates = none;
}

abbrev started : Storage
started = record empty { terms_and_conditions = some (record { hash = 17; url = 104 ∷ 116 ∷ [] }) }

abbrev calls : List (Call Bool)
calls = terms true 18 (105 ∷ []) ∷ d_parameter true 4 2 ∷ terms Bool.false 19 [] ∷ []

calls_state : run (λ o. o) calls started ≡ record {
  terms_and_conditions = some (record { hash = 18; url = 105 ∷ [] });
  d_parameter = (4, 2);
  events = (run (λ o. o) calls started).events;
}
unfolding run update_terms_and_conditions update_d_parameter
calls_state = refl

run-IsInformed_example :
    IsInformed
      (some (record { hash = 17; url = 104 ∷ 116 ∷ [] }), 0, 0)
      (run (λ o. o) calls started)
unfolding replay
run-IsInformed_example =
    run-IsInformed (λ o. o) (some (record { hash = 17; url = 104 ∷ 116 ∷ [] }), 0, 0) calls started
      refl

build-HasTerms_example : HasTerms (run (λ o. o) calls started)
unfolding build
build-HasTerms_example = build-HasTerms (λ o. o) genesis empty started calls refl
