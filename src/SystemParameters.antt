-- ===== src/SystemParameters.antt =====
-- The system parameters pallet: pallets/system-parameters/src/lib.rs. A hash is a number and a
-- text is its bytes; a D-parameter is the pair of its two 16-bit counts. The origin check
-- `SystemOrigin` is a parameter.
pub mod History
mod Tests
use midnight_node.Prelude.{
  ℕ, Bool, Option, some, none, List, [], ◌∷◌, ◌++◌, if◌then◌else◌, leb, length,
}

-- `MAX_URL_SIZE`.
abbrev pub max_url_size : ℕ
max_url_size = 256

pub record TermsAndConditions : Type 0 where
  pub hash : ℕ
  pub url : List ℕ

pub data Event : Type 0 where
  terms_and_conditions_updated : ℕ → List ℕ → Event
  d_parameter_updated : ℕ → ℕ → Event

pub data Error : Type 0 where
  url_too_long : Error
  -- An error of `SystemOrigin::ensure_origin`.
  bad_origin : Error

pub data Result : Type 0 where
  ok : Result
  err : Error → Result

pub record Storage : Type 0 where
  pub terms_and_conditions : Option TermsAndConditions
  pub d_parameter : ℕ × ℕ
  pub events : List Event

abbrev deposit : Event → Storage → Storage
deposit e s = record s { events = s.events ++ e ∷ [] }

-- `try_into` of a vector into `BoundedVec<u8, MAX_URL_SIZE>`.
abbrev pub bounded_url : List ℕ → Option (List ℕ)
bounded_url url = if leb (length url) max_url_size then some url else none

abbrev pub store_terms : ℕ → Option (List ℕ) → Storage → Result × Storage
store_terms hash none s = (err url_too_long, s)
store_terms hash (some url) s =
    let stored = record s { terms_and_conditions = some (record { hash = hash; url = url }) } in
    (ok, deposit (terms_and_conditions_updated hash url) stored)

module _ {Origin : Type 0} (ensure_origin : Origin → Bool) where
  unfoldable pub update_terms_and_conditions : Origin → ℕ → List ℕ → Storage → Result × Storage
  update_terms_and_conditions origin hash url s =
      if ensure_origin origin then store_terms hash (bounded_url url) s else (err bad_origin, s)

  unfoldable pub update_d_parameter : Origin → ℕ → ℕ → Storage → Result × Storage
  update_d_parameter origin num_permissioned num_registered s =
      if ensure_origin origin
      then (
        ok,
        deposit (d_parameter_updated num_permissioned num_registered)
            (record s { d_parameter = (num_permissioned, num_registered) }),
      )
      else (err bad_origin, s)

abbrev pub get_terms_and_conditions : Storage → Option TermsAndConditions
get_terms_and_conditions s = s.terms_and_conditions

abbrev pub get_d_parameter : Storage → ℕ × ℕ
get_d_parameter s = s.d_parameter

pub record GenesisConfig : Type 0 where
  pub hash : Option ℕ
  pub url : Option (List ℕ)
  pub num_permissioned_candidates : Option ℕ
  pub num_registered_candidates : Option ℕ

abbrev build_terms : Option ℕ → Option (List ℕ) → Storage → Option Storage
build_terms none url s = none
build_terms (some hash) none s = none
build_terms (some hash) (some url) s =
    if leb (length url) max_url_size
    then some (record s { terms_and_conditions = some (record { hash = hash; url = url }) })
    else none

abbrev build_d_parameter : Option ℕ → Option ℕ → Storage → Storage
build_d_parameter none registered s = s
build_d_parameter (some permissioned) none s = s
build_d_parameter (some permissioned) (some registered) s = record s {
  d_parameter = (permissioned, registered);
}

infixl 5 ◌>>=◌
abbrev ◌>>=◌ : {A B : Type 0} → Option A → (A → Option B) → Option B
none >>= f = none
some a >>= f = f a

-- The genesis build; `none` is the panic of an `expect`.
unfoldable pub build : GenesisConfig → Storage → Option Storage
build g s = do
  stored ← build_terms g.hash g.url s
  some (build_d_parameter g.num_permissioned_candidates g.num_registered_candidates stored)
