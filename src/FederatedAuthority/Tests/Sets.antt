-- ===== src/FederatedAuthority/Tests/Sets.antt =====
-- Sets of at most two authority ids. `two a d` holds `a` and `a + d + 1`.
use midnight_node.Prelude.{
  ℕ, ◌+◌, ◌-◌, ◌≤◌, ◌≡◌, ◌≢◌, refl, Bool, true, false, ◌||◌, arith, ltb, ◌==◌, if◌then◌else◌,
}
use midnight_node.FederatedAuthority.Types.{Insertion, inserted, present, full, BoundedSet}

pub data Pair : Type 0 where
  nobody : Pair
  one : ℕ → Pair
  two : ℕ → ℕ → Pair

abbrev pub len : Pair → ℕ
len nobody = 0
len (one a) = 1
len (two a d) = 2

abbrev pub contains : ℕ → Pair → Bool
contains x nobody = false
contains x (one a) = x == a
contains x (two a d) = x == a || x == a + d + 1

abbrev pub join : ℕ → ℕ → Pair
join x a = if ltb x a then two x (a - x - 1) else two a (x - a - 1)

abbrev pub try_insert : ℕ → Pair → Insertion Pair
try_insert x nobody = inserted (one x)
try_insert x (one a) = if x == a then present else inserted (join x a)
try_insert x (two a d) = if x == a || x == a + d + 1 then present else full

abbrev pub remove : ℕ → Pair → Bool × Pair
remove x nobody = (false, nobody)
remove x (one a) = if x == a then (true, nobody) else (false, one a)
remove x (two a d) =
    if x == a
    then (true, one (a + d + 1))
    else if x == a + d + 1
    then (true, one a)
    else (false, two a d)

module _ (a : ℕ) where
  pub inserted-len : (s : Pair) {t : Pair} → try_insert a s ≡ inserted t → len t ≡ len s + 1
  inserted-len nobody e = ground arith
  inserted-len (one b) e = ground arith
  inserted-len (two b d) e = ground arith

  pub inserted-le : (s : Pair) {t : Pair} → try_insert a s ≡ inserted t → len t ≤ 2
  inserted-le nobody e = ground arith
  inserted-le (one b) e = ground arith
  inserted-le (two b d) e = ground arith

  pub inserted_self : (s : Pair) {t : Pair} → try_insert a s ≡ inserted t → contains a t ≡ true
  inserted_self nobody e = ground arith
  inserted_self (one b) e = ground arith
  inserted_self (two b d) e = ground arith

  pub inserted_ne :
      (b : ℕ) (s : Pair) {t : Pair}
      → try_insert a s ≡ inserted t
      → b ≢ a
      → contains b t ≡ contains b s
  inserted_ne b nobody e ne = ground arith
  inserted_ne b (one c) e ne = ground arith
  inserted_ne b (two c d) e ne = ground arith

  pub inserted_new : (s : Pair) {t : Pair} → try_insert a s ≡ inserted t → contains a s ≡ false
  inserted_new nobody e = ground arith
  inserted_new (one b) e = ground arith
  inserted_new (two b d) e = ground arith

  pub present-contains : (s : Pair) → try_insert a s ≡ present → contains a s ≡ true
  present-contains nobody e = ground arith
  present-contains (one b) e = ground arith
  present-contains (two b d) e = ground arith

  pub full_new : (s : Pair) → try_insert a s ≡ full → contains a s ≡ false
  full_new nobody e = ground arith
  full_new (one b) e = ground arith
  full_new (two b d) e = ground arith

  pub full-le : (s : Pair) → try_insert a s ≡ full → 2 ≤ len s
  full-le nobody e = ground arith
  full-le (one b) e = ground arith
  full-le (two b d) e = ground arith

  pub removed-contains : (s : Pair) → (remove a s).0 ≡ contains a s
  removed-contains nobody = ground arith
  removed-contains (one b) = ground arith
  removed-contains (two b d) = ground arith

  pub removed-len : (s : Pair) → contains a s ≡ true → len (remove a s).1 + 1 ≡ len s
  removed-len nobody e = ground arith
  removed-len (one b) e = ground arith
  removed-len (two b d) e = ground arith

  pub removed_self : (s : Pair) → contains a (remove a s).1 ≡ false
  removed_self nobody = ground arith
  removed_self (one b) = ground arith
  removed_self (two b d) = ground arith

  pub removed_ne : (b : ℕ) (s : Pair) → b ≢ a → contains b (remove a s).1 ≡ contains b s
  removed_ne b nobody ne = ground arith
  removed_ne b (one c) ne = ground arith
  removed_ne b (two c d) ne = ground arith

pub len_zero : (s : Pair) → ((a : ℕ) → contains a s ≡ false) → len s ≡ 0
len_zero nobody none_in = refl
len_zero (one a) none_in = ground (arith, none_in a)
len_zero (two a d) none_in = ground (arith, none_in a)

abbrev pub pair_sets : BoundedSet Pair
pair_sets = record {
  empty = nobody;
  len = len;
  contains = contains;
  try_insert = try_insert;
  remove = remove;
  bound = 2;
  len-empty = omega arith;
  len_zero = len_zero;
  contains-empty = λ a. ground arith;
  inserted-len = inserted-len;
  inserted-le = inserted-le;
  inserted_self = inserted_self;
  inserted_ne = inserted_ne;
  inserted_new = inserted_new;
  present-contains = present-contains;
  full_new = full_new;
  full-le = full-le;
  removed-contains = removed-contains;
  removed-len = removed-len;
  removed_self = removed_self;
  removed_ne = removed_ne;
}
