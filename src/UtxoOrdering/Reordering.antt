-- ===== src/UtxoOrdering/Reordering.antt =====
-- What `reorder` makes of a list of UTXOs.
use mathlib.Core.List.{Perm, append-nil, append_assoc}
use mathlib.Core.List.Perm
use midnight_node.Prelude.{
  ℕ, suc, ◌+◌, ◌≡◌, ◌≢◌, refl, sym, ap, ap₂, true, none, some, List, [], ◌∷◌, ◌++◌, map,
  if◌then◌else◌, length, arith, ◌∙◌, ◌≤◌, eq→==,
}
use midnight_node.Midnight.Types.{UtxoInfo}
use midnight_node.UtxoOrdering.{Key, key_of, key_eq, take_key, reorder_loop, reorder}
use midnight_node.UtxoOrdering.Removing.{count_key, IsTaken, take_key-IsTaken, take_key-absent}

-- How often a key is expected.
unfoldable pub count_expected : Key → List Key → ℕ
count_expected k [] = 0
count_expected k (k' ∷ ks) = if key_eq k' k then suc (count_expected k ks) else count_expected k ks

count_none : (k : Key) → count_expected k [] ≡ 0
unfolding count_expected
count_none k = refl

key_eq_refl : (k : Key) → key_eq k k ≡ true
key_eq_refl k = ground arith

-- What is expected after a key was found, and the key with it.
count_expected-cons :
    (k k' : Key) (ks : List Key) (u : UtxoInfo) (rest us : List UtxoInfo)
    → key_of u ≡ k
    → IsTaken u rest us
    → count_key k' rest + count_expected k' (k ∷ ks) ≡ count_key k' us + count_expected k' ks
unfolding count_expected count_key
count_expected-cons k k' ks u rest us same taken = rw (← same) (ground (arith, taken.counted k'))

count_expected-pos : (k : Key) (ks : List Key) → count_expected k (k ∷ ks) ≢ 0
unfolding count_expected
count_expected-pos k ks h = ground (arith, key_eq_refl k)

count_key-zero : (us : List UtxoInfo) → ((k : Key) → count_key k us ≡ 0) → us ≡ []
unfolding count_key
count_key-zero [] h = refl
count_key-zero (u ∷ us) h = ground (arith, h (key_of u), key_eq_refl (key_of u))

reorder_loop-found :
    (k : Key) (ks : List Key) (us out : List UtxoInfo) (u : UtxoInfo) (rest : List UtxoInfo)
    → take_key k us ≡ some (u, rest)
    → reorder_loop (k ∷ ks) us out ≡ reorder_loop ks rest (out ++ u ∷ [])
unfolding reorder_loop
reorder_loop-found k ks us out u rest h = ground (arith, h)

reorder_loop-missing :
    (k : Key) (ks : List Key) (us out : List UtxoInfo)
    → take_key k us ≡ none
    → reorder_loop (k ∷ ks) us out ≡ us
unfolding reorder_loop
reorder_loop-missing k ks us out h = ground (arith, h)

reorder_loop_nil : (us out : List UtxoInfo) → reorder_loop [] us out ≡ out
unfolding reorder_loop
reorder_loop_nil us out = refl

reorder_loop_lem :
    (ks : List Key) (us out : List UtxoInfo)
    → ((k : Key) → count_key k us ≡ count_expected k ks)
    → (done : List UtxoInfo) × (reorder_loop ks us out ≡ out ++ done)
      × (map key_of done ≡ ks)
      × Perm done us
      × (length us ≡ length ks)
reorder_loop_lem [] us out h =
    let e = count_key-zero us (λ k. h k ∙ count_none k) in
    ([], reorder_loop_nil us out ∙ sym (append-nil out), refl, rw e (Perm.refl []), ap length e)
reorder_loop_lem (k ∷ ks) us out h =
    let (u, rest, taken, same, is_taken) =
      take_key-IsTaken k us (λ z. count_expected-pos k ks (sym (h k) ∙ z)) in
    let (done, run, keys, perm, long) =
      reorder_loop_lem ks rest (out ++ u ∷ [])
        (λ k'. omega (arith, h k', count_expected-cons k k' ks u rest us same is_taken)) in
    (
      u ∷ done,
      reorder_loop-found k ks us out u rest taken ∙ run ∙ append_assoc out (u ∷ []) done,
      ap₂ (λ x xs. x ∷ xs) same keys,
      Perm.trans (Perm.cons u perm) is_taken.perm,
      omega (arith, is_taken.fewer, long),
    )

-- Where the expected keys are those of the UTXOs in some order, `reorder` gives the same UTXOs in the
-- order of the expected keys.
pub reorder-expected :
    (us : List UtxoInfo) (ks : List Key)
    → ((k : Key) → count_key k us ≡ count_expected k ks)
    → (map key_of (reorder us ks) ≡ ks) × Perm (reorder us ks) us
unfolding reorder
reorder-expected us [] h =
    let e = count_key-zero us (λ k. h k ∙ count_none k) in (rw e refl, Perm.refl us)
reorder-expected us (k ∷ ks) h =
    let (done, run, keys, perm, long) = reorder_loop_lem (k ∷ ks) us [] h in
    let same = eq→== (length us) (length (k ∷ ks)) long in rw (same, run) (keys, perm)

reorder_loop-stale :
    (pre : List Key) (k : Key) (post : List Key) (us out : List UtxoInfo)
    → ((k' : Key) → count_expected k' pre ≤ count_key k' us)
    → count_key k us ≡ count_expected k pre
    → length (reorder_loop (pre ++ k ∷ post) us out) + length pre ≡ length us
reorder_loop-stale [] k post us out h gone = omega (
  arith,
  ap (length {0}) (reorder_loop-missing k post us out (take_key-absent k us (gone ∙ count_none k))),
)
reorder_loop-stale (k' ∷ pre) k post us out h gone =
    let (u, rest, taken, same, is_taken) =
      take_key-IsTaken k' us (λ z. omega (arith, h k', count_expected-pos k' pre)) in
    let step = λ (j : Key). count_expected-cons k' j pre u rest us same is_taken in
    let shorter =
      reorder_loop-stale pre k post rest (out ++ u ∷ []) (λ j. omega (arith, h j, step j))
        (omega (arith, gone, step k)) in
    omega (
      arith,
      shorter,
      is_taken.fewer,
      ap (length {0}) (reorder_loop-found k' (pre ++ k ∷ post) us out u rest taken),
    )

expected-reordered :
    (pre : List Key) (k : Key) (post : List Key) (us : List UtxoInfo)
    → length us ≡ length (pre ++ k ∷ post)
    → reorder us (pre ++ k ∷ post) ≡ reorder_loop (pre ++ k ∷ post) us []
unfolding reorder
expected-reordered [] k post us h = rw (eq→== (length us) (length (k ∷ post)) h) refl
expected-reordered (k' ∷ pre) k post us h =
    rw (eq→== (length us) (length (k' ∷ pre ++ k ∷ post)) h) refl

-- Where the expected keys go with a UTXO each up to one that is not found, `reorder` does not leave
-- the UTXOs alone: it loses as many of them as it found before.
pub reorder-stale :
    (pre : List Key) (k : Key) (post : List Key) (us : List UtxoInfo)
    → length us ≡ length (pre ++ k ∷ post)
    → ((k' : Key) → count_expected k' pre ≤ count_key k' us)
    → count_key k us ≡ count_expected k pre
    → length (reorder us (pre ++ k ∷ post)) + length pre ≡ length us
reorder-stale pre k post us long h gone =
    rw (expected-reordered pre k post us long) (reorder_loop-stale pre k post us [] h gone)
