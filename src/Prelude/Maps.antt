-- ===== src/Prelude/Maps.antt =====
-- Storage maps, as functions from the key. `put` is the write of one key.
use Prim.Native.Nat.{ℕ}
use mathlib.Core.Path.{◌≡◌, fun_ext}
use mathlib.Core.Logic.{◌≢◌}
use native.Mathlib.Omega.{arith}
use midnight_node.Prelude.Tests.{◌==◌, if◌then◌else◌}

module _ {ℓ} {V : Type ℓ} where
  abbrev pub put : ℕ → V → (ℕ → V) → ℕ → V
  put k v m j = if j == k then v else m j

  pub put_self : (k : ℕ) (v : V) (m : ℕ → V) → put k v m k ≡ v
  put_self k v m = ground arith

  pub put_ne : (k j : ℕ) (v : V) (m : ℕ → V) → j ≢ k → put k v m j ≡ m j
  put_ne k j v m h = ground arith

  -- The second of two writes at one key counts.
  pub put-put : (k : ℕ) (v w : V) (m : ℕ → V) → put k v (put k w m) ≡ put k v m
  put-put k v w m = fun_ext (λ j. ground arith)
