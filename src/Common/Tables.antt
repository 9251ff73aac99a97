-- ===== src/Common/Tables.antt =====
-- Facts about bit operations on bytes, from a check of every value.
use Prim.Native.Nat.{ℕ, zero, suc, ◌<◌}
use mathlib.Core.Path.{◌≡◌}
use mathlib.Core.Bool.{Bool, true, ◌&&◌}
use native.Mathlib.Omega.{arith}

-- `p` holds of each number below the bound.
unfoldable pub holds_below : ℕ → (ℕ → Bool) → Bool
holds_below zero p = true
holds_below (suc n) p = p n && holds_below n p

pub holds_below_lem : (n : ℕ) (p : ℕ → Bool) (x : ℕ) → x < n → holds_below n p ≡ true → p x ≡ true
unfolding holds_below
holds_below_lem zero p x lt h = absurd (omega arith)
holds_below_lem (suc n) p x lt h = ground (arith, holds_below_lem n p x)

-- The same for three numbers, each below its own bound.
pub holds_below_cube :
    (n m k : ℕ) (p : ℕ → ℕ → ℕ → Bool) (x y z : ℕ)
    → x < n
    → y < m
    → z < k
    → holds_below n (λ a. holds_below m λ b. holds_below k (p a b)) ≡ true
    → p x y z ≡ true
holds_below_cube n m k p x y z hx hy hz h = holds_below_lem k (p x y) z hz (
    holds_below_lem m (λ b. holds_below k (p x b)) y hy
      (holds_below_lem n (λ a. holds_below m λ b. holds_below k (p a b)) x hx h))
