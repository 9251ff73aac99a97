-- ===== src/Strings/Layout.antt =====
-- code/mem/common.c: strings in memory.
use hobby_kernel.Common.{ℕ, ◌+◌, ◌<◌, ◌≡◌, ◌≢◌, ◌⊎◌, inl, inr, List, [], ◌∷◌, arith, length}
use hobby_kernel.Common.Chain.{write}

-- At the address stand the characters, none of them null, and a null behind them.
abbrev pub IsString : (ℕ → ℕ) → ℕ → List ℕ → Type 0
IsString m a [] = m a ≡ 0
IsString m a (c ∷ cs) = (m a ≡ c) × (c ≢ 0) × IsString m (a + 1) cs

-- A write outside the string and its null leaves it as it is.
pub IsString-write :
    (m : ℕ → ℕ) (a : ℕ) (cs : List ℕ) (p v : ℕ)
    → (p < a) ⊎ (a + length cs < p)
    → IsString m a cs
    → IsString (write m p v) a cs
IsString-write m a [] p v h s = ground arith
IsString-write m a (c ∷ cs) p v h s =
    (ground (arith, s.0), s.1, IsString-write m (a + 1) cs p v (behind h) s.2)
  where
    behind : (p < a) ⊎ (a + length (c ∷ cs) < p) → (p < a + 1) ⊎ (a + 1 + length cs < p)
    behind (inl l) = inl (omega arith)
    behind (inr l) = inr (omega arith)
