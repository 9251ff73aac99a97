-- ===== src/Strings/Compare.antt =====
-- code/mem/common.c: `strcmp` and `strlen`.
use hobby_kernel.Common.{
  ℕ, zero, suc, ◌+◌, ◌<◌, ◌≡◌, refl, subst, Bool, true, false, ◌&&◌, arith, ◌==◌, if◌then◌else◌,
  List, [], ◌∷◌, length, ok, ◌>>=◌, Bool-cases, inl, inr,
}
use hobby_kernel.Strings.Layout.{IsString}
use hobby_kernel.Strings.{strcmp, strcmp_loop, strcmp_test, strlen, strlen_loop}

abbrev pub same : List ℕ → List ℕ → Bool
same [] [] = true
same [] (d ∷ ds) = false
same (c ∷ cs) [] = false
same (c ∷ cs) (d ∷ ds) = (c == d) && same cs ds

strlen_loop_lem :
    (fuel i a : ℕ) (m : ℕ → ℕ) (cs : List ℕ)
    → IsString m a cs
    → length cs < fuel
    → strlen_loop fuel i a m ≡ ok (i + length cs)
unfolding strlen_loop
strlen_loop_lem zero i a m cs s h = absurd (omega arith)
strlen_loop_lem (suc f) i a m [] s h = ground arith
strlen_loop_lem (suc f) i a m (c ∷ cs) s h =
    ground (arith, strlen_loop_lem f (i + 1) (a + 1) m cs s.2)

-- `strlen` of a string returns the number of its characters.
pub strlen-length :
    (fuel a : ℕ) (m : ℕ → ℕ) (cs : List ℕ)
    → IsString m a cs
    → length cs < fuel
    → strlen fuel a m ≡ ok (length cs)
unfolding strlen
strlen-length fuel a m cs s h = ground (arith, strlen_loop_lem fuel 0 a m cs s h)

-- Where the loop of `strcmp` stops, the test behind it tells the rest.
strcmp_from :
    (fuel i a b : ℕ) (m : ℕ → ℕ) (cs ds : List ℕ)
    → IsString m (a + i) cs
    → IsString m (b + i) ds
    → length cs < fuel
    → (strcmp_loop fuel i a b m >>= λ (j, failed). strcmp_test j failed a b m)
      ≡ ok (if same cs ds then 0 else 1)
unfolding strcmp_loop strcmp_test
strcmp_from zero i a b m cs ds s t h = absurd (omega arith)
strcmp_from (suc f) i a b m [] [] s t h =
    let x : (m (a + i) == 0) ≡ true = ground arith in
    let y : (m (b + i) == 0) ≡ true = ground arith in rw (x, y, x) refl
strcmp_from (suc f) i a b m [] (d ∷ ds) s t h =
    let x : (m (a + i) == 0) ≡ true = ground arith in
    let y : (m (b + i) == 0) ≡ false = ground (arith, t.0, t.1) in rw (x, y, x) refl
strcmp_from (suc f) i a b m (c ∷ cs) [] s t h =
    let x : (m (a + i) == 0) ≡ false = ground (arith, s.0, s.1) in
    let y : (m (b + i) == 0) ≡ true = ground arith in rw (x, y, x, y) refl
strcmp_from (suc f) i a b m (c ∷ cs) (d ∷ ds) s t h =
    let x : (m (a + i) == 0) ≡ false = ground (arith, s.0, s.1) in
    let y : (m (b + i) == 0) ≡ false = ground (arith, t.0, t.1) in
    let z : (m (a + i) == m (b + i)) ≡ (c == d) = ground (arith, s.0, t.0) in
    elim (Bool-cases (c == d)) [
      | inl e ↦
          rw (x, y, z, e)
            (strcmp_from f (i + 1) a b m cs ds (subst (λ p. IsString m p cs) (omega arith) s.2)
              (subst (λ p. IsString m p ds) (omega arith) t.2) (omega arith))
      | inr n ↦ rw (x, y, z, n) (rw (x, y) refl)
    ]

-- `strcmp` of two strings returns 0 if they are the same, and 1 if not.
pub strcmp-same :
    (fuel a b : ℕ) (m : ℕ → ℕ) (cs ds : List ℕ)
    → IsString m a cs
    → IsString m b ds
    → length cs < fuel
    → strcmp fuel a b m ≡ ok (if same cs ds then 0 else 1)
unfolding strcmp
strcmp-same fuel a b m cs ds s t h =
    strcmp_from fuel 0 a b m cs ds (subst (λ x. IsString m x cs) (omega arith) s)
      (subst (λ x. IsString m x ds) (omega arith) t) h
