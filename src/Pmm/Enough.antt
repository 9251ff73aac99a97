-- ===== src/Pmm/Enough.antt =====
-- code/mem/pmm.c: a stock of free pages, which a panic for lack of memory would need to be empty.
use hobby_kernel.Common.{ℕ, ◌<◌, ◌≤◌, ◌≡◌, arith, false, List, [], ◌∷◌, Returns, Returns-mono}
use hobby_kernel.Pmm.{Pmm, alloc_page}
use hobby_kernel.Pmm.Bits.{taken}
use hobby_kernel.Pmm.Invariant.{Inv, Allocates, alloc_page-Allocates}

-- The indices, all above `lo` and in ascending order, are free.
abbrev pub Free : ℕ → List ℕ → Pmm → Type 0
Free lo [] p = Unit
Free lo (x ∷ xs) p = (lo < x) × (x < p.last_available) × (taken p x ≡ false) × Free x xs p

-- The allocator works and has a page for each index of the list.
pub record Stock (xs : List ℕ) (p : Pmm) : Type 0 where
  pub inv : Inv p
  pub free : Free 0 xs p

Free-lower : (lo lo' : ℕ) (xs : List ℕ) (p : Pmm) → lo' ≤ lo → Free lo xs p → Free lo' xs p
Free-lower lo lo' [] p h f = tt
Free-lower lo lo' (x ∷ xs) p h f = (omega (arith, f.0, h), f.1, f.2, f.3)

pub Stock-drop : (x : ℕ) (xs : List ℕ) (p : Pmm) → Stock (x ∷ xs) p → Stock xs p
Stock-drop x xs p s = record { inv = s.inv; free = Free-lower x 0 xs p (omega arith) s.free.3 }

Free-Allocates :
    (p : Pmm) (r : ℕ × Pmm) (lo : ℕ) (xs : List ℕ)
    → Allocates p r
    → p.first_free ≤ lo
    → Free lo xs p
    → Free lo xs r.1
Free-Allocates p r lo [] a h f = tt
Free-Allocates p r lo (x ∷ xs) a h f = (
  f.0,
  omega (arith, f.1, a.same_end),
  ground (arith, a.marks x, f.0, f.2, h),
  Free-Allocates p r x xs a (omega (arith, f.0, h)) f.3,
)

-- With a page left `pmm_alloc_page` does not panic, and takes one page of the stock.
pub alloc_page-Stock :
    (x : ℕ) (xs : List ℕ) (p : Pmm) → Stock (x ∷ xs) p → Returns (λ r. Stock xs r.1) (alloc_page p)
alloc_page-Stock x xs p s =
    let low : p.first_free ≤ x = ground (arith, s.free.0, s.free.2, s.inv.lowest x) in
    Returns-mono (Allocates p) (λ r. Stock xs r.1) (alloc_page p)
      (alloc_page-Allocates p s.inv (omega (arith, low, s.free.1)))
      λ r a. record {
        inv = a.inv;
        free = Free-lower x 0 xs r.1 (omega arith) (Free-Allocates p r x xs a low s.free.3);
      }
