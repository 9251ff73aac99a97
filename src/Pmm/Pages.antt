-- ===== src/Pmm/Pages.antt =====
-- code/mem/pmm.c: a page that is handed out is not one of those in use.
use hobby_kernel.Common.{
  ℕ, ◌+◌, ◌*◌, ◌%◌, ◌^◌, ◌≤◌, ◌<◌, ◌≡◌, ◌≢◌, ◌∙◌, ap, true, arith, Safely, Safely-Returns,
}
use hobby_kernel.Pmm.{Pmm, alloc_page}
use hobby_kernel.Pmm.Bits.{taken}
use hobby_kernel.Pmm.Invariant.{Inv, Allocates, alloc_page-Allocates, alloc_page-full}
use native.Mathlib.Decide.{ℕ_discrete}

-- The bitmap begins at the page `base`, and the pages that it stands for lie in the address space.
pub record Layout (base : ℕ) (p : Pmm) : Type 0 where
  pub inv : Inv p
  pub bitmap : p.bitmap ≡ base * 0x1000
  pub end : base + p.last_available ≤ 2 ^ 20

-- The allocator will not hand out page `n`: its bit is set, or it has none.
abbrev pub InUse : (base : ℕ) → Pmm → ℕ → Type 0
InUse base p n = (i : ℕ) → n ≡ base + i → i < p.last_available → taken p i ≡ true

-- A call of `pmm_alloc_page` that returns a page that was not in use, and is now.
pub record Fresh (base : ℕ) (p : Pmm) (r : ℕ × Pmm) : Type 0 where
  pub page : ℕ
  pub address : r.0 ≡ page * 0x1000
  pub new : (n : ℕ) → InUse base p n → n ≢ page
  pub used : InUse base r.1 page
  pub keeps : (n : ℕ) → InUse base p n → InUse base r.1 n
  pub layout : Layout base r.1

module _ (base : ℕ) (p : Pmm) (l : Layout base p) (more : p.first_free ≢ p.last_available) where
  Allocates-Fresh : (r : ℕ × Pmm) → Allocates p r → Fresh base p r
  Allocates-Fresh r a = record {
    page = base + p.first_free;
    address =
        a.address
        ∙ ap (λ b. (b + p.first_free * 0x1000) % 2 ^ 32) l.bitmap
        ∙ omega (arith, l.inv.bounded, l.end);
    new = λ n u e. ground (arith, u p.first_free e (omega (arith, l.inv.bounded)), a.was_free);
    used = λ i e lt. ground (arith, a.marks i);
    keeps = λ n u i e lt. ground (arith, a.marks i, u i e (omega (arith, lt, a.same_end)));
    layout = record {
      inv = a.inv;
      bitmap = a.same_bitmap ∙ l.bitmap;
      end = omega (arith, l.end, a.same_end);
    };
  }

-- Unless no page is left, when it panics, `pmm_alloc_page` returns the address of a page that was
-- not in use, and keeps all pages in use.
pub alloc_page-Fresh : (base : ℕ) (p : Pmm) → Layout base p → Safely (Fresh base p) (alloc_page p)
alloc_page-Fresh base p l = elim (ℕ_discrete p.first_free p.last_available) [
  | yes full ↦ rw (alloc_page-full p l.inv full).0 tt
  | no more ↦
      Safely-Returns (Allocates p) (Fresh base p) (alloc_page p) (alloc_page-Allocates p l.inv more)
        (Allocates-Fresh base p l more)
]
