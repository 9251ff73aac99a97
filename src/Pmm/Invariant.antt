-- ===== src/Pmm/Invariant.antt =====
-- code/mem/pmm.c: the invariant of the bitmap allocator, and what its two operations do.
use hobby_kernel.Common.{
  ℕ, zero, suc, ◌+◌, ◌-◌, ◌*◌, ◌/◌, ◌%◌, ◌^◌, ◌≤◌, ◌<◌, min, ◌≡◌, ◌≢◌, refl, ◌∙◌, inl, inr, true,
  false, arith, ◌==◌, if◌then◌else◌, Bool-cases, ok, halt, ◌>>=◌, Returns, Returns-mono,
  Returns->>=, Safely, Safely-Returns,
}
use hobby_kernel.Pmm.{
  Pmm, set_bit, clear_bit, get_bit, next_free, alloc_paged, alloc_page, free_page, mem_unit_size,
}
use hobby_kernel.Pmm.Bits.{
  taken, HasBytes, taken-set_bit, taken-clear_bit, set_bit-HasBytes, clear_bit-HasBytes,
  set_bit_frame, taken_same_bytes,
}
use native.Mathlib.Decide.{ℕ_discrete}

-- `first_free` is the lowest free index (index 0 is never looked at), or the end of the bitmap.
pub record Inv (p : Pmm) : Type 0 where
  pub active : p.paging_active ≡ true
  pub bounded : p.first_free ≤ p.last_available
  pub has_bytes : HasBytes p
  pub lowest : (j : ℕ) → 0 < j → j < p.first_free → taken p j ≡ true
  pub free : p.first_free < p.last_available → taken p p.first_free ≡ false

-- `first'` is where the loop that leaves `first` stops.
pub record Stops (p : Pmm) (first : ℕ) (first' : ℕ) : Type 0 where
  pub forward : first ≤ first'
  pub moved : first < p.last_available → first < first'
  pub bounded : first' ≤ p.last_available
  pub passed : (j : ℕ) → first < j → j < first' → taken p j ≡ true
  pub free : first' < p.last_available → taken p first' ≡ false

module _ (p : Pmm) (first : ℕ) (le : first ≤ p.last_available) where
  Stops-end : (first == p.last_available) ≡ true → Stops p first first
  Stops-end e = record {
    forward = omega arith;
    moved = λ h. absurd (ground arith);
    bounded = le;
    passed = λ j lo hi. absurd (omega arith);
    free = λ h. absurd (ground arith);
  }

  Stops-hit :
      (first == p.last_available) ≡ false
      → (get_bit (first + 1) p == 0) ≡ true
      → Stops p first (first + 1)
  Stops-hit e z = record {
    forward = omega arith;
    moved = λ h. omega arith;
    bounded = ground arith;
    passed = λ j lo hi. absurd (omega arith);
    free = λ h. ground arith;
  }

  Stops-more :
      (get_bit (first + 1) p == 0) ≡ false → (r : ℕ) → Stops p (first + 1) r → Stops p first r
  Stops-more z r s = record {
    forward = omega (arith, s.forward);
    moved = λ h. omega (arith, s.forward);
    bounded = s.bounded;
    passed = λ j lo hi. ground (arith, s.passed j);
    free = s.free;
  }

next_free-Stops :
    (fuel : ℕ) (p : Pmm) (first : ℕ)
    → first ≤ p.last_available
    → p.last_available < first + fuel
    → Returns (Stops p first) (next_free fuel p first)
unfolding next_free
next_free-Stops zero p first le lt = absurd (omega arith)
next_free-Stops (suc fuel) p first le lt = elim (Bool-cases (first == p.last_available)) [
  | inl e ↦ rw e (Stops-end p first le e)
  | inr e ↦ rw e (elim (Bool-cases (get_bit (first + 1) p == 0)) [
    | inl z ↦ rw z (Stops-hit p first le e z)
    | inr z ↦ rw z (
        Returns-mono (Stops p (first + 1)) (Stops p first) (next_free fuel p (first + 1))
          (next_free-Stops fuel p (first + 1) (ground arith) (omega arith))
          (Stops-more p first le z))
  ])
]

-- What a call of `pmm_alloc_page` that returns has done.
pub record Allocates (p : Pmm) (r : ℕ × Pmm) : Type 0 where
  pub address : r.0 ≡ (p.bitmap + p.first_free * mem_unit_size) % 2 ^ 32
  pub was_free : taken p p.first_free ≡ false
  pub marks : (j : ℕ) → taken r.1 j ≡ (if j == p.first_free then true else taken p j)
  pub grows : p.first_free < r.1.first_free
  pub same_bitmap : r.1.bitmap ≡ p.bitmap
  pub same_end : r.1.last_available ≡ p.last_available
  pub inv : Inv r.1

-- The state behind the loop of `pmm_alloc_page`, when that stops at `f`.
abbrev after : Pmm → ℕ → Pmm
after p f = record (set_bit p.first_free p) { first_free = f }

module _ (p : Pmm) (v : Inv p) (more : p.first_free < p.last_available) (f : ℕ) where
  after-marks : (j : ℕ) → taken (after p f) j ≡ (if j == p.first_free then true else taken p j)
  after-marks j =
      taken_same_bytes (set_bit p.first_free p) (after p f) j refl
      ∙ taken-set_bit p v.has_bytes p.first_free j

  after-Inv : Stops (set_bit p.first_free p) p.first_free f → Inv (after p f)
  after-Inv s = record {
    active = ground (arith, set_bit_frame p.first_free p, v.active);
    bounded = s.bounded;
    has_bytes = set_bit-HasBytes p p.first_free v.has_bytes;
    lowest = λ j pos lt. ground (
      arith,
      after-marks j,
      v.lowest j,
      s.passed j,
      taken_same_bytes (set_bit p.first_free p) (after p f) j refl,
    );
    free =
        λ lt. ground (arith, s.free, taken_same_bytes (set_bit p.first_free p) (after p f) f refl);
  }

  after-Allocates :
      Stops (set_bit p.first_free p) p.first_free f
      → Allocates p ((p.bitmap + p.first_free * mem_unit_size) % 2 ^ 32, after p f)
  after-Allocates s = record {
    address = refl;
    was_free = v.free more;
    marks = after-marks;
    grows = ground (arith, s.moved, set_bit_frame p.first_free p);
    same_bitmap = (set_bit_frame p.first_free p).0;
    same_end = (set_bit_frame p.first_free p).2;
    inv = after-Inv s;
  }

alloc_paged_lem :
    (p : Pmm)
    → p.first_free ≢ p.last_available
    → alloc_paged p ≡ (
        next_free (p.last_available - p.first_free + 1) (set_bit p.first_free p) p.first_free
        >>= λ f. ok ((p.bitmap + p.first_free * mem_unit_size) % 2 ^ 32, after p f))
unfolding alloc_paged
alloc_paged_lem p more = let e : (p.first_free == p.last_available) ≡ false = ground arith in rw e

alloc_paged-full : (p : Pmm) → p.first_free ≡ p.last_available → alloc_paged p ≡ halt
unfolding alloc_paged
alloc_paged-full p full = let e : (p.first_free == p.last_available) ≡ true = ground arith in rw e

alloc_page-paged : (p : Pmm) → p.paging_active ≡ true → alloc_page p ≡ alloc_paged p
unfolding alloc_page
alloc_page-paged p h = simp h

-- While a page is free, `pmm_alloc_page` with paging active returns the lowest free one, marks it
-- and nothing else, and keeps the invariant.
pub alloc_page-Allocates :
    (p : Pmm) → Inv p → p.first_free ≢ p.last_available → Returns (Allocates p) (alloc_page p)
alloc_page-Allocates p v more =
    rw (alloc_page-paged p v.active, alloc_paged_lem p more)
      (Returns->>= (Stops (set_bit p.first_free p) p.first_free) (Allocates p) _ _
        (next_free-Stops _ (set_bit p.first_free p) p.first_free
          (ground (arith, set_bit_frame p.first_free p, v.bounded))
          (ground (arith, set_bit_frame p.first_free p, v.bounded)))
        λ f s. after-Allocates p v (omega (arith, v.bounded)) f s)

-- When no page is free, `pmm_alloc_page` panics, and then each index but 0 is really in use.
pub alloc_page-full :
    (p : Pmm)
    → Inv p
    → p.first_free ≡ p.last_available
    → (alloc_page p ≡ halt) × ((j : ℕ) → 0 < j → j < p.last_available → taken p j ≡ true)
alloc_page-full p v full =
    (alloc_page-paged p v.active ∙ halts, λ j pos lt. v.lowest j pos (omega arith))
  where
    halts : alloc_paged p ≡ halt
    halts = alloc_paged-full p full

abbrev pub page_index : Pmm → ℕ → ℕ
page_index p a = (a + 2 ^ 32 - p.bitmap) % 2 ^ 32 / mem_unit_size

free_page_frame :
    (p : Pmm) (a : ℕ)
    → ((free_page a p).bitmap ≡ p.bitmap)
      × ((free_page a p).last_available ≡ p.last_available)
      × ((free_page a p).paging_active ≡ p.paging_active)
      × ((free_page a p).bytes ≡ (clear_bit (page_index p a) p).bytes)
      × ((free_page a p).first_free ≡ min (page_index p a) p.first_free)
unfolding free_page
free_page_frame p a = ground arith

-- What `pmm_free_page` has done.
pub record Frees (p : Pmm) (i : ℕ) (q : Pmm) : Type 0 where
  pub marks : (j : ℕ) → taken q j ≡ (if j == i then false else taken p j)
  pub lowered : q.first_free ≡ min i p.first_free
  pub same_bitmap : q.bitmap ≡ p.bitmap
  pub same_end : q.last_available ≡ p.last_available
  pub inv : Inv q

module _ (p : Pmm) (v : Inv p) (a : ℕ) where
  free_page-marks :
      (j : ℕ) → taken (free_page a p) j ≡ (if j == page_index p a then false else taken p j)
  free_page-marks j =
      taken_same_bytes (clear_bit (page_index p a) p) (free_page a p) j (free_page_frame p a).3
      ∙ taken-clear_bit p v.has_bytes (page_index p a) j

  free_page-Inv : Inv (free_page a p)
  free_page-Inv = record {
    active = ground (arith, free_page_frame p a, v.active);
    bounded = omega (arith, free_page_frame p a, v.bounded);
    has_bytes =
        λ i. rw (free_page_frame p a).3 (clear_bit-HasBytes p (page_index p a) v.has_bytes i);
    lowest = λ j pos lt. ground (arith, free_page-marks j, free_page_frame p a, v.lowest j);
    free = λ lt.
        ground (arith, free_page-marks (free_page a p).first_free, free_page_frame p a, v.free);
  }

  -- `pmm_free_page` clears the bit of the page and no other, lowers `_first_free_index` if the page
  -- lies below it, and keeps the invariant.
  pub free_page-Frees : Frees p (page_index p a) (free_page a p)
  free_page-Frees = record {
    marks = free_page-marks;
    lowered = (free_page_frame p a).4;
    same_bitmap = (free_page_frame p a).0;
    same_end = (free_page_frame p a).1;
    inv = free_page-Inv;
  }

-- A call that returns keeps the invariant; without a free page it panics.
pub alloc_page-Inv : (p : Pmm) → Inv p → Safely (λ r. Inv r.1) (alloc_page p)
alloc_page-Inv p v = elim (ℕ_discrete p.first_free p.last_available) [
  | yes full ↦ rw (alloc_page-full p v full).0 tt
  | no more ↦
      Safely-Returns (Allocates p) (λ r. Inv r.1) (alloc_page p) (alloc_page-Allocates p v more)
        λ r s. s.inv
]
