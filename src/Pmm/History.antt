-- ===== src/Pmm/History.antt =====
-- code/mem/pmm.c: sequences of allocations and releases.
use hobby_kernel.Common.{
  ℕ, ◌+◌, ◌-◌, ◌*◌, ◌%◌, ◌/◌, ◌^◌, ◌≤◌, ◌<◌, ◌≡◌, ◌≢◌, sym, true, List, [], ◌∷◌, arith, Outcome, ok,
  ◌>>=◌, Safely, Safely-Returns, Safely->>=, ◌∙◌,
}
use hobby_kernel.Pmm.{Pmm, alloc_page, free_page, mem_unit_size}
use hobby_kernel.Pmm.Bits.{taken}
use hobby_kernel.Pmm.Invariant.{
  Inv, Allocates, alloc_page-Allocates, alloc_page-full, page_index, Frees, free_page-Frees,
}
use native.Mathlib.Decide.{ℕ_discrete}

-- A call from the rest of the kernel.
pub data Call : Type 0 where
  allocates : Call
  frees : ℕ → Call

pub step : Call → Pmm → Outcome Pmm
step allocates p = alloc_page p >>= λ r. ok r.1
step (frees a) p = ok (free_page a p)

pub run : List Call → Pmm → Outcome Pmm
unfolding step
run [] p = ok p
run (c ∷ cs) p = step c p >>= run cs

-- The call gives page `i` of the bitmap at address `base` back.
abbrev pub Releases : ℕ → ℕ → Call → Type 0
Releases base i allocates = ⊥
Releases base i (frees a) = (a + 2 ^ 32 - base) % 2 ^ 32 / mem_unit_size ≡ i

abbrev pub NeverReleases : ℕ → ℕ → List Call → Type 0
NeverReleases base i [] = Unit
NeverReleases base i (c ∷ cs) = ¬ Releases base i c × NeverReleases base i cs

-- Page `i` of the bitmap at address `base` is in use, in a state that obeys the invariant.
pub record Holds (base i : ℕ) (p : Pmm) : Type 0 where
  pub inv : Inv p
  pub same_bitmap : p.bitmap ≡ base
  pub in_use : taken p i ≡ true
  pub in_range : i < p.last_available
  pub no_wrap : p.bitmap + p.last_available * mem_unit_size ≤ 2 ^ 32

module _ (base i : ℕ) where
  alloc_page-Holds : (p : Pmm) → Holds base i p → Safely (λ r. Holds base i r.1) (alloc_page p)
  alloc_page-Holds p h = elim (ℕ_discrete p.first_free p.last_available) [
    | yes full ↦ rw (alloc_page-full p h.inv full).0 tt
    | no more ↦
        Safely-Returns (Allocates p) _ (alloc_page p) (alloc_page-Allocates p h.inv more) λ r s.
          record {
            inv = s.inv;
            same_bitmap = s.same_bitmap ∙ h.same_bitmap;
            in_use = ground (arith, s.marks i, h.in_use);
            in_range = rw s.same_end h.in_range;
            no_wrap = rw (s.same_end, s.same_bitmap) h.no_wrap;
          }
  ]

  free_page-Holds :
      (p : Pmm) (a : ℕ)
      → ¬ Releases base i (frees a)
      → Holds base i p
      → Holds base i (free_page a p)
  free_page-Holds p a other h =
      let s : Frees p (page_index p a) (free_page a p) = free_page-Frees p h.inv a in
      let kept : i ≢ page_index p a = λ e. other (rw (← h.same_bitmap) (sym e)) in
      record {
        inv = s.inv;
        same_bitmap = s.same_bitmap ∙ h.same_bitmap;
        in_use = ground (arith, s.marks i, h.in_use, kept);
        in_range = rw s.same_end h.in_range;
        no_wrap = rw (s.same_end, s.same_bitmap) h.no_wrap;
      }

  step-Holds :
      (c : Call) (p : Pmm) → ¬ Releases base i c → Holds base i p → Safely (Holds base i) (step c p)
  unfolding step
  step-Holds allocates p other h =
      Safely->>= (λ r. Holds base i r.1) (Holds base i) (alloc_page p) (λ r. ok r.1)
        (alloc_page-Holds p h) λ r k. k
  step-Holds (frees a) p other h = free_page-Holds p a other h

  -- Whatever the calls, short of a panic for lack of memory they all return, and a page that is in
  -- use stays in use as long as none of the calls gives it back.
  pub run-Holds :
      (cs : List Call) (p : Pmm)
      → NeverReleases base i cs
      → Holds base i p
      → Safely (Holds base i) (run cs p)
  unfolding run
  run-Holds [] p other h = h
  run-Holds (c ∷ cs) p other h =
      Safely->>= (Holds base i) (Holds base i) (step c p) (run cs) (step-Holds c p other.0 h)
        λ q k. run-Holds cs q other.1 k

-- A page, some calls, and another page: the two addresses.
pub alloc_twice : List Call → Pmm → Outcome (ℕ × ℕ)
alloc_twice cs p = do r ← alloc_page p; q ← run cs r.1; s ← alloc_page q; ok (r.0, s.0)

second-ne :
    (base i : ℕ) (q : Pmm)
    → Holds base i q
    → Safely (λ s. (base + i * mem_unit_size) % 2 ^ 32 ≢ s.0) (alloc_page q)
second-ne base i q h = elim (ℕ_discrete q.first_free q.last_available) [
  | yes full ↦ rw (alloc_page-full q h.inv full).0 tt
  | no more ↦
      Safely-Returns (Allocates q) _ (alloc_page q) (alloc_page-Allocates q h.inv more)
        λ r s. λ same. differ r s same
]
  where
    differ : (r : ℕ × Pmm) → Allocates q r → (base + i * mem_unit_size) % 2 ^ 32 ≡ r.0 → ⊥
    differ r s same =
        let apart : i ≢ q.first_free = ground (arith, s.was_free, h.in_use) in
        let low : q.first_free < q.last_available = omega (arith, s.grows, s.inv, s.same_end) in
        omega (arith, h.same_bitmap, h.no_wrap, h.in_range, s.address, same)

-- While the bitmap's pages lie within the address space, two allocations return different
-- addresses, whatever calls come between them, unless one of those gives the first page back.
pub alloc_twice-ne :
    (cs : List Call) (p : Pmm)
    → Inv p
    → p.first_free < p.last_available
    → p.bitmap + p.last_available * mem_unit_size ≤ 2 ^ 32
    → NeverReleases p.bitmap p.first_free cs
    → Safely (λ r. r.0 ≢ r.1) (alloc_twice cs p)
unfolding alloc_twice
alloc_twice-ne cs p v more fits other =
    Safely->>= (Allocates p) _ (alloc_page p) _
      (Safely-Returns (Allocates p) (Allocates p) (alloc_page p)
        (alloc_page-Allocates p v (omega arith)) (λ r s. s))
      λ r s.
        Safely->>= (Holds p.bitmap p.first_free) _ (run cs r.1) _
          (run-Holds p.bitmap p.first_free cs r.1 other (first_held r s))
          λ q h.
            Safely->>= (λ t. (p.bitmap + p.first_free * mem_unit_size) % 2 ^ 32 ≢ t.0) _
              (alloc_page q) _ (second-ne p.bitmap p.first_free q h)
              λ t ne e. ne (sym s.address ∙ e)
  where
    first_held : (r : ℕ × Pmm) → Allocates p r → Holds p.bitmap p.first_free r.1
    first_held r s = record {
      inv = s.inv;
      same_bitmap = s.same_bitmap;
      in_use = ground (arith, s.marks p.first_free);
      in_range = rw s.same_end more;
      no_wrap = rw (s.same_end, s.same_bitmap) fits;
    }
