-- ===== src/Pmm/Setup.antt =====
-- code/mem/pmm.c: the bitmap after `map_pmm_to_virtual_space`.
use hobby_kernel.Common.{
  ℕ, zero, suc, ◌+◌, ◌-◌, ◌/◌, ◌%◌, ◌^◌, ◌≤◌, ◌≡◌, ◌*◌, ◌<◌, ◌∙◌, ap, if_false, ok, refl, true,
  false, ◌&&◌, arith, ltb, leb, ◌==◌, if◌then◌else◌,
}
use hobby_kernel.Pmm.{
  alloc_page, alloc_early, alloc_paged, Pmm, set_bit, clear_bit, mark_skipped, clear_rest,
  skipped_indices, fill_bitmap, mem_size, mem_unit_size,
}
use hobby_kernel.Pmm.Bits.{
  taken, HasBytes, taken-set_bit, taken-clear_bit, set_bit-HasBytes, clear_bit-HasBytes,
  taken_same_bytes,
}
use hobby_kernel.Pmm.Invariant.{Inv}

mark_skipped-HasBytes : (n i : ℕ) (p : Pmm) → HasBytes p → HasBytes (mark_skipped n i p)
unfolding mark_skipped
mark_skipped-HasBytes zero i p h = h
mark_skipped-HasBytes (suc n) i p h =
    mark_skipped-HasBytes n (i + 1) (set_bit (i + 1) p) (set_bit-HasBytes p (i + 1) h)

clear_rest-HasBytes : (n i s : ℕ) (p : Pmm) → HasBytes p → HasBytes (clear_rest n i s p)
unfolding clear_rest
clear_rest-HasBytes zero i s p h = h
clear_rest-HasBytes (suc n) i s p h =
    clear_rest-HasBytes n (i + 1) s _ (clear_bit-HasBytes p (i + s) h)

taken-mark_skipped :
    (n i : ℕ) (p : Pmm) (j : ℕ)
    → HasBytes p
    → taken (mark_skipped n i p) j ≡ (if ltb i j && leb j (i + n) then true else taken p j)
unfolding mark_skipped
taken-mark_skipped zero i p j h = ground arith
taken-mark_skipped (suc n) i p j h = ground (
  arith,
  taken-mark_skipped n (i + 1) (set_bit (i + 1) p) j (set_bit-HasBytes p (i + 1) h),
  taken-set_bit p h (i + 1) j,
)

taken-clear_rest :
    (n i s : ℕ) (p : Pmm) (j : ℕ)
    → HasBytes p
    → taken (clear_rest n i s p) j
      ≡ (if leb (i + s) j && ltb j (i + s + n) then false else taken p j)
unfolding clear_rest
taken-clear_rest zero i s p j h = ground arith
taken-clear_rest (suc n) i s p j h = ground (
  arith,
  taken-clear_rest n (i + 1) s (clear_bit (i + s) p) j (clear_bit-HasBytes p (i + s) h),
  taken-clear_bit p h (i + s) j,
)

abbrev pub last_index : ℕ
last_index = mem_size / mem_unit_size

module _ (p : Pmm) (h : HasBytes p) (few : skipped_indices p ≤ last_index) where
  abbrev cleared : Pmm
  cleared =
      clear_rest ((mem_size / mem_unit_size + 2 ^ 32 - skipped_indices p) % 2 ^ 32) 0
        (skipped_indices p) (mark_skipped (skipped_indices p) 0 p)

  cleared-HasBytes : HasBytes cleared
  cleared-HasBytes = clear_rest-HasBytes _ 0 _ _ (mark_skipped-HasBytes _ 0 p h)

  -- `map_pmm_to_virtual_space` marks the indices from 1 up to the number of pages handed out so
  -- far, clears those above it, and marks the end of the bitmap. Index 0 keeps the bit that was in
  -- memory before, and so do the indices behind the end.
  pub taken-fill_bitmap :
      (j : ℕ)
      → taken (fill_bitmap p) j ≡ (
          if j == 0
          then taken p 0
          else if ltb j (skipped_indices p)
          then true
          else if ltb j last_index
          then false
          else if j == last_index
          then true
          else taken p j)
  unfolding fill_bitmap
  taken-fill_bitmap j = ground (
    arith,
    taken_same_bytes (set_bit last_index cleared) (fill_bitmap p) j refl,
    taken-set_bit cleared cleared-HasBytes last_index j,
    taken-clear_rest ((mem_size / mem_unit_size + 2 ^ 32 - skipped_indices p) % 2 ^ 32) 0
        (skipped_indices p) (mark_skipped (skipped_indices p) 0 p) j
        (mark_skipped-HasBytes (skipped_indices p) 0 p h),
    taken-mark_skipped (skipped_indices p) 0 p j h,
  )

  pub fill_bitmap_fields :
      ((fill_bitmap p).first_free ≡ skipped_indices p)
      × ((fill_bitmap p).last_available ≡ last_index)
      × HasBytes (fill_bitmap p)
  unfolding fill_bitmap
  fill_bitmap_fields = (refl, refl, set_bit-HasBytes cleared last_index cleared-HasBytes)

  -- Once `init_vmm` has set `pmm_paging_active`, the allocator's invariant holds, provided that the
  -- pages handed out so far fit the bitmap.
  pub fill_bitmap-Inv : Inv (record (fill_bitmap p) { paging_active = true })
  fill_bitmap-Inv = record {
    active = refl;
    bounded = omega (arith, fill_bitmap_fields, few);
    has_bytes = fill_bitmap_fields.2;
    lowest = λ j pos lt. ground (arith, same j, taken-fill_bitmap j, fill_bitmap_fields, few);
    free = λ lt. ground (
      arith,
      same (fill_bitmap p).first_free,
      taken-fill_bitmap (fill_bitmap p).first_free,
      fill_bitmap_fields,
    );
  }
    where
      same :
          (j : ℕ)
          → taken (record (fill_bitmap p) { paging_active = true }) j ≡ taken (fill_bitmap p) j
      same j =
          taken_same_bytes (fill_bitmap p) (record (fill_bitmap p) { paging_active = true }) j refl

-- Before paging is active the pages come one after the other.
pub alloc_page-early :
    (n : ℕ) (p : Pmm)
    → p.paging_active ≡ false
    → p.location ≡ n * 0x1000
    → n + 1 < 2 ^ 20
    → alloc_page p ≡ ok ((n + 1) * 0x1000, record p { location = (n + 1) * 0x1000 })
unfolding alloc_page alloc_early
alloc_page-early n p off e l =
    if_false p.paging_active (alloc_paged p) (alloc_early p) off
    ∙ ap (λ location. ok (location, record p { location = location })) (omega (arith, e, l))

mark_skipped-bitmap : (n i : ℕ) (p : Pmm) → (mark_skipped n i p).bitmap ≡ p.bitmap
unfolding mark_skipped set_bit
mark_skipped-bitmap zero i p = refl
mark_skipped-bitmap (suc n) i p = mark_skipped-bitmap n (i + 1) (set_bit (i + 1) p)

clear_rest-bitmap : (n i s : ℕ) (p : Pmm) → (clear_rest n i s p).bitmap ≡ p.bitmap
unfolding clear_rest clear_bit
clear_rest-bitmap zero i s p = refl
clear_rest-bitmap (suc n) i s p = clear_rest-bitmap n (i + 1) s (clear_bit (i + s) p)

pub fill_bitmap-bitmap : (p : Pmm) → (fill_bitmap p).bitmap ≡ p.bitmap
unfolding fill_bitmap set_bit
fill_bitmap-bitmap p =
    clear_rest-bitmap ((mem_size / mem_unit_size + 2 ^ 32 - skipped_indices p) % 2 ^ 32) 0
      (skipped_indices p) (mark_skipped (skipped_indices p) 0 p)
    ∙ mark_skipped-bitmap (skipped_indices p) 0 p
