-- ===== src/Pmm.antt =====
-- code/mem/pmm.c: the physical page allocator.
pub mod Bits
pub mod Invariant
pub mod History
pub mod Setup
pub mod Pages
pub mod Enough
use hobby_kernel.Common.{
  ℕ, zero, suc, ◌+◌, ◌-◌, ◌*◌, ◌/◌, ◌%◌, ◌^◌, bit_and, bit_or, Bool, true, false, not, ltb, ◌==◌,
  if◌then◌else◌, Outcome, ok, halt, stuck, ◌>>=◌,
}

abbrev pub mem_unit_size : ℕ
mem_unit_size = 0x1000

abbrev pub mem_size : ℕ
mem_size = 0x800000

abbrev pub page_mask : ℕ
page_mask = 0xfffff000

-- The file's globals. `bytes` is the bitmap that `bitmap` points to: `bytes i` is `_bitmap[i]`.
pub record Pmm : Type 0 where
  pub location : ℕ
  pub first_free : ℕ
  pub last_available : ℕ
  pub bitmap : ℕ
  pub bytes : ℕ → ℕ
  pub paging_active : Bool

-- `a[i] = v`
abbrev pub write_byte : (ℕ → ℕ) → ℕ → ℕ → ℕ → ℕ
write_byte a i v j = if j == i then v else a j

pub set_bit : ℕ → Pmm → Pmm
set_bit b p = record p {
  bytes = write_byte p.bytes (b / 8) (bit_or (p.bytes (b / 8)) (2 ^ (b % 8)) % 2 ^ 8);
}

-- `~(1 << k)` is a 32-bit value, and the assignment keeps its low byte.
pub clear_bit : ℕ → Pmm → Pmm
clear_bit b p = record p {
  bytes = write_byte p.bytes (b / 8) (bit_and (p.bytes (b / 8)) (2 ^ 32 - 1 - 2 ^ (b % 8)) % 2 ^ 8);
}

unfoldable pub get_bit : ℕ → Pmm → ℕ
get_bit b p = bit_and (p.bytes (b / 8)) (2 ^ (b % 8))

unfoldable pub init_pmm : ℕ → Pmm → Pmm
init_pmm start p =
    let start' = bit_and ((start + 0x1000) % 2 ^ 32) page_mask in
    record p { location = start'; bitmap = start' }

-- `while (first != last && get_bit(++first) != 0);` on fuel
next_free : ℕ → Pmm → ℕ → Outcome ℕ
unfolding get_bit
next_free zero p first = stuck
next_free (suc fuel) p first =
    let rest = next_free fuel p (first + 1) in
    if first == p.last_available
    then ok first
    else if get_bit (first + 1) p == 0
    then ok (first + 1)
    else rest

alloc_paged : Pmm → Outcome (ℕ × Pmm)
unfolding set_bit next_free
alloc_paged p = if p.first_free == p.last_available then halt else do
  let q = set_bit p.first_free p
  let stack = (p.bitmap + p.first_free * mem_unit_size) % 2 ^ 32
  first ← next_free (q.last_available - q.first_free + 1) q q.first_free
  ok (stack, record q { first_free = first })

-- Before paging is active pages are handed out in a row, behind the bitmap.
alloc_early : Pmm → Outcome (ℕ × Pmm)
alloc_early p =
    let location = (p.location + 0x1000) % 2 ^ 32 in ok (location, record p { location = location })

pub alloc_page : Pmm → Outcome (ℕ × Pmm)
unfolding alloc_paged alloc_early
alloc_page p = if p.paging_active then alloc_paged p else alloc_early p

-- `for (i = 0; i < skipped; i++, set_bit(i));`: the bit is set after the increment.
mark_skipped : (rounds i : ℕ) → Pmm → Pmm
unfolding set_bit
mark_skipped zero i p = p
mark_skipped (suc n) i p = mark_skipped n (i + 1) (set_bit (i + 1) p)

clear_rest : (rounds i skipped : ℕ) → Pmm → Pmm
unfolding clear_bit
clear_rest zero i skipped p = p
clear_rest (suc n) i skipped p = clear_rest n (i + 1) skipped (clear_bit (i + skipped) p)

abbrev pub skipped_indices : Pmm → ℕ
skipped_indices p = ((p.location + 2 ^ 32 - p.bitmap) % 2 ^ 32 / mem_unit_size + 1) % 2 ^ 32

-- `map_pmm_to_virtual_space` behind its call of `map`.
pub fill_bitmap : Pmm → Pmm
unfolding mark_skipped clear_rest
fill_bitmap p =
    let skipped = skipped_indices p in
    let rest = (mem_size / mem_unit_size + 2 ^ 32 - skipped) % 2 ^ 32 in
    let marked = mark_skipped skipped 0 p in
    let cleared = clear_rest rest 0 skipped marked in
    record (set_bit (mem_size / mem_unit_size) cleared) {
      first_free = skipped;
      last_available = mem_size / mem_unit_size;
    }

pub free_page : ℕ → Pmm → Pmm
unfolding clear_bit
free_page page_address p =
    let index = (page_address + 2 ^ 32 - p.bitmap) % 2 ^ 32 / mem_unit_size in
    let q = clear_bit index p in
    if ltb index q.first_free then record q { first_free = index } else q
