-- ===== src/Tests/Memory.antt =====
-- Runs of the theorems on code/mem/pmm.c, code/MemoryManagement.cpp and code/mem/heap.c.
use hobby_kernel.Common.{
  ◌&&◌, ◌+◌, ℕ, zero, suc, ◌<◌, ◌≡◌, ◌≢◌, refl, Bool, true, false, [], ◌∷◌, arith, ◌==◌,
  if◌then◌else◌, Returns, Safely, stuck,
}
use hobby_kernel.Common.Chain.{null}
use hobby_kernel.Pmm.{alloc_page, free_page, init_pmm, Pmm, get_bit, fill_bitmap}
use hobby_kernel.Pmm.Bits.{taken}
use hobby_kernel.Pmm.Invariant.{Inv, Allocates, Frees, alloc_page-Allocates, free_page-Frees}
use hobby_kernel.Pmm.History.{alloc_twice, alloc_twice-ne, frees}
use hobby_kernel.Pmm.Setup.{taken-fill_bitmap}
use hobby_kernel.KernelHeap.{KernelHeap, kernel_malloc, memory_block}
use hobby_kernel.KernelHeap.Bump.{IsReady}
use hobby_kernel.KernelHeap.History.{RanInRow, cost, run-InRow, mallocs}
use hobby_kernel.KernelHeap.Exhaustion.{kernel_malloc-never_returns}
use hobby_kernel.Vmm.{Vmm}
use hobby_kernel.Vmm.Lookup.{Directory}
use hobby_kernel.Paging.{Paging, create_kernel_directory, init_vmm}
use hobby_kernel.Paging.Directory.{Creates, create_kernel_directory-Creates}
use hobby_kernel.Paging.Started.{On, init_vmm-On}
use hobby_kernel.Heap.Search.{LongEnough, find_nonstandart_node-LongEnough}
use hobby_kernel.Heap.{find_nonstandart_node}
use hobby_kernel.Heap.{Heap, kmalloc, size_index}
use hobby_kernel.Heap.Place.{Unmarked, place_nonstandart_node, place_nonstandart_node-Unmarked}
use hobby_kernel.Heap.Standard.{Reuses, kmalloc-Reuses}
use hobby_kernel.Samples.{kernel_heap, kernel_heap-IsReady}

-- Page 4 is the next one.
abbrev early : Pmm
early = record {
  location = 0x304000;
  first_free = 0;
  last_available = 0;
  bitmap = 0x301000;
  bytes = λ i. 0;
  paging_active = false;
}

taken-fill_bitmap_example : taken (fill_bitmap early) 3 ≡ true
taken-fill_bitmap_example = taken-fill_bitmap early (λ i. omega arith) (omega arith) 3

-- Memory in which each word is its own place, and the page allocator as `init_pmm` leaves it.
abbrev unpaged : Paging
unpaged = record {
  vmm = record {
    page_directory = λ i. 0;
    directory_page = 0;
    words = λ q j. q + j;
    pmm = record early { location = 0x301000 };
  };
  kernel_page_directory = 0;
  current_page_directory = 0;
  cr3 = 0;
}

create_kernel_directory-Creates_example :
    Returns (Creates 0x301 unpaged.vmm) (create_kernel_directory unpaged.vmm)
create_kernel_directory-Creates_example =
    create_kernel_directory-Creates 0x301 unpaged.vmm refl refl (omega arith)

init_vmm-On_example : Returns (On 0x301 unpaged.vmm.pmm) (init_vmm unpaged)
init_vmm-On_example =
    init_vmm-On 0x301 unpaged refl refl refl (omega arith) (omega arith) (λ i. omega arith)
      (omega arith)

-- Pages 0 to 2 of eight are in use.
abbrev pages : Pmm
pages = record {
  location = 0;
  first_free = 3;
  last_available = 8;
  bitmap = 0x301000;
  bytes = λ i. if i == 0 then 7 else 0;
  paging_active = true;
}

low_taken : (j : ℕ) → 0 < j → j < 3 → taken pages j ≡ true
unfolding get_bit
low_taken zero pos lt = absurd (omega arith)
low_taken (suc zero) pos lt = refl
low_taken (suc (suc zero)) pos lt = refl
low_taken (suc (suc (suc j))) pos lt = absurd (omega arith)

pages-Inv : Inv pages
unfolding get_bit
pages-Inv = record {
  active = refl;
  bounded = omega arith;
  has_bytes = λ i. ground arith;
  lowest = low_taken;
  free = λ h. refl;
}

alloc_page-Allocates_example : Returns (Allocates pages) (alloc_page pages)
alloc_page-Allocates_example = alloc_page-Allocates pages pages-Inv (ground arith)

free_page-Frees_example : Frees pages 1 (free_page 0x302000 pages)
free_page-Frees_example = free_page-Frees pages pages-Inv 0x302000

-- The same, when eight pages are three.
abbrev full_pages : Pmm
full_pages = record pages { last_available = 3 }

full_pages-Inv : Inv full_pages
unfolding get_bit
full_pages-Inv = record {
  active = refl;
  bounded = omega arith;
  has_bytes = pages-Inv.has_bytes;
  lowest = low_taken;
  free = λ h. absurd (omega arith);
}

alloc_twice-ne_example : Safely (λ r. r.0 ≢ r.1) (alloc_twice (frees 0x302000 ∷ []) pages)
alloc_twice-ne_example =
    alloc_twice-ne (frees 0x302000 ∷ []) pages pages-Inv (omega arith) (omega arith)
      ((λ e. absurd (ground (arith, e))), tt)

run-InRow_example :
    Returns
      (RanInRow kernel_heap (mallocs 40 ∷ mallocs 12 ∷ []))
      (hobby_kernel.KernelHeap.History.run 1 (mallocs 40 ∷ mallocs 12 ∷ []) kernel_heap)
unfolding cost
run-InRow_example =
    run-InRow 0 (mallocs 40 ∷ mallocs 12 ∷ []) kernel_heap kernel_heap-IsReady (omega arith)

-- All of the region but 0x100 bytes is handed out, and the memory behind it is zero.
abbrev nearly_full : KernelHeap
nearly_full = record {
  is_initialized = true;
  start_address = 0x200000;
  last_valid_address = 0x300000;
  current_address = 0x2FFF00;
  block = λ p. if p == 0x2FFF00 then memory_block 1 0x100 else memory_block 0 0;
}

nearly_full-IsReady : IsReady nearly_full
nearly_full-IsReady = record {
  initialized = refl;
  low = omega arith;
  high = omega arith;
  word = omega arith;
  available = λ h. ground arith;
  to_end = λ h. refl;
}

kernel_malloc-never_returns_example : kernel_malloc 9 0x200 nearly_full ≡ stuck
kernel_malloc-never_returns_example =
    kernel_malloc-never_returns 9 0x200 nearly_full nearly_full-IsReady (omega arith) (omega arith)
      (omega arith)
      (record {
        word = omega arith;
        empty = refl;
        not_end = ground arith;
        not_current = ground arith;
      })

-- The directory has a table for the first 4 MB and one for the heap, and the heap has its first page.
abbrev tables : Vmm
tables = record {
  page_directory = λ i.
      if i == 0 then 0x305003 else if i == 832 then 0x303003 else if i == 1023 then 0x302003 else 0;
  directory_page = 0x302;
  words = λ q j. if q == 0x303 && (j == 0) then 0x304003 else 0;
  pmm = pages;
}

-- Two blocks for up to 15 bytes, of which the first is in use and the second is or is not.
abbrev heap : Bool → Heap
heap second = record {
  current_mem_addr = 0xD0000030;
  list_array = λ i. if i == 0 then 0xD0000000 else null;
  next = λ a. if a == 0xD0000000 then 0xD0000018 else null;
  allocated = λ a. if a == 0xD0000018 then second else true;
  length = λ a. 16;
  vmm = tables;
}

kmalloc-Reuses_example :
    Returns (Reuses 12 (heap false) (0xD0000000 ∷ 0xD0000018 ∷ [])) (kmalloc 3 12 (heap false))
unfolding size_index
kmalloc-Reuses_example =
    kmalloc-Reuses 3 12 (heap false) (0xD0000000 ∷ 0xD0000018 ∷ []) (omega arith) (ground arith)
      (omega arith) (λ a h. refl) refl

-- `kmain` starts the page allocator at 3 MB.
init_pmm_at_3_mb : (init_pmm 0x300000 early).bitmap ≡ 0x301000
unfolding init_pmm
init_pmm_at_3_mb = refl

-- The second block is too short and comes behind a block in use, the third is merged into it.
abbrev blocks : Heap
blocks = record (heap false) {
  next = λ a. if a == 0xD0000000 then 0xD0001000 else if a == 0xD0001000 then 0xD0002000 else null;
  allocated = λ a. a == 0xD0000000;
  length = λ a. 600;
}

find_nonstandart_node-LongEnough_example :
    Returns (LongEnough 1000) (find_nonstandart_node 4 0xD0000000 1000 null blocks)
find_nonstandart_node-LongEnough_example =
    find_nonstandart_node-LongEnough 4 0xD0000000 1000 null blocks
      (0xD0000000 ∷ 0xD0001000 ∷ 0xD0002000 ∷ []) (ground arith) (ground arith) (ground arith)
      (omega arith)

place_nonstandart_node-Unmarked_example :
    Returns
      (Unmarked 0xD0001000 0xD0000000)
      (place_nonstandart_node 3 0xD0001000 0xD0000000 1000 blocks)
place_nonstandart_node-Unmarked_example =
    place_nonstandart_node-Unmarked 3 0xD0001000 0xD0000000 1000 blocks
      (0xD0001000 ∷ 0xD0002000 ∷ []) (ground arith) (omega arith) (omega arith)
      (λ e. absurd (omega arith)) (λ e. absurd (omega arith)) (λ e. absurd (omega arith))
      (record { free = refl; short = omega arith })
