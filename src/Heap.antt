-- ===== src/Heap.antt =====
-- code/mem/heap.c and code/mem/heap.h: the heap of a process.
pub mod Standard
pub mod Grow
pub mod Search
pub mod Place
use hobby_kernel.Common.{
  ℕ, zero, suc, ◌+◌, ◌-◌, ◌*◌, ◌/◌, ◌%◌, ◌^◌, Bool, true, false, not, ◌&&◌, List, [], ◌∷◌, ◌==◌,
  ltb, leb, if◌then◌else◌, Outcome, ok, fault, stuck, ◌>>=◌,
}
use hobby_kernel.Common.Chain.{null, write}
use hobby_kernel.Pmm.{alloc_page}
use hobby_kernel.Vmm.{is_present, Vmm, present_write, map_page}

-- The object, the fields of the `header_t` by their addresses, and the page tables with the page
-- stack. The field `allocated` is one bit.
pub record Heap : Type 0 where
  pub current_mem_addr : ℕ
  pub list_array : ℕ → ℕ
  pub next : ℕ → ℕ
  pub allocated : ℕ → Bool
  pub length : ℕ → ℕ
  pub vmm : Vmm

abbrev pub heap_start : ℕ
heap_start = 0xD0000000

abbrev pub sizeof_header : ℕ
sizeof_header = 8

-- The first ten of `size_array`; the last is -1.
abbrev pub size_array : ℕ → ℕ
size_array index = if ltb index 8 then 16 * (index + 1) else if index == 8 then 256 else 512

-- `pmm_alloc_page` and `map`.
pub add_page : ℕ → Heap → Outcome Heap
add_page va h = do
  (page, pmm) ← alloc_page h.vmm.pmm
  vmm ← map_page va page present_write (record h.vmm { pmm = pmm })
  ok (record h { vmm = vmm })

-- `n` pages in a row.
pub map_pages : (n va : ℕ) → Heap → Outcome Heap
unfolding add_page
map_pages zero va h = ok h
map_pages (suc n) va h = add_page (va % 2 ^ 32) h >>= map_pages n (va + 0x1000)

-- The constructor.
pub init_heap : Heap → Outcome Heap
unfolding add_page
init_heap h =
    add_page heap_start (record h { current_mem_addr = heap_start; list_array = λ i. null })

-- The first loop of `kmalloc`: `n` indices are left, and the next one is `index`.
unfoldable pub size_index : (n index length : ℕ) → ℕ
size_index zero index length = index
size_index (suc n) index length =
    if ltb length (size_array index) then index else size_index n (index + 1) length

-- The loop of `kmalloc` on a list of blocks of one size: the last node in front, and the free node,
-- or null.
pub find_standard : (fuel last node : ℕ) → Heap → Outcome (ℕ × ℕ)
find_standard zero last node h = stuck
find_standard (suc fuel) last node h =
    let rest = find_standard fuel node (h.next node) h in
    if node == null
    then ok (last, node)
    else if not (h.allocated node)
    then ok (last, node)
    else rest

-- A free node behind a free one is merged into that one.
merge_free : (last node : ℕ) → Heap → ℕ × Heap
merge_free last node h =
    if not (last == null) && not (h.allocated last)
    then (
      last,
      record h {
        length = write h.length last ((h.length last + h.length node) % 2 ^ 31);
        next = write h.next last (h.next node);
      },
    )
    else (node, h)

-- The last node in front, the node that is long enough, or null, and the heap.
pub find_nonstandart_node : (fuel node length last : ℕ) → Heap → Outcome (ℕ × ℕ × Heap)
unfolding merge_free
find_nonstandart_node zero node length last h = stuck
find_nonstandart_node (suc fuel) node length last h =
    let (node', h') = if h.allocated node then (node, h) else merge_free last node h in
    let rest = find_nonstandart_node fuel (h'.next node') length node' h' in
    if node == null
    then ok (last, node, h)
    else if not (h.allocated node) && leb length (h'.length node')
    then ok (last, node', h')
    else rest

-- The difference is unsigned. The new chunk is put behind the whole of the old one.
pub split_chunk : (chunk len : ℕ) → Heap → Heap
split_chunk chunk len h =
    let left = (h.length chunk + 2 ^ 32 - len) % 2 ^ 32 in
    let newchunk = (chunk + h.length chunk) % 2 ^ 32 in
    if ltb sizeof_header left
    then record h {
      next = write (write h.next newchunk null) chunk newchunk;
      allocated = write h.allocated newchunk false;
      length = write (write h.length newchunk (left % 2 ^ 31)) chunk (len % 2 ^ 31);
    }
    else h

-- The end of `kmalloc`: a new block at `current_mem_addr`. A block shorter than what is left in the
-- page still maps one page, since the quotient of a negative number is rounded towards 0. The header is
-- written before any page is mapped.
pub new_block : (length index last : ℕ) → Heap → Outcome (ℕ × Heap)
unfolding map_pages
new_block length index last h =
    let header = h.current_mem_addr in
    let size = if index == 10 then length else size_array index in
    let chunk_size = size + sizeof_header in
    let next_page_addr = header / 0x1000 * 0x1000 + 0x1000 in
    let left_in_page = next_page_addr - header in
    let pages = (chunk_size - left_in_page) / 0x1000 + 1 in
    let made = record h {
      next = write h.next header null;
      allocated = write h.allocated header true;
      length = write h.length header size;
    } in
    if is_present header h.vmm && is_present ((header + 7) % 2 ^ 32) h.vmm
    then (map_pages pages next_page_addr made >>= λ h'.
        let h'' = record h' { current_mem_addr = (header + chunk_size) % 2 ^ 32 } in
        ok (
          header + sizeof_header,
          (if last == null
              then record h'' { list_array = write h''.list_array index header }
              else record h'' { next = write h''.next last header }),
        ))
    else fault

-- Takes a free block.
abbrev take_node : ℕ → Heap → ℕ × Heap
take_node node h = (node + sizeof_header, record h { allocated = write h.allocated node true })

-- Without a length that is negative as an `int`.
pub kmalloc : (fuel length : ℕ) → Heap → Outcome (ℕ × Heap)
unfolding size_index find_standard find_nonstandart_node split_chunk new_block
kmalloc fuel length h =
    let index = size_index 10 0 length in
    let node = h.list_array index in
    if leb (2 ^ 31) length
    then ok (null, h)
    else if index == 10
    then (find_nonstandart_node fuel node length null h >>= λ (last, found, h').
        if found == null
        then new_block length index last h'
        else ok (take_node found (split_chunk found (length + sizeof_header) h')))
    else (find_standard fuel null node h >>= λ (last, found).
        if found == null then new_block length index last h else ok (take_node found h))

pub kfree : ℕ → Heap → Heap
kfree p h = record h { allocated = write h.allocated ((p + 2 ^ 32 - sizeof_header) % 2 ^ 32) false }
