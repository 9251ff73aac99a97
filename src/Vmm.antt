-- ===== src/Vmm.antt =====
-- code/mem/vmm.c: the page tables, as `map`, `unmap` and `get_mapping` use them.
pub mod Lookup
pub mod Present
pub mod Tables
pub mod Enough
use hobby_kernel.Common.{
  Bool, not, ℕ, ◌+◌, ◌*◌, ◌/◌, ◌%◌, ◌^◌, ◌-◌, ◌&&◌, ◌||◌, leb, ◌==◌, if◌then◌else◌, Outcome, ok,
  fault, ◌>>=◌,
}
use hobby_kernel.Common.Chain.{write}
use hobby_kernel.Pmm.{Pmm, alloc_page}

-- The words of the current directory and the number of the page that it lies in, the words of the
-- physical pages, by the number of the page and the index, and the page stack.
pub record Vmm : Type 0 where
  pub page_directory : ℕ → ℕ
  pub directory_page : ℕ
  pub words : ℕ → ℕ → ℕ
  pub pmm : Pmm

-- PAGE_PRESENT | PAGE_WRITE
abbrev pub present_write : ℕ
present_write = 3

-- PAGE_DIR_IDX
abbrev pub page_dir_idx : ℕ → ℕ
page_dir_idx virtual_page = virtual_page / 1024

-- `page_tables[virtual_page]`: the last table of the directory is the directory itself, so that the
-- processor finds the word in the page that the directory names.
abbrev pub page_table_word : Vmm → ℕ → ℕ
page_table_word v virtual_page =
    v.words (v.page_directory (page_dir_idx virtual_page) / 0x1000) (virtual_page % 1024)

abbrev pub write_word : (ℕ → ℕ → ℕ) → (page i w : ℕ) → ℕ → ℕ → ℕ
write_word words page i w q j = if q == page && (j == i) then w else words q j

-- The words of the directory itself can be among those of a page.
abbrev pub set_word : ℕ → ℕ → Vmm → Vmm
set_word virtual_page w v =
    let table = v.page_directory (page_dir_idx virtual_page) / 0x1000 in
    record v {
      words = write_word v.words table (virtual_page % 1024) w;
      page_directory =
          if table == v.directory_page
          then write v.page_directory (virtual_page % 1024) w
          else v.page_directory;
    }

-- A change of the words of the page that the processor finds at `va`; without a present page it is a
-- page fault.
unfoldable pub edit_page : ℕ → ((ℕ → ℕ) → ℕ → ℕ) → Vmm → Outcome Vmm
edit_page va change v =
    let table = v.page_directory (page_dir_idx (va / 0x1000)) in
    let word = page_table_word v (va / 0x1000) in
    let page = word / 0x1000 in
    if table % 2 == 0 || (word % 2 == 0)
    then fault
    else ok (record v {
      words = λ q. if q == page then change (v.words q) else v.words q;
      page_directory =
          if page == v.directory_page then change v.page_directory else v.page_directory;
    })

-- Whether the processor finds a present page at `va`.
abbrev pub is_present : ℕ → Vmm → Bool
is_present va v = not (
    v.page_directory (page_dir_idx (va / 0x1000)) % 2 == 0
    || (page_table_word v (va / 0x1000) % 2 == 0))

-- The words of a page with its bytes from `offset` on set to zero, and with those in front of it.
abbrev pub clear_behind : (offset : ℕ) → (ℕ → ℕ) → ℕ → ℕ
clear_behind offset w j = if leb (4 * j + 4) offset then w j else w j % 256 ^ (offset - 4 * j)

abbrev pub clear_before : (offset : ℕ) → (ℕ → ℕ) → ℕ → ℕ
clear_before offset w j =
    if leb (4 * j + 4) offset then 0 else w j / 256 ^ (offset - 4 * j) * 256 ^ (offset - 4 * j)

-- `memset((void *)start, 0, 0x1000)`, on the pages that the processor finds there.
pub zero_bytes_at : ℕ → Vmm → Outcome Vmm
unfolding edit_page
zero_bytes_at start v = edit_page start (clear_behind (start % 0x1000)) v >>= λ v'.
    if start % 0x1000 == 0
    then ok v'
    else edit_page ((start + 0x1000) % 2 ^ 32) (clear_before (start % 0x1000)) v'

-- A new page table. `memset` is called with the word that stands first in the table as the address,
-- and not with the table's own.
pub new_table : ℕ → Vmm → Outcome Vmm
unfolding zero_bytes_at
new_table pt_idx v = do
  (page, pmm) ← alloc_page v.pmm
  let v' = record v {
    page_directory = write v.page_directory pt_idx (page + present_write);
    words = write_word v.words v.directory_page pt_idx (page + present_write);
    pmm = pmm;
  }
  zero_bytes_at (page_table_word v' (pt_idx * 1024)) v'

-- Pages begin at multiples of 0x1000 and flags are below it, so that `|` is addition.
pub map_page : (va pa flags : ℕ) → Vmm → Outcome Vmm
unfolding new_table
map_page va pa flags v = do
  v' ←
      if v.page_directory (page_dir_idx (va / 0x1000)) == 0
      then new_table (page_dir_idx (va / 0x1000)) v
      else ok v
  ok (set_word (va / 0x1000) (pa / 0x1000 * 0x1000 + flags) v')

-- Without a page table the write is a page fault.
pub unmap_page : ℕ → Vmm → Outcome Vmm
unmap_page va v =
    if v.page_directory (page_dir_idx (va / 0x1000)) == 0
    then fault
    else ok (set_word (va / 0x1000) 0 v)

-- What `get_mapping` returns: 0, 1 with the address, or -1.
pub data Mapping : Type 0 where
  no_table : Mapping
  mapped_to : ℕ → Mapping
  unmapped : Mapping

pub get_mapping : ℕ → Vmm → Mapping
get_mapping va v =
    let word = page_table_word v (va / 0x1000) in
    if v.page_directory (page_dir_idx (va / 0x1000)) == 0
    then no_table
    else if word == 0
    then unmapped
    else mapped_to (word / 0x1000 * 0x1000)
