-- ===== src/Paging.antt =====
-- code/mem/vmm.c: page directories, and the start of paging.
pub mod Walk
pub mod Directory
pub mod Started
pub mod Window
pub mod Additions
pub mod Opened
pub mod Filled
pub mod Process
pub mod Enough
use hobby_kernel.Common.{
  ℕ, zero, suc, ◌+◌, ◌*◌, ◌/◌, ◌%◌, ◌^◌, true, ◌&&◌, Option, none, some, ◌==◌, ltb, if◌then◌else◌,
  Outcome, ok, fault, ◌||◌, ◌>>=◌,
}
use hobby_kernel.Pmm.{Pmm, alloc_page, fill_bitmap}
use hobby_kernel.Common.Chain.{write}
use hobby_kernel.Vmm.{
  Vmm, present_write, page_dir_idx, page_table_word, write_word, map_page, unmap_page, edit_page,
}

-- The globals `kernel_page_directory` and `current_page_directory`, and the register cr3.
pub record Paging : Type 0 where
  pub vmm : Vmm
  pub kernel_page_directory : ℕ
  pub current_page_directory : ℕ
  pub cr3 : ℕ

-- `memset(page, 0, 0x1000)`, on the words of a page.
abbrev pub zero_page : ℕ → (ℕ → ℕ → ℕ) → ℕ → ℕ → ℕ
zero_page page words q j = if q == page && ltb j 1024 then 0 else words q j

-- The loop over the words of the first table, from the last one down; `n` are left. The order makes no
-- difference.
fill_identity : (n page : ℕ) → (ℕ → ℕ → ℕ) → ℕ → ℕ → ℕ
fill_identity zero page words = words
fill_identity (suc n) page words =
    write_word (fill_identity n page words) page n (n * 0x1000 + present_write)

-- The words behind the calls of `pmm_alloc_page`, which return `pd`, `first` and `last`. Pages begin at
-- multiples of 0x1000, so that `|` is addition. Paging is off, and addresses are physical.
make_directory : (pd first last : ℕ) → (ℕ → ℕ → ℕ) → ℕ → ℕ → ℕ
unfolding fill_identity
make_directory pd first last words =
    let w1 = write_word (zero_page (pd / 0x1000) words) (pd / 0x1000) 0 (first + present_write) in
    let w2 = fill_identity 1024 (first / 0x1000) w1 in
    let w3 = write_word w2 (pd / 0x1000) 1022 (last + present_write) in
    let w4 = zero_page (last / 0x1000) w3 in
    let w5 = write_word w4 (last / 0x1000) 1023 (pd + present_write) in
    write_word w5 (pd / 0x1000) 1023 (pd + present_write)

-- `create_page_directory` while there is no kernel directory.
pub create_kernel_directory : Vmm → Outcome (ℕ × Vmm)
unfolding make_directory
create_kernel_directory v = alloc_page v.pmm >>= λ (pd, p1). alloc_page p1 >>= λ (first, p2).
    alloc_page p2 >>= λ (last, p3).
    ok (pd, record v { words = make_directory pd first last v.words; pmm = p3 })

-- The virtual pages at which the pages of a further directory are mapped while it is made: `pd`, and
-- `pt` behind it.
abbrev pub pd_window : ℕ
pd_window = 0x7AB13000

abbrev pub pt_window : ℕ
pt_window = 0x7AB14000

-- `memset(page, 0, 0x1000)`
abbrev pub clear_words : (ℕ → ℕ) → ℕ → ℕ
clear_words w j = if ltb j 1024 then 0 else w j

-- The loop over the words of the first table, as in `fill_identity`.
pub identity_words : ℕ → (ℕ → ℕ) → ℕ → ℕ
identity_words zero w = w
identity_words (suc n) w = write (identity_words n w) n (n * 0x1000 + present_write)

-- A page for the directory, and its window.
pub open_directory : Vmm → Outcome (ℕ × Vmm)
unfolding edit_page
open_directory v = alloc_page v.pmm >>= λ (pd, p).
    map_page pd_window pd present_write (record v { pmm = p }) >>= λ v1.
    edit_page pd_window clear_words v1 >>= λ v2. ok (pd, v2)

-- The table for the first 4 MB.
pub add_identity : Vmm → Outcome Vmm
unfolding edit_page identity_words
add_identity v = alloc_page v.pmm >>= λ (first, p).
    edit_page pd_window (λ w. write w 0 (first + present_write)) (record v { pmm = p }) >>= λ v1.
    map_page pt_window first present_write v1 >>= λ v2.
    edit_page pt_window (identity_words 1024) v2 >>= λ v3. unmap_page pt_window v3

-- The second-last table, and the two entries that name the directory.
pub add_own : ℕ → Vmm → Outcome Vmm
unfolding edit_page
add_own pd v = alloc_page v.pmm >>= λ (last, p).
    edit_page pd_window (λ w. write w 1022 (last + present_write)) (record v { pmm = p }) >>= λ v1.
    map_page pt_window last present_write v1 >>= λ v2. edit_page pt_window clear_words v2 >>= λ v3.
    edit_page pt_window (λ w. write w 1023 (pd + present_write)) v3 >>= λ v4.
    edit_page pd_window (λ w. write w 1023 (pd + present_write)) v4 >>= λ v5.
    unmap_page pt_window v5

-- `create_page_directory` when there is a kernel directory: the new pages are written through the
-- current one.
pub create_process_directory : Vmm → Outcome (ℕ × Vmm)
unfolding open_directory add_identity add_own
create_process_directory v = open_directory v >>= λ (pd, v1).
    add_identity v1 >>= λ v2. add_own pd v2 >>= λ v3. unmap_page pd_window v3 >>= λ v4. ok (pd, v4)

pub create_page_directory : Paging → Outcome (ℕ × Paging)
unfolding create_kernel_directory create_process_directory
create_page_directory s =
    (if s.kernel_page_directory == 0
      then create_kernel_directory s.vmm
      else create_process_directory s.vmm)
    >>= λ (pd, v). ok (pd, record s { vmm = v })

-- The current directory is the page that cr3 names, with the words that it has now.
unfoldable pub switch_page_directory : ℕ → Paging → Paging
switch_page_directory pd s = record s {
  current_page_directory = pd;
  cr3 = pd;
  vmm = record s.vmm { page_directory = s.vmm.words (pd / 0x1000); directory_page = pd / 0x1000 };
}

-- `map_pmm_to_virtual_space`, with its call of `map`.
map_bitmap : Vmm → Outcome Vmm
map_bitmap v = map_page v.pmm.bitmap v.pmm.bitmap present_write v >>= λ v'.
    ok (record v' { pmm = fill_bitmap v'.pmm })

pub init_vmm : Paging → Outcome Paging
unfolding create_page_directory switch_page_directory map_bitmap
init_vmm s = create_page_directory s >>= λ (pd, s').
    let on = switch_page_directory pd (record s' { kernel_page_directory = pd }) in
    map_bitmap on.vmm >>= λ vmm'.
    ok (record on { vmm = record vmm' { pmm = record vmm'.pmm { paging_active = true } } })
