-- ===== src/Vmm/Enough.antt =====
-- code/mem/vmm.c: `map` takes one page at most.
use hobby_kernel.Common.{
  ℕ, ◌+◌, ◌*◌, ◌%◌, ◌^◌, ◌||◌, ◌/◌, ◌==◌, if◌then◌else◌, if_cases, List, ◌∷◌, ok, fault, NoPanic,
  NoPanic->>=, Returns-NoPanic,
}
use hobby_kernel.Pmm.{alloc_page}
use hobby_kernel.Pmm.Enough.{Stock, Stock-drop, alloc_page-Stock}
use hobby_kernel.Common.Chain.{write}
use hobby_kernel.Vmm.{
  present_write, write_word, Vmm, edit_page, zero_bytes_at, clear_behind, clear_before,
  page_table_word, new_table, map_page, page_dir_idx, unmap_page, set_word,
}

edit_page-Stock :
    (xs : List ℕ) (va : ℕ) (change : (ℕ → ℕ) → ℕ → ℕ) (v : Vmm)
    → Stock xs v.pmm
    → NoPanic (λ v'. Stock xs v'.pmm) (edit_page va change v)
unfolding edit_page
edit_page-Stock xs va change v s =
    let word = page_table_word v (va / 0x1000) in
    let page = word / 0x1000 in
    if_cases (NoPanic λ v'. Stock xs v'.pmm)
      (v.page_directory (page_dir_idx (va / 0x1000)) % 2 == 0 || (word % 2 == 0)) fault
      (ok (record v {
        words = λ q. if q == page then change (v.words q) else v.words q;
        page_directory =
            if page == v.directory_page then change v.page_directory else v.page_directory;
      }))
      (λ e. tt) λ e. s

zero_bytes_at-Stock :
    (xs : List ℕ) (start : ℕ) (v : Vmm)
    → Stock xs v.pmm
    → NoPanic (λ v'. Stock xs v'.pmm) (zero_bytes_at start v)
unfolding zero_bytes_at
zero_bytes_at-Stock xs start v s =
    let P = λ (v' : Vmm). Stock xs v'.pmm in
    NoPanic->>= P P (edit_page start (clear_behind (start % 0x1000)) v) _
      (edit_page-Stock xs start (clear_behind (start % 0x1000)) v s)
      λ v' t.
        let second = (start + 0x1000) % 2 ^ 32 in
        if_cases (NoPanic P) (start % 0x1000 == 0) (ok v')
          (edit_page second (clear_before (start % 0x1000)) v') (λ e. t)
          λ e. edit_page-Stock xs second (clear_before (start % 0x1000)) v' t

new_table-Stock :
    (x : ℕ) (xs : List ℕ) (i : ℕ) (v : Vmm)
    → Stock (x ∷ xs) v.pmm
    → NoPanic (λ v'. Stock xs v'.pmm) (new_table i v)
unfolding new_table
new_table-Stock x xs i v s =
    NoPanic->>= (λ r. Stock xs r.1) (λ v'. Stock xs v'.pmm) (alloc_page v.pmm) _
      (Returns-NoPanic (λ r. Stock xs r.1) (alloc_page v.pmm) (alloc_page-Stock x xs v.pmm s))
      λ r t.
        let v' = record v {
          page_directory = write v.page_directory i (r.0 + present_write);
          words = write_word v.words v.directory_page i (r.0 + present_write);
          pmm = r.1;
        } in
        zero_bytes_at-Stock xs (page_table_word v' (i * 1024)) v' t

pub map_page-Stock :
    (x : ℕ) (xs : List ℕ) (va pa flags : ℕ) (v : Vmm)
    → Stock (x ∷ xs) v.pmm
    → NoPanic (λ v'. Stock xs v'.pmm) (map_page va pa flags v)
unfolding map_page
map_page-Stock x xs va pa flags v s =
    let P = λ (v' : Vmm). Stock xs v'.pmm in
    let i = page_dir_idx (va / 0x1000) in
    NoPanic->>= P P (if v.page_directory i == 0 then new_table i v else ok v) _
      (if_cases (NoPanic P) (v.page_directory i == 0) (new_table i v) (ok v)
        (λ e. new_table-Stock x xs i v s) λ e. Stock-drop x xs v.pmm s)
      λ v' t. t

pub unmap_page-Stock :
    (xs : List ℕ) (va : ℕ) (v : Vmm)
    → Stock xs v.pmm
    → NoPanic (λ v'. Stock xs v'.pmm) (unmap_page va v)
unfolding unmap_page
unmap_page-Stock xs va v s =
    if_cases (NoPanic λ v'. Stock xs v'.pmm) (v.page_directory (page_dir_idx (va / 0x1000)) == 0)
      fault (ok (set_word (va / 0x1000) 0 v)) (λ e. tt) λ e. s
