-- ===== src/Vmm/Present.antt =====
-- code/mem/vmm.c: `map`, `unmap` and `get_mapping` where the words of the tables are known.
use hobby_kernel.Common.{
  ℕ, ◌+◌, ◌*◌, ◌/◌, ◌%◌, ◌≡◌, ◌≢◌, ◌∙◌, ap, arith, ◌==◌, if◌then◌else◌, if_false, if_true, ok,
  fault, ◌>>=◌,
}
use hobby_kernel.Common.Chain.{write}
use hobby_kernel.Vmm.{
  Vmm, no_table, unmapped, mapped_to, new_table, map_page, unmap_page, get_mapping, set_word,
  page_table_word, write_word,
}

-- A word of a table that is not the directory.
pub set_word-plain :
    (virtual_page w : ℕ) (v : Vmm)
    → v.page_directory (virtual_page / 1024) / 0x1000 ≢ v.directory_page
    → set_word virtual_page w v ≡ record v {
      words =
          write_word v.words
            (v.page_directory (virtual_page / 1024) / 0x1000)
            (virtual_page % 1024)
            w;
    }
set_word-plain virtual_page w v h =
    let table = v.page_directory (virtual_page / 1024) / 0x1000 in
    ap
      (λ (d : ℕ → ℕ). record v {
        words = write_word v.words table (virtual_page % 1024) w;
        page_directory = d;
      })
      (if_false (table == v.directory_page) (write v.page_directory (virtual_page % 1024) w)
        v.page_directory (ground (arith, h)))

-- With a table for the page, `map` writes one word.
pub map_page-present :
    (va pa flags : ℕ) (v : Vmm)
    → v.page_directory (va / 0x1000 / 1024) ≢ 0
    → map_page va pa flags v ≡ ok (set_word (va / 0x1000) (pa / 0x1000 * 0x1000 + flags) v)
unfolding map_page
map_page-present va pa flags v h =
    ap (λ o. o >>= λ v'. ok (set_word (va / 0x1000) (pa / 0x1000 * 0x1000 + flags) v'))
      (if_false (v.page_directory (va / 0x1000 / 1024) == 0) (new_table (va / 0x1000 / 1024) v)
        (ok v) (ground (arith, h)))

pub get_mapping-present :
    (va target : ℕ) (v : Vmm)
    → v.page_directory (va / 0x1000 / 1024) ≢ 0
    → page_table_word v (va / 0x1000) ≡ target * 0x1000 + 3
    → get_mapping va v ≡ mapped_to (target * 0x1000)
unfolding get_mapping
get_mapping-present va target v h e =
    let found = λ (word : ℕ). if word == 0 then unmapped else mapped_to (word / 0x1000 * 0x1000) in
    if_false (v.page_directory (va / 0x1000 / 1024) == 0) no_table
      (found (page_table_word v (va / 0x1000))) (ground (arith, h))
    ∙ ap found e
    ∙ if_false (target * 0x1000 + 3 == 0) unmapped
        (mapped_to ((target * 0x1000 + 3) / 0x1000 * 0x1000)) (ground arith)
    ∙ ap (λ page. mapped_to (page * 0x1000)) (omega arith)

pub get_mapping-no_table :
    (va : ℕ) (v : Vmm) → v.page_directory (va / 0x1000 / 1024) ≡ 0 → get_mapping va v ≡ no_table
unfolding get_mapping
get_mapping-no_table va v h =
    let word = page_table_word v (va / 0x1000) in
    if_true (v.page_directory (va / 0x1000 / 1024) == 0) no_table
      (if word == 0 then unmapped else mapped_to (word / 0x1000 * 0x1000)) (ground (arith, h))

pub unmap_page-present :
    (va : ℕ) (v : Vmm)
    → v.page_directory (va / 0x1000 / 1024) ≢ 0
    → unmap_page va v ≡ ok (set_word (va / 0x1000) 0 v)
unfolding unmap_page
unmap_page-present va v h =
    if_false (v.page_directory (va / 0x1000 / 1024) == 0) fault (ok (set_word (va / 0x1000) 0 v))
      (ground (arith, h))

pub get_mapping-unmapped :
    (va : ℕ) (v : Vmm)
    → v.page_directory (va / 0x1000 / 1024) ≢ 0
    → page_table_word v (va / 0x1000) ≡ 0
    → get_mapping va v ≡ unmapped
unfolding get_mapping
get_mapping-unmapped va v h e =
    let found = λ (word : ℕ). if word == 0 then unmapped else mapped_to (word / 0x1000 * 0x1000) in
    if_false (v.page_directory (va / 0x1000 / 1024) == 0) no_table
      (found (page_table_word v (va / 0x1000))) (ground (arith, h))
    ∙ ap found e
