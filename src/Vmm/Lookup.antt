-- ===== src/Vmm/Lookup.antt =====
-- code/mem/vmm.c: what `get_mapping` reads behind `map` and `unmap`.
use hobby_kernel.Common.{ℕ, ◌+◌, ◌*◌, ◌/◌, ◌%◌, ◌<◌, ◌≡◌, ◌≢◌, ap, sym, ◌∙◌, ok, false, arith, ◌==◌}
use hobby_kernel.Vmm.Present.{set_word-plain, map_page-present}
use hobby_kernel.Vmm.{
  Vmm, map_page, get_mapping, mapped_to, page_dir_idx, set_word, page_table_word, write_word,
}

-- The directory has a table for the page.
abbrev pub HasTable : Vmm → ℕ → Type 0
HasTable v va = v.page_directory (page_dir_idx (va / 0x1000)) ≢ 0

-- Different entries of the directory, where there are some, name different tables.
abbrev pub Separate : Vmm → Type 0
Separate v =
    (i j : ℕ)
    → v.page_directory i ≢ 0
    → v.page_directory j ≢ 0
    → v.page_directory i / 0x1000 ≡ v.page_directory j / 0x1000
    → i ≡ j

-- The last entry of the directory names the directory itself, and no two entries name the same table.
pub record Directory (v : Vmm) : Type 0 where
  pub separate : Separate v
  pub some_last : v.page_directory 1023 ≢ 0
  pub last : v.page_directory 1023 / 0x1000 ≡ v.directory_page

-- The tables of addresses below the last 4 MB are not the directory.
table-plain :
    (va : ℕ) (v : Vmm)
    → HasTable v va
    → Directory v
    → va < 0xFFC00000
    → v.page_directory (page_dir_idx (va / 0x1000)) / 0x1000 ≢ v.directory_page
table-plain va v t d low e =
    omega (arith, d.separate (va / 0x1000 / 1024) 1023 t d.some_last (e ∙ sym d.last))

-- The state with one word changed.
abbrev pub with_word : ℕ → ℕ → Vmm → Vmm
with_word va w v = record v {
  words =
      write_word v.words (v.page_directory (page_dir_idx (va / 0x1000)) / 0x1000)
        (va / 0x1000 % 1024) w;
}

pub get_mapping-set_word :
    (va pa flags : ℕ) (v : Vmm)
    → HasTable v va
    → 0 < flags
    → flags < 0x1000
    → get_mapping va (with_word va (pa / 0x1000 * 0x1000 + flags) v)
      ≡ mapped_to (pa / 0x1000 * 0x1000)
unfolding get_mapping
get_mapping-set_word va pa flags v t pos small =
    let some_table : (v.page_directory (page_dir_idx (va / 0x1000)) == 0) ≡ false =
      ground (arith, t) in
    let hit : page_table_word (with_word va (pa / 0x1000 * 0x1000 + flags) v) (va / 0x1000)
        ≡ pa / 0x1000 * 0x1000 + flags =
      ground arith in
    let used : (pa / 0x1000 * 0x1000 + flags == 0) ≡ false = ground arith in
    let address : (pa / 0x1000 * 0x1000 + flags) / 0x1000 * 0x1000 ≡ pa / 0x1000 * 0x1000 =
      omega arith in
    rw (some_table, hit, used) (ap mapped_to address)

set_word-with_word :
    (va w : ℕ) (v : Vmm)
    → HasTable v va
    → Directory v
    → va < 0xFFC00000
    → set_word (va / 0x1000) w v ≡ with_word va w v
set_word-with_word va w v t d low = set_word-plain (va / 0x1000) w v (table-plain va v t d low)

pub map_page-with_word :
    (va pa flags : ℕ) (v : Vmm)
    → HasTable v va
    → Directory v
    → va < 0xFFC00000
    → map_page va pa flags v ≡ ok (with_word va (pa / 0x1000 * 0x1000 + flags) v)
map_page-with_word va pa flags v t d low =
    map_page-present va pa flags v t
    ∙ ap ok (set_word-with_word va (pa / 0x1000 * 0x1000 + flags) v t d low)
