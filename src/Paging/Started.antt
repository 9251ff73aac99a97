-- ===== src/Paging/Started.antt =====
-- code/mem/vmm.c: what is mapped when paging is on.
use hobby_kernel.Common.{
  ℕ, ◌+◌, ◌*◌, ◌/◌, ◌%◌, ◌^◌, ◌≤◌, ◌<◌, ◌≡◌, ◌∙◌, refl, sym, subst, ap, arith, true, false, ok,
  ◌==◌, if◌then◌else◌, if_cases, ◌>>=◌, Returns, Returns->>=,
}
use hobby_kernel.Pmm.{Pmm, fill_bitmap, skipped_indices}
use hobby_kernel.Pmm.Bits.{HasBytes}
use hobby_kernel.Pmm.Invariant.{Inv}
use hobby_kernel.Pmm.Setup.{fill_bitmap-Inv}
use hobby_kernel.Vmm.{Vmm, get_mapping, mapped_to, no_table, write_word, page_table_word}
use hobby_kernel.Vmm.Present.{
  set_word-plain, map_page-present, get_mapping-present, get_mapping-no_table,
}
use hobby_kernel.Paging.Walk.{page_of}
use hobby_kernel.Paging.{
  Paging, init_vmm, create_kernel_directory, create_process_directory, create_page_directory,
  switch_page_directory, map_bitmap,
}
use hobby_kernel.Paging.Directory.{Creates, Made, between, create_kernel_directory-Creates}

-- Every address of the first 4 MB is mapped to itself, by `get_mapping`, and none between there and the
-- last two tables; the directory is the kernel's, the current one, and the processor's; and the page
-- allocator, which was `p`, is ready.
pub record On (n : ℕ) (p : Pmm) (s' : Paging) : Type 0 where
  pub low : (va : ℕ) → va < 2 ^ 22 → get_mapping va s'.vmm ≡ mapped_to (va / 0x1000 * 0x1000)
  pub middle : (va : ℕ) → 2 ^ 22 ≤ va → va < 1022 * 2 ^ 22 → get_mapping va s'.vmm ≡ no_table
  pub directory : s'.cr3 ≡ (n + 1) * 0x1000
  pub same : (s'.kernel_page_directory ≡ s'.cr3) × (s'.current_page_directory ≡ s'.cr3)
  pub allocator : Inv s'.vmm.pmm
  pub home : s'.vmm.directory_page ≡ n + 1
  pub entries : (i : ℕ) → 1 ≤ i → i < 1022 → s'.vmm.page_directory i ≡ 0
  pub pages : s'.vmm.pmm ≡ record (fill_bitmap (record p { location = (n + 1 + 1 + 1) * 0x1000 })) {
    paging_active = true;
  }

-- The write of a word that is there already.
rewrite_word :
    (words : ℕ → ℕ → ℕ) (page i w q j : ℕ)
    → words page i ≡ w
    → write_word words page i w q j ≡ words q j
rewrite_word words page i w q j h = ground (arith, h)

-- Below 4 MB, with the first table of the directory in the page `first`.
module _ (pd first last : ℕ) (words words1 : ℕ → ℕ → ℕ) (m : Made pd first last words words1)
    (v : Vmm) (dir : v.page_directory ≡ words1 pd)
    (same : (q j : ℕ) → v.words q j ≡ words1 q j) where
  entry_0 : v.page_directory 0 ≡ first * 0x1000 + 3
  entry_0 = ap (λ d. d 0) dir ∙ m.directory 0 (omega arith)

  low_entry : (va : ℕ) → va < 2 ^ 22 → v.page_directory (va / 0x1000 / 1024) ≡ first * 0x1000 + 3
  low_entry va l = ap v.page_directory (omega (arith, l)) ∙ entry_0

  low_word : (va : ℕ) → va < 2 ^ 22 → page_table_word v (va / 0x1000) ≡ va / 0x1000 * 0x1000 + 3
  low_word va l =
      ap (λ e. v.words (e / 0x1000) (va / 0x1000 % 1024)) (low_entry va l)
      ∙ ap (λ q. v.words q (va / 0x1000 % 1024)) (page_of first)
      ∙ same first (va / 0x1000 % 1024)
      ∙ m.identity (va / 0x1000 % 1024) (omega arith)
      ∙ omega (arith, l)

  low_mapping : (va : ℕ) → va < 2 ^ 22 → get_mapping va v ≡ mapped_to (va / 0x1000 * 0x1000)
  low_mapping va l =
      get_mapping-present va (va / 0x1000) v (λ z. omega (arith, z, low_entry va l)) (low_word va l)

  middle_mapping : (va : ℕ) → 2 ^ 22 ≤ va → va < 1022 * 2 ^ 22 → get_mapping va v ≡ no_table
  middle_mapping va l h = get_mapping-no_table va v (
      ap (λ d. d (va / 0x1000 / 1024)) dir
      ∙ m.directory (va / 0x1000 / 1024) (omega (arith, h))
      ∙ between (va / 0x1000 / 1024) (first * 0x1000 + 3) (last * 0x1000 + 3) (pd * 0x1000 + 3)
          (omega (arith, l)) (omega (arith, h)))

abbrev CreatesFirst : ℕ → Paging → ℕ × Paging → Type 0
CreatesFirst n s r = Creates n s.vmm (r.0, r.1.vmm)

create_page_directory-first :
    (n : ℕ) (s : Paging)
    → s.kernel_page_directory ≡ 0
    → Returns (Creates n s.vmm) (create_kernel_directory s.vmm)
    → Returns (CreatesFirst n s) (create_page_directory s)
unfolding create_page_directory
create_page_directory-first n s first h =
    Returns->>= (Creates n s.vmm) (CreatesFirst n s)
      (if s.kernel_page_directory == 0
        then create_kernel_directory s.vmm
        else create_process_directory s.vmm)
      (λ r. ok (r.0, record s { vmm = r.1 }))
      (if_cases (Returns (Creates n s.vmm)) (s.kernel_page_directory == 0)
        (create_kernel_directory s.vmm) (create_process_directory s.vmm) (λ e. h)
        λ e. absurd (ground (arith, first, e)))
      λ r c. c

-- With no kernel directory yet, the bitmap below 4 MB, and few enough pages in front of the last one handed out, `init_vmm`
-- returns with paging on.
pub init_vmm-On :
    (n : ℕ) (s : Paging)
    → s.kernel_page_directory ≡ 0
    → s.vmm.pmm.paging_active ≡ false
    → s.vmm.pmm.location ≡ n * 0x1000
    → n + 3 < 2 ^ 20
    → s.vmm.pmm.bitmap < 2 ^ 22
    → HasBytes s.vmm.pmm
    → skipped_indices (record s.vmm.pmm { location = (n + 1 + 1 + 1) * 0x1000 }) ≤ 2048
    → Returns (On n s.vmm.pmm) (init_vmm s)
unfolding init_vmm switch_page_directory map_bitmap
init_vmm-On n s first off e l b bytes few =
    let switched =
      λ (r : ℕ × Paging). switch_page_directory r.0 (record r.1 { kernel_page_directory = r.0 }) in
    let finished = λ (r : ℕ × Paging) (v : Vmm). record (switched r) {
      vmm = record v { pmm = record v.pmm { paging_active = true } };
    } in
    let filled = λ (v : Vmm). record v { pmm = fill_bitmap v.pmm } in
    let rest = λ (r : ℕ × Paging). map_bitmap (switched r).vmm >>= λ v. ok (finished r v) in
    Returns->>= (CreatesFirst n s) (On n s.vmm.pmm) (create_page_directory s) rest
      (create_page_directory-first n s first (create_kernel_directory-Creates n s.vmm off e l))
      λ r c.
        let on = (switched r).vmm in
        let a = on.pmm.bitmap in
        let v = record on {
          words =
              write_word on.words (on.page_directory (a / 0x1000 / 1024) / 0x1000)
                (a / 0x1000 % 1024) (a / 0x1000 * 0x1000 + 3);
        } in
        let small : a < 2 ^ 22 = subst (λ (p : Pmm). p.bitmap < 2 ^ 22) (sym c.pmm) b in
        let dir : on.page_directory ≡ r.1.vmm.words (n + 1) =
          ap r.1.vmm.words (ap (λ p. p / 0x1000) c.address ∙ omega arith) in
        let made = c.made in
        let entry =
          low_entry (n + 1) (n + 1 + 1) (n + 1 + 1 + 1) s.vmm.words r.1.vmm.words made on dir
            (λ q j. refl) a small in
        let word =
          low_word (n + 1) (n + 1 + 1) (n + 1 + 1 + 1) s.vmm.words r.1.vmm.words made on dir
            (λ q j. refl) a small in
        let same = λ (q j : ℕ).
          rewrite_word on.words (on.page_directory (a / 0x1000 / 1024) / 0x1000) (a / 0x1000 % 1024)
            (a / 0x1000 * 0x1000 + 3) q j word in
        subst
          (λ o. Returns (On n s.vmm.pmm) (o >>= (λ v'. ok (filled v')) >>= λ v. ok (finished r v)))
          (sym (
            map_page-present a a 3 on (λ z. omega (arith, z, entry))
            ∙ ap ok (
                set_word-plain (a / 0x1000) (a / 0x1000 * 0x1000 + 3) on
                  (λ z. omega (arith, z, entry, c.address)))))
          (record {
            low =
                low_mapping (n + 1) (n + 1 + 1) (n + 1 + 1 + 1) s.vmm.words r.1.vmm.words made
                  ((finished r (filled v)).vmm) dir same;
            middle =
                middle_mapping (n + 1) (n + 1 + 1) (n + 1 + 1 + 1) s.vmm.words r.1.vmm.words made
                  ((finished r (filled v)).vmm) dir same;
            directory = c.address;
            same = (refl, refl);
            home = ap (λ a. a / 0x1000) c.address ∙ omega arith;
            entries = λ i l h.
                ap (λ d. d i) dir
                ∙ made.directory i (omega (arith, h))
                ∙ between i ((n + 1 + 1) * 0x1000 + 3) ((n + 1 + 1 + 1) * 0x1000 + 3)
                    ((n + 1) * 0x1000 + 3) l h;
            pages = ap (λ p. record (fill_bitmap p) { paging_active = true }) c.pmm;
            allocator =
                subst (λ p. Inv (record (fill_bitmap p) { paging_active = true })) (sym c.pmm)
                  (fill_bitmap-Inv (record s.vmm.pmm { location = (n + 1 + 1 + 1) * 0x1000 }) bytes
                    few);
          })
