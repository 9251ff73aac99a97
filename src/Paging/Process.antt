-- ===== src/Paging/Process.antt =====
-- code/mem/vmm.c: what the directory of a further process maps.
use hobby_kernel.Common.{
  ℕ, ◌*◌, ◌≡◌, ◌≢◌, ◌∙◌, refl, sym, subst, ap, arith, ◌==◌, if◌then◌else◌, if_cases, ok, ◌>>=◌,
  Safely, Safely->>=,
}
use hobby_kernel.Pmm.Pages.{InUse}
use hobby_kernel.Vmm.{Vmm, write_word, unmap_page, get_mapping, unmapped}
use hobby_kernel.Paging.{
  pd_window, pt_window, add_identity, add_own, open_directory, create_process_directory,
  create_page_directory, create_kernel_directory, Paging,
}
use hobby_kernel.Paging.Directory.{Maps, Made-Maps}
use hobby_kernel.Paging.Window.{unmap_page-table, get_mapping-closed}
use hobby_kernel.Paging.Additions.{
  Added, identity_made, own_made, add_identity-Added, add_own-Added,
}
use hobby_kernel.Paging.Opened.{Host, Opened, open_directory-Opened}
use hobby_kernel.Paging.Filled.{final, final-Made, final-others, final-closed}

-- A directory in a page that was free, by which the processor's walk finds what the first directory
-- maps. No page that was in use has changed but those of the current directory and of the table for
-- the windows, and both windows are closed again.
pub record Makes (base : ℕ) (v : Vmm) (r : ℕ × Vmm) : Type 0 where
  pub pd : ℕ
  pub first : ℕ
  pub last : ℕ
  pub table : ℕ
  pub address : r.0 ≡ pd * 0x1000
  pub maps : Maps pd first last r.1.words r.1.words
  pub new : (n : ℕ) → InUse base v.pmm n → (n ≢ pd) × (n ≢ first) × (n ≢ last)
  pub others :
      (q j : ℕ)
      → InUse base v.pmm q
      → q ≢ table
      → q ≢ v.directory_page
      → r.1.words q j ≡ v.words q j
  pub same_directory : (i : ℕ) → i ≢ 490 → r.1.page_directory i ≡ v.page_directory i
  pub closed : (get_mapping pd_window r.1 ≡ unmapped) × (get_mapping pt_window r.1 ≡ unmapped)
  pub host : Host base r.1

module _ (base : ℕ) (v : Vmm) (r : ℕ × Vmm) (o : Opened base v r) (v2 : Vmm)
    (i : Added base o.table o.pd v.directory_page (identity_made o.table o.pd) r.1 v2) (v3 : Vmm)
    (w : Added base o.table o.pd v.directory_page (own_made o.table o.pd) v2 v3) where
  abbrev v4 : Vmm
  v4 = record v3 { words = write_word v3.words o.table 787 0 }

  a1 : o.table ≢ o.pd
  a1 = o.opened.apart.0

  a2 : o.table ≢ i.page
  a2 = i.new o.table o.opened.table_used

  a3 : o.table ≢ w.page
  a3 = w.new o.table i.opened.table_used

  b1 : o.pd ≢ i.page
  b1 = i.new o.pd o.opened.pd_used

  b2 : o.pd ≢ w.page
  b2 = w.new o.pd i.opened.pd_used

  b3 : i.page ≢ w.page
  b3 = w.new i.page i.used

  words_lem : v4.words ≡ final o.table o.pd i.page w.page r.1.words
  words_lem =
      ap (λ u. write_word u o.table 787 0) (w.words ∙ ap (own_made o.table o.pd w.page) i.words)

  new_pages : (n : ℕ) → InUse base v.pmm n → (n ≢ o.pd) × (n ≢ i.page) × (n ≢ w.page)
  new_pages n u = (o.new n u, i.new n (o.keeps n u), w.new n (i.keeps n (o.keeps n u)))

  v4-Makes : Makes base v (r.0, v4)
  v4-Makes = record {
    pd = o.pd;
    first = i.page;
    last = w.page;
    table = o.table;
    address = o.address;
    maps =
        subst (λ u. Maps o.pd i.page w.page u u) (sym words_lem)
          (Made-Maps o.pd i.page w.page _ _
            (final-Made o.table o.pd i.page w.page r.1.words a1 a2 a3 b1 b2 b3 o.cleared));
    new = new_pages;
    others = λ q j u c d.
        let n = new_pages q u in
        ap (λ f. f q j) words_lem
        ∙ final-others o.table o.pd i.page w.page r.1.words a1 a2 a3 b1 b2 b3 q j n.0 n.1 n.2 c
        ∙ o.others q j n.0 c d;
    same_directory =
        λ k ne. ap (λ d. d k) (w.same_directory ∙ i.same_directory) ∙ o.same_directory k ne;
    closed =
        let c = final-closed o.table o.pd i.page w.page r.1.words a1 a2 a3 b1 b2 b3 in
        (
          get_mapping-closed pd_window o.table v4 w.opened.entry
              (ap (λ f. f o.table 787) words_lem ∙ c.0),
          get_mapping-closed pt_window o.table v4 w.opened.entry
              (ap (λ f. f o.table 788) words_lem ∙ c.1),
        );
    host = record {
      layout = w.opened.layout;
      current = subst (InUse base v3.pmm) (sym w.opened.current) w.opened.home_used;
      table = o.table;
      entry = w.opened.entry;
      table_used = w.opened.table_used;
      table_own = λ e. o.opened.apart.2 (e ∙ w.opened.current);
    };
  }

-- Unless the machine runs out of pages, when it panics, `create_page_directory` for a further process
-- returns with a directory that maps what the kernel's first one does, in pages that were free; but for
-- the table of the windows and the entry for it, nothing in use has changed, and the windows are
-- closed.
pub create_process_directory-Makes :
    (base : ℕ) (v : Vmm) → Host base v → Safely (Makes base v) (create_process_directory v)
unfolding create_process_directory
create_process_directory-Makes base v h =
    let close = λ (r : ℕ × Vmm) (v3 : Vmm). unmap_page pd_window v3 >>= λ v4. ok (r.0, v4) in
    let rest = λ (r : ℕ × Vmm). add_identity r.1 >>= λ v2. add_own r.0 v2 >>= λ v3. close r v3 in
    Safely->>= (Opened base v) (Makes base v) (open_directory v) rest
      (open_directory-Opened base v h)
      λ r o.
        let I = Added base o.table o.pd v.directory_page (identity_made o.table o.pd) r.1 in
        Safely->>= I (Makes base v) (add_identity r.1) (λ v2. add_own r.0 v2 >>= close r)
          (add_identity-Added base o.table o.pd v.directory_page r.1 o.opened)
          λ v2 i.
            let W = Added base o.table o.pd v.directory_page (own_made o.table o.pd) v2 in
            Safely->>= W (Makes base v) (add_own r.0 v2) (close r)
              (subst (λ a. Safely W (add_own a v2)) (sym o.address)
                (add_own-Added base o.table o.pd v.directory_page v2 i.opened))
              λ v3 w.
                subst (λ m. Safely (Makes base v) (m >>= λ v4. ok (r.0, v4)))
                  (sym (
                    unmap_page-table pd_window o.table v3 w.opened.entry
                      (λ e. o.opened.apart.2 (e ∙ w.opened.current))))
                  (v4-Makes base v r o v2 i v3 w)

abbrev pub MakesFor : (base : ℕ) (s : Paging) → ℕ × Paging → Type 0
MakesFor base s r = Makes base s.vmm (r.0, r.1.vmm) × (r.1 ≡ record s { vmm = r.1.vmm })

-- The same for `create_page_directory`, when there is a kernel directory.
pub create_page_directory-Makes :
    (base : ℕ) (s : Paging)
    → s.kernel_page_directory ≢ 0
    → Host base s.vmm
    → Safely (MakesFor base s) (create_page_directory s)
unfolding create_page_directory
create_page_directory-Makes base s some_kernel h =
    Safely->>= (Makes base s.vmm) (MakesFor base s)
      (if s.kernel_page_directory == 0
        then create_kernel_directory s.vmm
        else create_process_directory s.vmm)
      (λ r. ok (r.0, record s { vmm = r.1 }))
      (if_cases (Safely (Makes base s.vmm)) (s.kernel_page_directory == 0)
        (create_kernel_directory s.vmm) (create_process_directory s.vmm)
        (λ e. absurd (ground (arith, some_kernel, e)))
        λ e. create_process_directory-Makes base s.vmm h)
      λ r m. (m, refl)
