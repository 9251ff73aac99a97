-- ===== src/Paging/Opened.antt =====
-- code/mem/vmm.c: the page of a further process's directory, and the window that shows it.
use hobby_kernel.Common.{
  ℕ, ◌+◌, ◌*◌, ◌<◌, ◌≡◌, ◌≢◌, ◌∙◌, refl, sym, subst, arith, ok, ◌>>=◌, Safely, Safely->>=,
  Safely-Returns,
}
use hobby_kernel.Pmm.{Pmm, alloc_page}
use hobby_kernel.Pmm.Pages.{Layout, InUse, Fresh, alloc_page-Fresh}
use hobby_kernel.Vmm.{Vmm, edit_page, map_page}
use hobby_kernel.Vmm.Tables.{TableFor, Mapped, map_page-Mapped}
use hobby_kernel.Paging.{pd_window, clear_words, open_directory}
use hobby_kernel.Paging.Window.{edit_page-table}
use hobby_kernel.Paging.Additions.{Open}

-- The directory that is current while the new one is made: its page is in use, and so is the page of
-- the table for the windows, which is another one.
pub record Host (base : ℕ) (v : Vmm) : Type 0 where
  pub layout : Layout base v.pmm
  pub current : InUse base v.pmm v.directory_page
  pub table : ℕ
  pub entry : v.page_directory 490 ≡ table * 0x1000 + 3
  pub table_used : InUse base v.pmm table
  pub table_own : table ≢ v.directory_page

pub record Opened (base : ℕ) (v : Vmm) (r : ℕ × Vmm) : Type 0 where
  pub pd : ℕ
  pub table : ℕ
  pub address : r.0 ≡ pd * 0x1000
  pub opened : Open base table pd v.directory_page r.1
  pub cleared : (j : ℕ) → j < 1024 → r.1.words pd j ≡ 0
  pub new : (n : ℕ) → InUse base v.pmm n → n ≢ pd
  pub keeps : (n : ℕ) → InUse base v.pmm n → InUse base r.1.pmm n
  pub others : (q j : ℕ) → q ≢ pd → q ≢ table → q ≢ v.directory_page → r.1.words q j ≡ v.words q j
  pub same_directory : (i : ℕ) → i ≢ 490 → r.1.page_directory i ≡ v.page_directory i

module _ (base : ℕ) (v : Vmm) (h : Host base v) (r : ℕ × Pmm) (f : Fresh base v.pmm r) where
  abbrev v0 : Vmm
  v0 = record v { pmm = r.1 }

  table_for : TableFor base pd_window f.page v0
  table_for =
      (h.table, h.entry, f.keeps h.table h.table_used, f.new h.table h.table_used, h.table_own)

  Mapped-Opened :
      (v1 : Vmm)
      → Mapped base pd_window f.page v0 v1
      → Safely
          (Opened base v)
          (edit_page pd_window clear_words v1 >>= λ v2. ok (f.page * 0x1000, v2))
  Mapped-Opened v1 m =
      let away : f.page ≢ v.directory_page = λ e. f.new v.directory_page h.current (sym e) in
      subst (λ o. Safely (Opened base v) (o >>= λ v2. ok (f.page * 0x1000, v2)))
        (sym (
          edit_page-table pd_window m.table v1 m.entry f.page clear_words m.slot
            (λ e. away (e ∙ m.current))))
        (record {
          pd = f.page;
          table = m.table;
          address = refl;
          opened = record {
            entry = m.entry;
            slot = ground (arith, m.slot, m.apart.0);
            current = m.current;
            apart = (m.apart.0, away, m.apart.1);
            table_used = m.used;
            pd_used = m.keeps f.page f.used;
            home_used = m.keeps v.directory_page (f.keeps v.directory_page h.current);
            layout = m.layout;
          };
          cleared = λ j l. ground (arith, l);
          new = f.new;
          keeps = λ n u. m.keeps n (f.keeps n u);
          others = λ q j a b c. ground (arith, a) ∙ m.others q j b c;
          same_directory = m.same_directory;
        })

pub open_directory-Opened :
    (base : ℕ) (v : Vmm) → Host base v → Safely (Opened base v) (open_directory v)
unfolding open_directory
open_directory-Opened base v h =
    let rest = λ (r : ℕ × Pmm). map_page pd_window r.0 3 (record v { pmm = r.1 }) >>= λ v1.
    edit_page pd_window clear_words v1 >>= λ v2. ok (r.0, v2) in
    Safely->>= (Fresh base v.pmm) (Opened base v) (alloc_page v.pmm) rest
      (alloc_page-Fresh base v.pmm h.layout)
      λ r f.
        subst (λ a. Safely (Opened base v) (rest (a, r.1))) (sym f.address)
          (Safely->>= (Mapped base pd_window f.page (record v { pmm = r.1 })) (Opened base v)
            (map_page pd_window (f.page * 0x1000) 3 (record v { pmm = r.1 })) _
            (Safely-Returns (Mapped base pd_window f.page (record v { pmm = r.1 }))
              (Mapped base pd_window f.page (record v { pmm = r.1 }))
              (map_page pd_window (f.page * 0x1000) 3 (record v { pmm = r.1 }))
              (map_page-Mapped base pd_window f.page (record v { pmm = r.1 }) f.layout
                (table_for base v h r f))
              λ v1 m. m)
            (Mapped-Opened base v h r f))
