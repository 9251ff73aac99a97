-- ===== src/Paging/Additions.antt =====
-- code/mem/vmm.c: the calls that fill the directory of a further process.
use hobby_kernel.Common.{
  ℕ, ◌+◌, ◌*◌, ◌≡◌, ◌≢◌, ◌∙◌, refl, sym, subst, arith, ok, ◌>>=◌, Safely, Safely->>=,
}
use hobby_kernel.Common.Chain.{write}
use hobby_kernel.Pmm.{Pmm, alloc_page}
use hobby_kernel.Pmm.Pages.{Layout, InUse, Fresh, alloc_page-Fresh}
use hobby_kernel.Vmm.{Vmm, write_word, edit_page, map_page, unmap_page}
use hobby_kernel.Paging.{pd_window, pt_window, clear_words, identity_words, add_identity, add_own}
use hobby_kernel.Paging.Window.{put, >>=-ok, map_page-table, unmap_page-table, edit_page-table}

-- Between the calls the window `pd_window` shows the page `pd`, by the table in the page `table`; these
-- and the current directory, in the page `home`, are in use.
pub record Open (base table pd home : ℕ) (v : Vmm) : Type 0 where
  pub entry : v.page_directory 490 ≡ table * 0x1000 + 3
  pub slot : v.words table 787 ≡ pd * 0x1000 + 3
  pub current : v.directory_page ≡ home
  pub apart : (table ≢ pd) × (pd ≢ home) × (table ≢ home)
  pub table_used : InUse base v.pmm table
  pub pd_used : InUse base v.pmm pd
  pub home_used : InUse base v.pmm home
  pub layout : Layout base v.pmm

-- The words behind `add_identity`, with its page `first`.
abbrev pub identity_made : (table pd first : ℕ) → (ℕ → ℕ → ℕ) → ℕ → ℕ → ℕ
identity_made table pd first words =
    let w1 = put pd (λ w. write w 0 (first * 0x1000 + 3)) words in
    let w2 = write_word w1 table 788 (first * 0x1000 + 3) in
    write_word (put first (identity_words 1024) w2) table 788 0

-- A page that has been taken for the directory, and what it is for.
pub record Added (base table pd home : ℕ) (made : ℕ → (ℕ → ℕ → ℕ) → ℕ → ℕ → ℕ) (v v' : Vmm)
    : Type 0 where
  pub page : ℕ
  pub words : v'.words ≡ made page v.words
  pub same_directory : v'.page_directory ≡ v.page_directory
  pub new : (n : ℕ) → InUse base v.pmm n → n ≢ page
  pub keeps : (n : ℕ) → InUse base v.pmm n → InUse base v'.pmm n
  pub used : InUse base v'.pmm page
  pub opened : Open base table pd home v'

-- The chain of calls of `add_identity`.
module _ (base table pd home first : ℕ) (v : Vmm) (o : Open base table pd home v) (p : Pmm)
    (t1 : table ≢ first) (t2 : pd ≢ first) (t3 : home ≢ first) where
  abbrev s1 : Vmm
  s1 = record v { pmm = p; words = put pd (λ w. write w 0 (first * 0x1000 + 3)) v.words }

  abbrev s2 : Vmm
  s2 = record s1 { words = write_word s1.words table 788 (first * 0x1000 + 3) }

  abbrev s3 : Vmm
  s3 = record s2 { words = put first (identity_words 1024) s2.words }

  abbrev s4 : Vmm
  s4 = record s3 { words = write_word s3.words table 788 0 }

  identity_calls :
      (edit_page pd_window (λ w. write w 0 (first * 0x1000 + 3)) (record v { pmm = p }) >>= λ v1.
      map_page pt_window (first * 0x1000) 3 v1 >>= λ v2.
      edit_page pt_window (identity_words 1024) v2 >>= λ v3. unmap_page pt_window v3)
      ≡ ok s4
  identity_calls =
      >>=-ok (edit_page pd_window (λ w. write w 0 (first * 0x1000 + 3)) (record v { pmm = p })) _ s1
        s4
        (edit_page-table pd_window table (record v { pmm = p }) o.entry pd
          (λ w. write w 0 (first * 0x1000 + 3)) o.slot (λ e. o.apart.1 (e ∙ o.current)))
        (>>=-ok (map_page pt_window (first * 0x1000) 3 s1) _ s2 s4
          (map_page-table pt_window table s1 o.entry first (λ e. o.apart.2 (e ∙ o.current)))
          (>>=-ok (edit_page pt_window (identity_words 1024) s2) _ s3 s4
            (edit_page-table pt_window table s2 o.entry first (identity_words 1024) (ground arith)
              (λ e. t3 (sym (e ∙ o.current))))
            (unmap_page-table pt_window table s3 o.entry (λ e. o.apart.2 (e ∙ o.current)))))

  s4-Open :
      InUse base p table
      → InUse base p pd
      → InUse base p home
      → Layout base p
      → Open base table pd home s4
  s4-Open a b c l = record {
    entry = o.entry;
    slot = ground (arith, o.slot, o.apart.0, t1);
    current = o.current;
    apart = o.apart;
    table_used = a;
    pd_used = b;
    home_used = c;
    layout = l;
  }

pub add_identity-Added :
    (base table pd home : ℕ) (v : Vmm)
    → Open base table pd home v
    → Safely (Added base table pd home (identity_made table pd) v) (add_identity v)
unfolding add_identity
add_identity-Added base table pd home v o =
    let rest = λ (r : ℕ × Pmm).
      edit_page pd_window (λ w. write w 0 (r.0 + 3)) (record v { pmm = r.1 }) >>= λ v1.
      map_page pt_window r.0 3 v1 >>= λ v2.
      edit_page pt_window (identity_words 1024) v2 >>= λ v3. unmap_page pt_window v3 in
    let P = Added base table pd home (identity_made table pd) v in
    Safely->>= (Fresh base v.pmm) P (alloc_page v.pmm) rest (alloc_page-Fresh base v.pmm o.layout)
      λ r f.
        let t1 = f.new table o.table_used in
        let t2 = f.new pd o.pd_used in
        let t3 = f.new home o.home_used in
        subst (λ a. Safely P (rest (a, r.1))) (sym f.address)
          (subst (Safely P) (sym (identity_calls base table pd home f.page v o r.1 t1 t2 t3))
            (record {
              page = f.page;
              words = refl;
              same_directory = refl;
              new = f.new;
              keeps = f.keeps;
              used = f.used;
              opened =
                  s4-Open base table pd home f.page v o r.1 t1 t2 t3 (f.keeps table o.table_used)
                    (f.keeps pd o.pd_used) (f.keeps home o.home_used) f.layout;
            }))

-- The words behind `add_own`, with its page `last`.
abbrev pub own_made : (table pd last : ℕ) → (ℕ → ℕ → ℕ) → ℕ → ℕ → ℕ
own_made table pd last words =
    let w1 = put pd (λ w. write w 1022 (last * 0x1000 + 3)) words in
    let w2 = put last clear_words (write_word w1 table 788 (last * 0x1000 + 3)) in
    let w3 = put last (λ w. write w 1023 (pd * 0x1000 + 3)) w2 in
    let w4 = put pd (λ w. write w 1023 (pd * 0x1000 + 3)) w3 in write_word w4 table 788 0

-- The chain of calls of `add_own`.
module _ (base table pd home last : ℕ) (v : Vmm) (o : Open base table pd home v) (p : Pmm)
    (t1 : table ≢ last) (t2 : pd ≢ last) (t3 : home ≢ last) where
  abbrev r1 : Vmm
  r1 = record v { pmm = p; words = put pd (λ w. write w 1022 (last * 0x1000 + 3)) v.words }

  abbrev r2 : Vmm
  r2 = record r1 { words = write_word r1.words table 788 (last * 0x1000 + 3) }

  abbrev r3 : Vmm
  r3 = record r2 { words = put last clear_words r2.words }

  abbrev r4 : Vmm
  r4 = record r3 { words = put last (λ w. write w 1023 (pd * 0x1000 + 3)) r3.words }

  abbrev r5 : Vmm
  r5 = record r4 { words = put pd (λ w. write w 1023 (pd * 0x1000 + 3)) r4.words }

  abbrev r6 : Vmm
  r6 = record r5 { words = write_word r5.words table 788 0 }

  own_calls :
      (edit_page pd_window (λ w. write w 1022 (last * 0x1000 + 3)) (record v { pmm = p }) >>= λ v1.
      map_page pt_window (last * 0x1000) 3 v1 >>= λ v2. edit_page pt_window clear_words v2 >>= λ v3.
      edit_page pt_window (λ w. write w 1023 (pd * 0x1000 + 3)) v3 >>= λ v4.
      edit_page pd_window (λ w. write w 1023 (pd * 0x1000 + 3)) v4 >>= λ v5.
      unmap_page pt_window v5)
      ≡ ok r6
  own_calls =
      >>=-ok (edit_page pd_window (λ w. write w 1022 (last * 0x1000 + 3)) (record v { pmm = p })) _
        r1 r6
        (edit_page-table pd_window table (record v { pmm = p }) o.entry pd
          (λ w. write w 1022 (last * 0x1000 + 3)) o.slot (λ e. o.apart.1 (e ∙ o.current)))
        (>>=-ok (map_page pt_window (last * 0x1000) 3 r1) _ r2 r6
          (map_page-table pt_window table r1 o.entry last (λ e. o.apart.2 (e ∙ o.current)))
          (>>=-ok (edit_page pt_window clear_words r2) _ r3 r6
            (edit_page-table pt_window table r2 o.entry last clear_words (ground arith)
              (λ e. t3 (sym (e ∙ o.current))))
            (>>=-ok (edit_page pt_window (λ w. write w 1023 (pd * 0x1000 + 3)) r3) _ r4 r6
              (edit_page-table pt_window table r3 o.entry last (λ w. write w 1023 (pd * 0x1000 + 3))
                (ground (arith, t1)) (λ e. t3 (sym (e ∙ o.current))))
              (>>=-ok (edit_page pd_window (λ w. write w 1023 (pd * 0x1000 + 3)) r4) _ r5 r6
                (edit_page-table pd_window table r4 o.entry pd (λ w. write w 1023 (pd * 0x1000 + 3))
                  (ground (arith, o.slot, o.apart.0, t1)) (λ e. o.apart.1 (e ∙ o.current)))
                (unmap_page-table pt_window table r5 o.entry (λ e. o.apart.2 (e ∙ o.current)))))))

  r6-Open :
      InUse base p table
      → InUse base p pd
      → InUse base p home
      → Layout base p
      → Open base table pd home r6
  r6-Open a b c l = record {
    entry = o.entry;
    slot = ground (arith, o.slot, o.apart.0, t1);
    current = o.current;
    apart = o.apart;
    table_used = a;
    pd_used = b;
    home_used = c;
    layout = l;
  }

pub add_own-Added :
    (base table pd home : ℕ) (v : Vmm)
    → Open base table pd home v
    → Safely (Added base table pd home (own_made table pd) v) (add_own (pd * 0x1000) v)
unfolding add_own
add_own-Added base table pd home v o =
    let rest = λ (r : ℕ × Pmm).
      edit_page pd_window (λ w. write w 1022 (r.0 + 3)) (record v { pmm = r.1 }) >>= λ v1.
      map_page pt_window r.0 3 v1 >>= λ v2. edit_page pt_window clear_words v2 >>= λ v3.
      edit_page pt_window (λ w. write w 1023 (pd * 0x1000 + 3)) v3 >>= λ v4.
      edit_page pd_window (λ w. write w 1023 (pd * 0x1000 + 3)) v4 >>= λ v5.
      unmap_page pt_window v5 in
    let P = Added base table pd home (own_made table pd) v in
    Safely->>= (Fresh base v.pmm) P (alloc_page v.pmm) rest (alloc_page-Fresh base v.pmm o.layout)
      λ r f.
        let t1 = f.new table o.table_used in
        let t2 = f.new pd o.pd_used in
        let t3 = f.new home o.home_used in
        subst (λ a. Safely P (rest (a, r.1))) (sym f.address)
          (subst (Safely P) (sym (own_calls base table pd home f.page v o r.1 t1 t2 t3)) (record {
            page = f.page;
            words = refl;
            same_directory = refl;
            new = f.new;
            keeps = f.keeps;
            used = f.used;
            opened =
                r6-Open base table pd home f.page v o r.1 t1 t2 t3 (f.keeps table o.table_used)
                  (f.keeps pd o.pd_used) (f.keeps home o.home_used) f.layout;
          }))
