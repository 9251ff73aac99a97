-- ===== src/Paging/Window.antt =====
-- code/mem/vmm.c: `map`, `unmap` and the writes behind them, where the table of a page is known.
use hobby_kernel.Common.{
  ℕ, ◌+◌, ◌*◌, ◌/◌, ◌%◌, ◌≡◌, ◌≢◌, ◌∙◌, ap, sym, arith, ◌==◌, ◌||◌, if◌then◌else◌, if_false,
  Outcome, ok, fault, ◌>>=◌,
}
use hobby_kernel.Vmm.{
  Vmm, edit_page, map_page, unmap_page, get_mapping, unmapped, write_word, page_table_word,
}
use hobby_kernel.Vmm.Present.{
  set_word-plain, map_page-present, unmap_page-present, get_mapping-unmapped,
}
use hobby_kernel.Paging.Walk.{page_of}

-- A change of the words of one page.
abbrev pub put : ℕ → ((ℕ → ℕ) → ℕ → ℕ) → (ℕ → ℕ → ℕ) → ℕ → ℕ → ℕ
put page change words q = if q == page then change (words q) else words q

pub >>=-ok {ℓ κ} :
    {A : Type ℓ} {B : Type κ} (r : Outcome A) (f : A → Outcome B) (a : A) (b : B)
    → r ≡ ok a
    → f a ≡ ok b
    → (r >>= f) ≡ ok b
>>=-ok r f a b e h = ap (λ o. o >>= f) e ∙ h

module _ (va table : ℕ) (v : Vmm)
    (entry : v.page_directory (va / 0x1000 / 1024) ≡ table * 0x1000 + 3) where
  abbrev pub slot : ℕ
  slot = va / 0x1000 % 1024

  some_table : v.page_directory (va / 0x1000 / 1024) ≢ 0
  some_table z = omega (arith, z, entry)

  in_table : v.page_directory (va / 0x1000 / 1024) / 0x1000 ≡ table
  in_table = ap (λ e. e / 0x1000) entry ∙ page_of table

  pub map_page-table :
      (page : ℕ)
      → table ≢ v.directory_page
      → map_page va (page * 0x1000) 3 v
        ≡ ok (record v { words = write_word v.words table slot (page * 0x1000 + 3) })
  map_page-table page own =
      map_page-present va (page * 0x1000) 3 v some_table
      ∙ ap ok (
          set_word-plain (va / 0x1000) (page * 0x1000 / 0x1000 * 0x1000 + 3) v
            (λ e. own (sym in_table ∙ e)))
      ∙ ap
          (λ t.
            ok (record v {
              words = write_word v.words t slot (page * 0x1000 / 0x1000 * 0x1000 + 3);
            }))
          in_table
      ∙ ap (λ w. ok (record v { words = write_word v.words table slot w })) (omega arith)

  pub unmap_page-table :
      table ≢ v.directory_page
      → unmap_page va v ≡ ok (record v { words = write_word v.words table slot 0 })
  unmap_page-table own =
      unmap_page-present va v some_table
      ∙ ap ok (set_word-plain (va / 0x1000) 0 v (λ e. own (sym in_table ∙ e)))
      ∙ ap (λ t. ok (record v { words = write_word v.words t slot 0 })) in_table

  pub edit_page-table :
      (page : ℕ) (change : (ℕ → ℕ) → ℕ → ℕ)
      → v.words table slot ≡ page * 0x1000 + 3
      → page ≢ v.directory_page
      → edit_page va change v ≡ ok (record v { words = put page change v.words })
  unfolding edit_page
  edit_page-table page change h ne =
      let word = page_table_word v (va / 0x1000) in
      let known : word ≡ page * 0x1000 + 3 = ap (λ t. v.words t slot) in_table ∙ h in
      let edited =
        λ (q : ℕ) (d : ℕ → ℕ). record v { words = put q change v.words; page_directory = d } in
      let current =
        λ (q : ℕ). if q == v.directory_page then change v.page_directory else v.page_directory in
      let here : word / 0x1000 ≡ page = ap (λ w. w / 0x1000) known ∙ page_of page in
      if_false (v.page_directory (va / 0x1000 / 1024) % 2 == 0 || (word % 2 == 0)) fault
        (ok (edited (word / 0x1000) (current (word / 0x1000)))) (ground (arith, entry, known))
      ∙ ap (λ q. ok (edited q (current q))) here
      ∙ ap (λ d. ok (edited page d))
          (if_false (page == v.directory_page) (change v.page_directory) v.page_directory
            (ground (arith, ne)))

  pub get_mapping-closed : v.words table slot ≡ 0 → get_mapping va v ≡ unmapped
  get_mapping-closed h =
      get_mapping-unmapped va v some_table (ap (λ t. v.words t slot) in_table ∙ h)
