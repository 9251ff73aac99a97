-- ===== src/Vmm/Tables.antt =====
-- code/mem/vmm.c: `map` of a page that is in use.
use hobby_kernel.Common.{
  ℕ, ◌+◌, ◌*◌, ◌/◌, ◌%◌, ◌≡◌, ◌≢◌, ◌∙◌, refl, sym, subst, ap, arith, ok, Returns,
}
use hobby_kernel.Pmm.Pages.{Layout, InUse}
use hobby_kernel.Vmm.Present.{map_page-present, set_word-plain}
use hobby_kernel.Vmm.{Vmm, map_page}

-- The directory has a table for `va`, in a page that is in use and is neither `n` nor the directory's.
abbrev pub TableFor : (base va n : ℕ) → Vmm → Type 0
TableFor base va n v =
    (t : ℕ) × (v.page_directory (va / 0x1000 / 1024) ≡ t * 0x1000 + 3)
    × InUse base v.pmm t
    × (t ≢ n)
    × (t ≢ v.directory_page)

-- What `map` of the page `n` has done.
pub record Mapped (base va n : ℕ) (v v' : Vmm) : Type 0 where
  pub table : ℕ
  pub entry : v'.page_directory (va / 0x1000 / 1024) ≡ table * 0x1000 + 3
  pub slot : v'.words table (va / 0x1000 % 1024) ≡ n * 0x1000 + 3
  pub current : v'.directory_page ≡ v.directory_page
  pub apart : (table ≢ n) × (table ≢ v.directory_page)
  pub used : InUse base v'.pmm table
  pub others : (q j : ℕ) → q ≢ table → q ≢ v.directory_page → v'.words q j ≡ v.words q j
  pub same_directory : (i : ℕ) → i ≢ va / 0x1000 / 1024 → v'.page_directory i ≡ v.page_directory i
  pub keeps : (m : ℕ) → InUse base v.pmm m → InUse base v'.pmm m
  pub layout : Layout base v'.pmm

module _ (base va n : ℕ) (v : Vmm) where
  pub map_page-Mapped :
      Layout base v.pmm
      → TableFor base va n v
      → Returns (Mapped base va n v) (map_page va (n * 0x1000) 3 v)
  map_page-Mapped l (t, entry, used, ne, own) =
      let i = va / 0x1000 / 1024 in
      let in_table : v.page_directory i / 0x1000 ≡ t = ap (λ e. e / 0x1000) entry ∙ omega arith in
      subst (Returns (Mapped base va n v))
        (sym (
          map_page-present va (n * 0x1000) 3 v (λ z. omega (arith, z, entry))
          ∙ ap ok (
              set_word-plain (va / 0x1000) (n * 0x1000 / 0x1000 * 0x1000 + 3) v
                (λ e. own (sym in_table ∙ e)))))
        (record {
          table = t;
          entry = entry;
          slot = ground (arith, in_table);
          current = refl;
          apart = (ne, own);
          used = used;
          others = λ q j a b. ground (arith, in_table, a);
          same_directory = λ j ne. refl;
          keeps = λ m u. u;
          layout = l;
        })
