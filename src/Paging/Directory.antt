-- ===== src/Paging/Directory.antt =====
-- code/mem/vmm.c: what the first page directory maps.
use hobby_kernel.Common.{
  ℕ, zero, suc, ◌+◌, ◌*◌, ◌/◌, ◌%◌, ◌^◌, ◌≤◌, ◌<◌, ◌≡◌, ◌≢◌, ◌∙◌, refl, sym, subst, ap, arith, ◌&&◌,
  ◌==◌, ltb, none, some, if◌then◌else◌, false, Outcome, ok, ◌>>=◌, Returns,
}
use hobby_kernel.Pmm.{Pmm, alloc_page}
use hobby_kernel.Pmm.Setup.{alloc_page-early}
use hobby_kernel.Vmm.{Vmm, write_word}
use hobby_kernel.Paging.{zero_page, fill_identity, make_directory, create_kernel_directory}
use hobby_kernel.Paging.Walk.{translate, translate-some, translate-none}

fill_identity_lem :
    (n page : ℕ) (words : ℕ → ℕ → ℕ) (q j : ℕ)
    → fill_identity n page words q j ≡ (if q == page && ltb j n then j * 0x1000 + 3 else words q j)
unfolding fill_identity
fill_identity_lem zero page words q j = ground arith
fill_identity_lem (suc n) page words q j = ground (arith, fill_identity_lem n page words q j)

-- The words of the three pages that a directory is made of.
pub record Made (pd first last : ℕ) (words words' : ℕ → ℕ → ℕ) : Type 0 where
  pub directory :
      (i : ℕ)
      → i < 1024
      → words' pd i ≡ (
          if i == 0
          then first * 0x1000 + 3
          else if i == 1022
          then last * 0x1000 + 3
          else if i == 1023
          then pd * 0x1000 + 3
          else 0)
  pub identity : (i : ℕ) → i < 1024 → words' first i ≡ i * 0x1000 + 3
  pub back : words' last 1023 ≡ pd * 0x1000 + 3
  pub others : (q i : ℕ) → q ≢ pd → q ≢ first → q ≢ last → words' q i ≡ words q i

-- The same with the pages by their numbers.
directory_of : (pd first last : ℕ) → (ℕ → ℕ → ℕ) → ℕ → ℕ → ℕ
unfolding fill_identity
directory_of pd first last words =
    let w1 = write_word (zero_page pd words) pd 0 (first * 0x1000 + 3) in
    let w2 = fill_identity 1024 first w1 in
    let w4 = zero_page last (write_word w2 pd 1022 (last * 0x1000 + 3)) in
    write_word (write_word w4 last 1023 (pd * 0x1000 + 3)) pd 1023 (pd * 0x1000 + 3)

module _ (words : ℕ → ℕ → ℕ) (p : ℕ) where
  write_same : (i w j : ℕ) → write_word words p i w p j ≡ (if j == i then w else words p j)
  write_same i w j = ground arith

  write_other : (i w q j : ℕ) → q ≢ p → write_word words p i w q j ≡ words q j
  write_other i w q j h = ground (arith, h)

  zero_same : (j : ℕ) → j < 1024 → zero_page p words p j ≡ 0
  zero_same j h = ground (arith, h)

  zero_other : (q j : ℕ) → q ≢ p → zero_page p words q j ≡ words q j
  zero_other q j h = ground (arith, h)

  fill_same : (j : ℕ) → j < 1024 → fill_identity 1024 p words p j ≡ j * 0x1000 + 3
  fill_same j h = fill_identity_lem 1024 p words p j ∙ ground (arith, h)

  fill_other : (q j : ℕ) → q ≢ p → fill_identity 1024 p words q j ≡ words q j
  fill_other q j h = fill_identity_lem 1024 p words q j ∙ ground (arith, h)

-- Three writes, from the last one back.
three_words :
    (i a b c x y z n : ℕ)
    → x ≡ (if i == 1023 then c else y)
    → y ≡ (if i == 1022 then b else z)
    → z ≡ (if i == 0 then a else n)
    → n ≡ 0
    → x ≡ (if i == 0 then a else if i == 1022 then b else if i == 1023 then c else 0)
three_words i a b c x y z n h1 h2 h3 h4 = ground (arith, h1, h2, h3, h4)

module _ (pd first last : ℕ) (words : ℕ → ℕ → ℕ) (h1 : pd ≢ first) (h2 : pd ≢ last)
    (h3 : first ≢ last) where
  abbrev w0 : ℕ → ℕ → ℕ
  w0 = zero_page pd words

  abbrev w1 : ℕ → ℕ → ℕ
  w1 = write_word w0 pd 0 (first * 0x1000 + 3)

  abbrev w2 : ℕ → ℕ → ℕ
  w2 = fill_identity 1024 first w1

  abbrev w3 : ℕ → ℕ → ℕ
  w3 = write_word w2 pd 1022 (last * 0x1000 + 3)

  abbrev w4 : ℕ → ℕ → ℕ
  w4 = zero_page last w3

  abbrev w5 : ℕ → ℕ → ℕ
  w5 = write_word w4 last 1023 (pd * 0x1000 + 3)

  directory_of-Made : Made pd first last words (directory_of pd first last words)
  unfolding directory_of
  directory_of-Made = record {
    directory = λ i l.
        three_words i (first * 0x1000 + 3) (last * 0x1000 + 3) (pd * 0x1000 + 3)
          (write_word w5 pd 1023 (pd * 0x1000 + 3) pd i) (w5 pd i) (w1 pd i) (w0 pd i)
          (write_same w5 pd 1023 (pd * 0x1000 + 3) i)
          (write_other w4 last 1023 (pd * 0x1000 + 3) pd i h2
            ∙ zero_other w3 last pd i h2
            ∙ write_same w2 pd 1022 (last * 0x1000 + 3) i
            ∙ ap (λ w. if i == 1022 then last * 0x1000 + 3 else w) (fill_other w1 first pd i h1))
          (write_same w0 pd 0 (first * 0x1000 + 3) i) (zero_same words pd i l);
    identity = λ i l.
        write_other w5 pd 1023 (pd * 0x1000 + 3) first i (λ e. h1 (sym e))
        ∙ write_other w4 last 1023 (pd * 0x1000 + 3) first i h3
        ∙ zero_other w3 last first i h3
        ∙ write_other w2 pd 1022 (last * 0x1000 + 3) first i (λ e. h1 (sym e))
        ∙ fill_same w1 first i l;
    back =
        write_other w5 pd 1023 (pd * 0x1000 + 3) last 1023 (λ e. h2 (sym e))
        ∙ write_same w4 last 1023 (pd * 0x1000 + 3) 1023;
    others = λ q i a b c.
        write_other w5 pd 1023 (pd * 0x1000 + 3) q i a
        ∙ write_other w4 last 1023 (pd * 0x1000 + 3) q i c
        ∙ zero_other w3 last q i c
        ∙ write_other w2 pd 1022 (last * 0x1000 + 3) q i a
        ∙ fill_other w1 first q i b
        ∙ write_other w0 pd 0 (first * 0x1000 + 3) q i a
        ∙ zero_other words pd q i a;
  }

-- What a directory in the page `pd` maps: the first 4 MB to themselves and nothing behind them below
-- the last two tables; from PAGE_DIR_VIRTUAL_ADDR on the directory itself, and from
-- PAGE_TABLE_VIRTUAL_ADDR on the words of the page tables, one after the other. The pages but for the
-- three that it is made of are as before.
pub record Maps (pd first last : ℕ) (words words' : ℕ → ℕ → ℕ) : Type 0 where
  pub low : (va : ℕ) → va < 2 ^ 22 → translate words' pd va ≡ some va
  pub middle : (va : ℕ) → 2 ^ 22 ≤ va → va < 1022 * 2 ^ 22 → translate words' pd va ≡ none
  pub directory :
      (o : ℕ) → o < 0x1000 → translate words' pd (0xFFBFF000 + o) ≡ some (pd * 0x1000 + o)
  pub tables :
      (virtual_page table : ℕ)
      → virtual_page < 2 ^ 20
      → words' pd (virtual_page / 1024) ≡ table * 0x1000 + 3
      → translate words' pd (0xFFC00000 + 4 * virtual_page)
        ≡ some (table * 0x1000 + 4 * (virtual_page % 1024))
  pub others : (q i : ℕ) → q ≢ pd → q ≢ first → q ≢ last → words' q i ≡ words q i

pub between :
    (i a b c : ℕ)
    → 1 ≤ i
    → i < 1022
    → (if i == 0 then a else if i == 1022 then b else if i == 1023 then c else 0) ≡ 0
between i a b c l h = ground (arith, l, h)

pub Made-Maps :
    (pd first last : ℕ) (words words' : ℕ → ℕ → ℕ)
    → Made pd first last words words'
    → Maps pd first last words words'
Made-Maps pd first last words words' m = record {
  low = λ va l.
      translate-some words' pd va first (va / 0x1000 % 1024)
        (ap (words' pd) (omega (arith, l)) ∙ m.directory 0 (omega arith))
        (m.identity (va / 0x1000 % 1024) (omega arith))
      ∙ ap some (omega (arith, l));
  middle = λ va l h. translate-none words' pd va (
      m.directory (va / 2 ^ 22) (omega (arith, h))
      ∙ between (va / 2 ^ 22) (first * 0x1000 + 3) (last * 0x1000 + 3) (pd * 0x1000 + 3)
          (omega (arith, l)) (omega (arith, h)));
  directory = λ o l.
      translate-some words' pd (0xFFBFF000 + o) last pd
        (ap (words' pd) (omega (arith, l)) ∙ m.directory 1022 (omega arith))
        (ap (words' last) (omega (arith, l)) ∙ m.back)
      ∙ ap some (omega (arith, l));
  tables = λ vp table l e.
      translate-some words' pd (0xFFC00000 + 4 * vp) pd table
        (ap (words' pd) (omega (arith, l)) ∙ m.directory 1023 (omega arith))
        (ap (words' pd) (omega (arith, l)) ∙ e)
      ∙ ap some (omega (arith, l));
  others = m.others;
}

-- With the addresses of the pages.
make_directory_lem :
    (pd first last : ℕ) (words : ℕ → ℕ → ℕ)
    → make_directory (pd * 0x1000) (first * 0x1000) (last * 0x1000) words
      ≡ directory_of pd first last words
unfolding make_directory directory_of
make_directory_lem pd first last words =
    let made = λ (p f l : ℕ).
      let w1 = write_word (zero_page p words) p 0 (first * 0x1000 + 3) in
      let w2 = fill_identity 1024 f w1 in
      let w4 = zero_page l (write_word w2 p 1022 (last * 0x1000 + 3)) in
      write_word (write_word w4 l 1023 (pd * 0x1000 + 3)) p 1023 (pd * 0x1000 + 3) in
    ap (λ p. made p (first * 0x1000 / 0x1000) (last * 0x1000 / 0x1000)) (whole pd)
    ∙ ap (λ f. made pd f (last * 0x1000 / 0x1000)) (whole first)
    ∙ ap (λ l. made pd first l) (whole last)
  where
    whole : (n : ℕ) → n * 0x1000 / 0x1000 ≡ n
    whole n = omega arith

-- The directory is made of the three pages behind the last one that was handed out.
pub record Creates (n : ℕ) (v : Vmm) (r : ℕ × Vmm) : Type 0 where
  pub address : r.0 ≡ (n + 1) * 0x1000
  pub maps : Maps (n + 1) (n + 1 + 1) (n + 1 + 1 + 1) v.words r.1.words
  pub made : Made (n + 1) (n + 1 + 1) (n + 1 + 1 + 1) v.words r.1.words
  pub pmm : r.1.pmm ≡ record v.pmm { location = (n + 1 + 1 + 1) * 0x1000 }

-- While paging is off, `create_page_directory` returns with a directory that maps the first 4 MB to
-- themselves, and its own pages where the kernel looks for them.
pub create_kernel_directory-Creates :
    (n : ℕ) (v : Vmm)
    → v.pmm.paging_active ≡ false
    → v.pmm.location ≡ n * 0x1000
    → n + 3 < 2 ^ 20
    → Returns (Creates n v) (create_kernel_directory v)
unfolding create_kernel_directory
create_kernel_directory-Creates n v off e l =
    let at = λ (m : ℕ). record v.pmm { location = m * 0x1000 } in
    let alloc = λ (m : ℕ) (h : m + 1 < 2 ^ 20). alloc_page-early m (at m) off refl h in
    let rest3 : ℕ → ℕ → ℕ × Pmm → Outcome (ℕ × Vmm) =
      λ pd first r. ok (pd, record v { words = make_directory pd first r.0 v.words; pmm = r.1 }) in
    let rest2 : ℕ → ℕ × Pmm → Outcome (ℕ × Vmm) = λ pd r. alloc_page r.1 >>= rest3 pd r.0 in
    let rest1 : ℕ × Pmm → Outcome (ℕ × Vmm) = λ r. alloc_page r.1 >>= rest2 r.0 in
    let path =
      ap (λ o. o >>= rest1) (alloc_page-early n v.pmm off e (omega (arith, l)))
      ∙ ap (λ o. o >>= rest2 ((n + 1) * 0x1000)) (alloc (n + 1) (omega (arith, l)))
      ∙ ap (λ o. o >>= rest3 ((n + 1) * 0x1000) ((n + 1 + 1) * 0x1000))
          (alloc (n + 1 + 1) (omega (arith, l)))
      ∙ ap
          (λ (w : ℕ → ℕ → ℕ).
            ok ((n + 1) * 0x1000, record v { words = w; pmm = at (n + 1 + 1 + 1) }))
          (make_directory_lem (n + 1) (n + 1 + 1) (n + 1 + 1 + 1) v.words) in
    let made =
      directory_of-Made (n + 1) (n + 1 + 1) (n + 1 + 1 + 1) v.words (λ z. omega (arith, z))
        (λ z. omega (arith, z)) (λ z. omega (arith, z)) in
    subst (Returns (Creates n v)) (sym path) (record {
      address = refl;
      maps =
          Made-Maps (n + 1) (n + 1 + 1) (n + 1 + 1 + 1) v.words
            (directory_of (n + 1) (n + 1 + 1) (n + 1 + 1 + 1) v.words) made;
      made = made;
      pmm = refl;
    })
