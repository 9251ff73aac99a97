-- ===== src/Paging/Walk.antt =====
-- The processor's walk through the tables.
use hobby_kernel.Common.{
  ℕ, ◌+◌, ◌*◌, ◌/◌, ◌%◌, ◌^◌, ◌≡◌, ◌∙◌, ap, arith, Option, none, some, ◌==◌, if◌then◌else◌,
  if_false, false,
}

abbrev entry : ℕ → ℕ → Option ℕ
entry word offset = if word % 2 == 0 then none else some (word / 0x1000 * 0x1000 + offset)

-- The physical address that a virtual address stands for, with the directory in the page `page`.
abbrev pub translate : (words : ℕ → ℕ → ℕ) (page va : ℕ) → Option ℕ
translate words page va =
    let table = words page (va / 2 ^ 22) in
    if table % 2 == 0
    then none
    else entry (words (table / 0x1000) (va / 0x1000 % 1024)) (va % 0x1000)

odd : (n : ℕ) → ((n * 0x1000 + 3) % 2 == 0) ≡ false
odd n = ground arith

pub page_of : (n : ℕ) → (n * 0x1000 + 3) / 0x1000 ≡ n
page_of n = omega arith

-- Two steps with present entries.
pub translate-some :
    (words : ℕ → ℕ → ℕ) (page va table target : ℕ)
    → words page (va / 2 ^ 22) ≡ table * 0x1000 + 3
    → words table (va / 0x1000 % 1024) ≡ target * 0x1000 + 3
    → translate words page va ≡ some (target * 0x1000 + va % 0x1000)
translate-some words page va table target h h' =
    let i = va / 0x1000 % 1024 in
    let o = va % 0x1000 in
    let from = λ (pde : ℕ). if pde % 2 == 0 then none else entry (words (pde / 0x1000) i) o in
    ap from h
    ∙ if_false ((table * 0x1000 + 3) % 2 == 0) none
        (entry (words ((table * 0x1000 + 3) / 0x1000) i) o) (odd table)
    ∙ ap (λ q. entry (words q i) o) (page_of table)
    ∙ ap (λ w. entry w o) h'
    ∙ if_false ((target * 0x1000 + 3) % 2 == 0) none
        (some ((target * 0x1000 + 3) / 0x1000 * 0x1000 + o)) (odd target)
    ∙ ap (λ q. some (q * 0x1000 + o)) (page_of target)

pub translate-none :
    (words : ℕ → ℕ → ℕ) (page va : ℕ)
    → words page (va / 2 ^ 22) ≡ 0
    → translate words page va ≡ none
translate-none words page va h = ground (arith, h)
