-- ===== src/Tests/Directories.antt =====
-- Runs of the theorems on further page directories.
use hobby_kernel.Common.{
  ℕ, ◌+◌, zero, suc, refl, ◌<◌, ◌≡◌, true, List, [], ◌∷◌, arith, ◌==◌, if◌then◌else◌, Returns,
}
use hobby_kernel.Pmm.{Pmm, get_bit}
use hobby_kernel.Pmm.Bits.{taken}
use hobby_kernel.Pmm.Invariant.{Inv}
use hobby_kernel.Pmm.Enough.{Stock}
use hobby_kernel.Vmm.{Vmm}
use hobby_kernel.Paging.{create_process_directory}
use hobby_kernel.Paging.Opened.{Host}
use hobby_kernel.Paging.Process.{Makes}
use hobby_kernel.Paging.Enough.{create_process_directory-Returns}

-- The pages 0x301 to 0x308 of 64 are in use.
abbrev pub many_pages : Pmm
many_pages = record {
  location = 0;
  first_free = 8;
  last_available = 64;
  bitmap = 0x301000;
  bytes = λ i. if i == 0 then 255 else 0;
  paging_active = true;
}

low_taken : (j : ℕ) → j < 8 → taken many_pages j ≡ true
unfolding get_bit
low_taken zero h = refl
low_taken (suc zero) h = refl
low_taken (suc (suc zero)) h = refl
low_taken (suc (suc (suc zero))) h = refl
low_taken (suc (suc (suc (suc zero)))) h = refl
low_taken (suc (suc (suc (suc (suc zero))))) h = refl
low_taken (suc (suc (suc (suc (suc (suc zero)))))) h = refl
low_taken (suc (suc (suc (suc (suc (suc (suc zero))))))) h = refl
low_taken (suc (suc (suc (suc (suc (suc (suc (suc j)))))))) h = absurd (omega arith)

many_pages-Inv : Inv many_pages
unfolding get_bit
many_pages-Inv = record {
  active = refl;
  bounded = omega arith;
  has_bytes = λ i. ground arith;
  lowest = λ j pos lt. low_taken j lt;
  free = λ h. refl;
}

-- The directory lies in page 0x302, its first table in page 0x303, and that of the windows in page 0x304.
abbrev pub space : Vmm
space = record {
  page_directory = λ i. if i == 0 then 0x303003 else if i == 490 then 0x304003 else 0;
  directory_page = 0x302;
  words = λ q j.
      if q == 0x302 then (if j == 0 then 0x303003 else if j == 490 then 0x304003 else 0) else q + j;
  pmm = many_pages;
}

space-Host : Host 0x301 space
space-Host = record {
  layout = record { inv = many_pages-Inv; bitmap = refl; end = omega arith };
  current = λ i e lt. low_taken i (omega arith);
  table = 0x304;
  entry = refl;
  table_used = λ i e lt. low_taken i (omega arith);
  table_own = omega arith;
}

-- The pages that are left, from the one with index 8 on.
abbrev left : List ℕ
left = 8 ∷ 9 ∷ 10 ∷ 11 ∷ 12 ∷ 13 ∷ []

left-Stock : Stock left many_pages
unfolding get_bit
left-Stock = record {
  inv = many_pages-Inv;
  free = (
    omega arith,
    omega arith,
    refl,
    (
      omega arith,
      omega arith,
      refl,
      (
        omega arith,
        omega arith,
        refl,
        (
          omega arith,
          omega arith,
          refl,
          (omega arith, omega arith, refl, (omega arith, omega arith, refl, tt)),
        ),
      ),
    ),
  );
}

create_process_directory-Returns_example :
    Returns (λ r. Makes 0x301 space r × Stock [] r.1.pmm) (create_process_directory space)
create_process_directory-Returns_example =
    create_process_directory-Returns 0x301 8 9 10 11 12 13 [] space space-Host left-Stock
