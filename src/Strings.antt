-- ===== src/Strings.antt =====
-- code/mem/common.c: copying and comparing bytes and strings. Memory is a function from addresses,
-- and the code is used on ranges that do not reach the end of the address space.
pub mod Layout
pub mod Copies
pub mod Compare
use hobby_kernel.Common.{
  ℕ, zero, suc, ◌+◌, not, ◌&&◌, ◌||◌, ◌==◌, if◌then◌else◌, Outcome, ok, stuck, ◌>>=◌,
}
use hobby_kernel.Common.Chain.{write}

-- `for (; len != 0; len--) *dp++ = *sp++;`
pub memcpy : (len dest src : ℕ) → (ℕ → ℕ) → ℕ → ℕ
memcpy zero dest src m = m
memcpy (suc len) dest src m = memcpy len (dest + 1) (src + 1) (write m dest (m src))

pub memset : (len dest val : ℕ) → (ℕ → ℕ) → ℕ → ℕ
memset zero dest val m = m
memset (suc len) dest val m = memset len (dest + 1) val (write m dest val)

-- The loop of `strcmp`: where it stops, and `failed`.
strcmp_loop : (fuel i str1 str2 : ℕ) → (ℕ → ℕ) → Outcome (ℕ × ℕ)
strcmp_loop zero i str1 str2 m = stuck
strcmp_loop (suc fuel) i str1 str2 m =
    let rest = strcmp_loop fuel (i + 1) str1 str2 m in
    if not (m (str1 + i) == 0) && not (m (str2 + i) == 0)
    then (if m (str1 + i) == m (str2 + i) then rest else ok (i, 1))
    else ok (i, 0)

-- The test behind the loop.
strcmp_test : (i failed str1 str2 : ℕ) → (ℕ → ℕ) → Outcome ℕ
strcmp_test i failed str1 str2 m =
    let ended1 = m (str1 + i) == 0 in
    let ended2 = m (str2 + i) == 0 in
    ok (if (ended1 && not ended2) || (not ended1 && ended2) then 1 else failed)

pub strcmp : (fuel str1 str2 : ℕ) → (ℕ → ℕ) → Outcome ℕ
unfolding strcmp_loop strcmp_test
strcmp fuel str1 str2 m =
    strcmp_loop fuel 0 str1 str2 m >>= λ (i, failed). strcmp_test i failed str1 str2 m

-- The `do` loop of `strcpy` and `strcat`: the pointer behind what has been written, and the memory.
pub strcpy : (fuel dest src : ℕ) → (ℕ → ℕ) → Outcome (ℕ × (ℕ → ℕ))
strcpy zero dest src m = stuck
strcpy (suc fuel) dest src m =
    let m' = write m dest (m src) in
    let rest = strcpy fuel (dest + 1) (src + 1) m' in
    if m' (src + 1) == 0 then ok (dest + 1, m') else rest

-- The first loop of `strcat`.
find_end : (fuel dest : ℕ) → (ℕ → ℕ) → Outcome ℕ
find_end zero dest m = stuck
find_end (suc fuel) dest m =
    let rest = find_end fuel (dest + 1) m in if m dest == 0 then ok dest else rest

pub strcat : (fuel dest src : ℕ) → (ℕ → ℕ) → Outcome (ℕ × (ℕ → ℕ))
unfolding find_end strcpy
strcat fuel dest src m = find_end fuel dest m >>= λ end. strcpy fuel end src m

strlen_loop : (fuel i src : ℕ) → (ℕ → ℕ) → Outcome ℕ
strlen_loop zero i src m = stuck
strlen_loop (suc fuel) i src m =
    let rest = strlen_loop fuel (i + 1) (src + 1) m in if m src == 0 then ok i else rest

pub strlen : (fuel src : ℕ) → (ℕ → ℕ) → Outcome ℕ
unfolding strlen_loop
strlen fuel src m = strlen_loop fuel 0 src m
