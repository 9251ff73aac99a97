-- ===== src/Tests/Bytes.antt =====
-- Runs of the theorems on code/mem/common.c.
use hobby_kernel.Common.{ℕ, ◌≡◌, [], ◌∷◌, arith, ◌==◌, if◌then◌else◌, ok}
use hobby_kernel.Strings.{strcmp}
use hobby_kernel.Strings.Layout.{IsString}
use hobby_kernel.Strings.Compare.{strcmp-same}

-- "ab" stands at 10, and "ac" at 20; the rest is zero.
abbrev memory : ℕ → ℕ
memory a =
    if a == 10
    then 97
    else if a == 11
    then 98
    else if a == 20
    then 97
    else if a == 21
    then 99
    else 0

ab : IsString memory 10 (97 ∷ 98 ∷ [])
ab = ground arith

ac : IsString memory 20 (97 ∷ 99 ∷ [])
ac = ground arith

strcmp-same_example : strcmp 3 10 20 memory ≡ ok 1
strcmp-same_example = strcmp-same 3 10 20 memory (97 ∷ 98 ∷ []) (97 ∷ 99 ∷ []) ab ac (omega arith)
