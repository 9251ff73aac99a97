-- ===== src/Tests/Screen.antt =====
-- Runs of the theorems on code/Console.cpp.
use hobby_kernel.Common.{◌^◌, ◌<◌, ◌≤◌, ◌≡◌, [], ◌∷◌, arith, Returns, fault}
use hobby_kernel.Console.{Screen, kprint, digits}
use hobby_kernel.Console.Print.{Prints, kprint-Prints}
use hobby_kernel.Console.Number.{Decimal, digits-Decimal}

-- Each byte holds its own offset, and the cursor is at the end of the last row.
abbrev screen : Screen
screen = record { videoram = λ a. a; cursor_x = 80; cursor_y = 24 }

kprint-Prints_example : Returns (Prints screen) (kprint 7 (72 ∷ 10 ∷ 73 ∷ []) screen)
kprint-Prints_example =
    kprint-Prints 7 (72 ∷ 10 ∷ 73 ∷ []) screen (record { column = omega arith; row = omega arith })
      (omega arith)

digits-Decimal_example :
    (1234 < 10 ^ 9 → Returns (Decimal 1234) (digits 10 1234))
    × (10 ^ 9 ≤ 1234 → digits 10 1234 ≡ fault)
digits-Decimal_example = digits-Decimal 10 1234 (omega arith)
