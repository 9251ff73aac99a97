-- ===== src/Tests/Start.antt =====
-- Runs of the theorems on kmain.cpp and code/TSS.cpp.
use hobby_kernel.Common.{
  ℕ, zero, suc, ◌<◌, length, ◌+◌, ◌≡◌, refl, false, List, [], ◌∷◌, arith, Returns, none, ok, ◌==◌,
  if◌then◌else◌,
}
use hobby_kernel.Keyboard.{Keyboard}
use hobby_kernel.Machine.{Machine}
use hobby_kernel.Kmain.{find, Launcher}
use hobby_kernel.Kmain.Lookup.{Finds, find-Finds, add_all, find-add_all}
use hobby_kernel.Strings.Layout.{IsString}
use hobby_kernel.Tss.{Descriptor, write_tss}
use hobby_kernel.Tss.Described.{Describes, write_tss-Describes}
use hobby_kernel.Samples.{keyboard, machine}

abbrev fresh : Keyboard
fresh = record keyboard { lb_len = 0; scancode_to_key = λ c. 0; callback = false }

abbrev cold : Machine
cold = record machine { keyboard = fresh }

-- Two programs, named a and b, with the names at 10 and 20; at 30 stands the line b.
abbrev memory : ℕ → ℕ
memory a = if a == 10 then 97 else if a == 20 then 98 else if a == 30 then 98 else 0

abbrev launcher : Launcher
launcher = record { programs = λ i. i + 1; current = 2 }

abbrev names : ℕ → List ℕ
names j = if j == 0 then 97 ∷ [] else if j == 1 then 98 ∷ [] else []

abbrev name : ℕ → ℕ
name p = if p == 1 then 10 else if p == 2 then 20 else 40

named : (j : ℕ) → j < 2 → IsString memory (name (j + 1)) (names j)
named zero h = ground arith
named (suc zero) h = ground arith
named (suc (suc j)) h = absurd (omega arith)

short : (j : ℕ) → j < 2 → length (names j) < 3
short zero h = omega arith
short (suc zero) h = omega arith
short (suc (suc j)) h = absurd (omega arith)

find-Finds_example :
    Returns (Finds 0 2 names (98 ∷ []) launcher) (find 3 2 0 30 name memory launcher)
find-Finds_example =
    find-Finds 3 2 0 30 name memory launcher names (98 ∷ []) (λ j a b. named j b)
      (λ j a b. short j b) (refl, (λ z. omega (arith, z)), refl)

find-add_all_example :
    find 3
      (add_all
        (1 ∷ 2 ∷ 1 ∷ 2 ∷ 1 ∷ 2 ∷ 1 ∷ 2 ∷ 1 ∷ 2 ∷ [])
        (record launcher { current = 0 })).current
      0
      30
      name
      memory
      (add_all (1 ∷ 2 ∷ 1 ∷ 2 ∷ 1 ∷ 2 ∷ 1 ∷ 2 ∷ 1 ∷ 2 ∷ []) (record launcher { current = 0 }))
    ≡ ok none
find-add_all_example =
    find-add_all 3 30 name memory (1 ∷ 2 ∷ 1 ∷ 2 ∷ 1 ∷ 2 ∷ 1 ∷ 2 ∷ 1 ∷ 2 ∷ [])
      (record launcher { current = 0 }) refl refl

abbrev descriptor : Descriptor
descriptor = record {
  limit_low = 7;
  base_low = 0;
  accessed = 0;
  read_write = 0;
  conforming_expand_down = 0;
  code = 0;
  always_1 = 0;
  dpl = 0;
  present = 0;
  limit_high = 0;
  available = 0;
  always_0 = 0;
  big = 0;
  gran = 0;
  base_high = 0;
}

write_tss-Describes_example :
    Describes 0x12345678 descriptor
      (λ a. a)
      (write_tss 0x12345678 (descriptor, λ a. a)).0
      (write_tss 0x12345678 (descriptor, λ a. a)).1
write_tss-Describes_example = write_tss-Describes 0x12345678 descriptor (λ a. a) (omega arith)
