-- ===== src/Pmm/Bits.antt =====
-- code/mem/pmm.c: what `set_bit` and `clear_bit` do to each bit of the bitmap.
use hobby_kernel.Common.{
  ℕ, ◌-◌, ◌/◌, ◌%◌, ◌^◌, ◌<◌, ◌≡◌, refl, bit_and, bit_or, Bool, true, false, not, arith, ◌==◌,
  if◌then◌else◌,
}
use hobby_kernel.Common.Tables.{holds_below, holds_below_cube}
use hobby_kernel.Pmm.{Pmm, set_bit, clear_bit, get_bit}

-- The page with this index is in use.
abbrev pub taken : Pmm → ℕ → Bool
taken p j = not (get_bit j p == 0)

-- Each entry of the bitmap is a byte.
abbrev pub HasBytes : Pmm → Type 0
HasBytes p = (i : ℕ) → p.bytes i < 256

abbrev eq_bool : Bool → Bool → Bool
eq_bool true b = b
eq_bool false b = not b

eq_of_eq_bool : (a b : Bool) → eq_bool a b ≡ true → a ≡ b
eq_of_eq_bool a b h = ground arith

abbrev set_holds : ℕ → ℕ → ℕ → Bool
set_holds v k j =
    eq_bool (not (bit_and (bit_or v (2 ^ k) % 2 ^ 8) (2 ^ j) == 0))
      (if j == k then true else not (bit_and v (2 ^ j) == 0))

set_table : holds_below 256 (λ v. holds_below 8 λ k. holds_below 8 (set_holds v k)) ≡ true
unfolding holds_below
set_table = refl

abbrev clear_holds : ℕ → ℕ → ℕ → Bool
clear_holds v k j =
    eq_bool (not (bit_and (bit_and v (2 ^ 32 - 1 - 2 ^ k) % 2 ^ 8) (2 ^ j) == 0))
      (if j == k then false else not (bit_and v (2 ^ j) == 0))

clear_table : holds_below 256 (λ v. holds_below 8 λ k. holds_below 8 (clear_holds v k)) ≡ true
unfolding holds_below
clear_table = refl

module _ (p : Pmm) (h : HasBytes p) (b j : ℕ) where
  set_same_byte :
      not (bit_and (bit_or (p.bytes (b / 8)) (2 ^ (b % 8)) % 2 ^ 8) (2 ^ (j % 8)) == 0)
      ≡ (if j % 8 == b % 8 then true else not (bit_and (p.bytes (b / 8)) (2 ^ (j % 8)) == 0))
  set_same_byte = eq_of_eq_bool _ _ (
      holds_below_cube 256 8 8 set_holds (p.bytes (b / 8)) (b % 8) (j % 8) (h (b / 8)) (omega arith)
        (omega arith) set_table)

  clear_same_byte :
      not
        (bit_and (bit_and (p.bytes (b / 8)) (2 ^ 32 - 1 - 2 ^ (b % 8)) % 2 ^ 8) (2 ^ (j % 8)) == 0)
      ≡ (if j % 8 == b % 8 then false else not (bit_and (p.bytes (b / 8)) (2 ^ (j % 8)) == 0))
  clear_same_byte = eq_of_eq_bool _ _ (
      holds_below_cube 256 8 8 clear_holds (p.bytes (b / 8)) (b % 8) (j % 8) (h (b / 8))
        (omega arith) (omega arith) clear_table)

  pub taken-set_bit : taken (set_bit b p) j ≡ (if j == b then true else taken p j)
  unfolding set_bit get_bit
  taken-set_bit = ground (arith, set_same_byte)

  pub taken-clear_bit : taken (clear_bit b p) j ≡ (if j == b then false else taken p j)
  unfolding clear_bit get_bit
  taken-clear_bit = ground (arith, clear_same_byte)

pub set_bit-HasBytes : (p : Pmm) (b : ℕ) → HasBytes p → HasBytes (set_bit b p)
unfolding set_bit
set_bit-HasBytes p b h i = ground (arith, h i)

pub clear_bit-HasBytes : (p : Pmm) (b : ℕ) → HasBytes p → HasBytes (clear_bit b p)
unfolding clear_bit
clear_bit-HasBytes p b h i = ground (arith, h i)

-- A write to the bitmap leaves the other fields alone, and only the bitmap says what is taken.
module _ (b : ℕ) (p : Pmm) where
  pub set_bit_frame :
      ((set_bit b p).bitmap ≡ p.bitmap)
      × ((set_bit b p).first_free ≡ p.first_free)
      × ((set_bit b p).last_available ≡ p.last_available)
      × ((set_bit b p).paging_active ≡ p.paging_active)
  unfolding set_bit
  set_bit_frame = (refl, refl, refl, refl)

  pub clear_bit_frame :
      ((clear_bit b p).bitmap ≡ p.bitmap)
      × ((clear_bit b p).first_free ≡ p.first_free)
      × ((clear_bit b p).last_available ≡ p.last_available)
      × ((clear_bit b p).paging_active ≡ p.paging_active)
  unfolding clear_bit
  clear_bit_frame = (refl, refl, refl, refl)

pub taken_same_bytes : (p q : Pmm) (j : ℕ) → q.bytes ≡ p.bytes → taken q j ≡ taken p j
unfolding get_bit
taken_same_bytes p q j e = rw e
