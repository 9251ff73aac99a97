-- ===== src/Tss.antt =====
-- code/TSS.cpp: the task state segment and its descriptor.
pub mod Described
use hobby_kernel.Common.{ℕ, zero, suc, ◌+◌, ◌/◌, ◌%◌, ◌^◌}
use hobby_kernel.Common.Chain.{write}

-- `gdt_entry_bits`, the bit fields in their order.
pub record Descriptor : Type 0 where
  pub limit_low : ℕ
  pub base_low : ℕ
  pub accessed : ℕ
  pub read_write : ℕ
  pub conforming_expand_down : ℕ
  pub code : ℕ
  pub always_1 : ℕ
  pub dpl : ℕ
  pub present : ℕ
  pub limit_high : ℕ
  pub available : ℕ
  pub always_0 : ℕ
  pub big : ℕ
  pub gran : ℕ
  pub base_high : ℕ

abbrev pub sizeof_tss_entry : ℕ
sizeof_tss_entry = 104

-- The byte that stands in front of a field of four bytes.
abbrev pub esp0_offset : ℕ
esp0_offset = 4

abbrev pub ss0_offset : ℕ
ss0_offset = 8

-- `base&0xFFFFFF`, `(limit&0xF0000)>>16` and `(base&0xFF000000)>>24` of words of 32 bits.
pub describe_tss : ℕ → Descriptor → Descriptor
describe_tss base g =
    let limit = (base + sizeof_tss_entry) % 2 ^ 32 in
    record g {
      base_low = base % 2 ^ 24;
      accessed = 1;
      read_write = 0;
      conforming_expand_down = 0;
      code = 1;
      always_1 = 0;
      dpl = 3;
      present = 1;
      limit_high = limit / 2 ^ 16 % 2 ^ 4;
      available = 0;
      always_0 = 0;
      big = 0;
      gran = 0;
      base_high = base / 2 ^ 24 % 2 ^ 8;
    }

-- The loop over the bytes from `i` on; `n` are left.
zero_bytes : (n i : ℕ) → (ℕ → ℕ) → ℕ → ℕ
zero_bytes zero i m = m
zero_bytes (suc n) i m = zero_bytes n (i + 1) (write m i 0)

-- A word of four bytes, the low byte first.
write_dword : (a w : ℕ) → (ℕ → ℕ) → ℕ → ℕ
write_dword a w m =
    let m2 = write (write m a (w % 2 ^ 8)) (a + 1) (w / 2 ^ 8 % 2 ^ 8) in
    write (write m2 (a + 2) (w / 2 ^ 16 % 2 ^ 8)) (a + 3) (w / 2 ^ 24 % 2 ^ 8)

-- `m` has the bytes of memory by their distance from `tss_entry`, whose address is `base`.
pub write_tss : ℕ → Descriptor × (ℕ → ℕ) → Descriptor × (ℕ → ℕ)
unfolding describe_tss zero_bytes write_dword
write_tss base (g, m) =
    let zeroed = zero_bytes sizeof_tss_entry 0 m in
    (describe_tss base g, write_dword esp0_offset 0 (write_dword ss0_offset 0x10 zeroed))
