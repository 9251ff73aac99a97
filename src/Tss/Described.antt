-- ===== src/Tss/Described.antt =====
-- code/TSS.cpp: what the processor reads.
use hobby_kernel.Common.{
  ℕ, zero, suc, ◌+◌, ◌*◌, ◌/◌, ◌%◌, ◌^◌, ◌≤◌, ◌<◌, ◌≡◌, ◌≢◌, ◌∙◌, ◌&&◌, ltb, leb, if◌then◌else◌,
  arith, refl,
}
use hobby_kernel.Common.Chain.{write}
use hobby_kernel.Tss.{
  Descriptor, sizeof_tss_entry, ss0_offset, describe_tss, zero_bytes, write_dword, write_tss,
}

-- The processor puts the base and the limit together from their parts, and the sixth byte has the
-- type, the privilege and whether the segment is there.
abbrev pub base_of : Descriptor → ℕ
base_of g = g.base_high * 2 ^ 24 + g.base_low

abbrev pub limit_of : Descriptor → ℕ
limit_of g = g.limit_high * 2 ^ 16 + g.limit_low

abbrev pub access_byte : Descriptor → ℕ
access_byte g =
    g.accessed
    + 2 * g.read_write
    + 4 * g.conforming_expand_down
    + 8 * g.code
    + 16 * g.always_1
    + 32 * g.dpl
    + 128 * g.present

zero_bytes_lem :
    (n i : ℕ) (m : ℕ → ℕ) (a : ℕ)
    → zero_bytes n i m a ≡ (if leb i a && ltb a (i + n) then 0 else m a)
unfolding zero_bytes
zero_bytes_lem zero i m a = ground arith
zero_bytes_lem (suc n) i m a = ground (arith, zero_bytes_lem n (i + 1) (write m i 0) a)

zeroed : (m : ℕ → ℕ) (a : ℕ) → a < 104 → zero_bytes 104 0 m a ≡ 0
zeroed m a h = zero_bytes_lem 104 0 m a ∙ ground (arith, h)

kept : (m : ℕ → ℕ) (a : ℕ) → 104 ≤ a → zero_bytes 104 0 m a ≡ m a
kept m a h = zero_bytes_lem 104 0 m a ∙ ground (arith, h)

dword_outside : (a w : ℕ) (m : ℕ → ℕ) (b : ℕ) → a + 4 ≤ b → write_dword a w m b ≡ m b
unfolding write_dword
dword_outside a w m b h = ground (arith, h)

-- The two words of the segment that are written, in front of what is outside.
words_inside :
    (m : ℕ → ℕ) (a : ℕ)
    → a ≢ 8
    → (a < 104 → m a ≡ 0)
    → a < 104
    → write_dword 4 0 (write_dword 8 0x10 m) a ≡ 0
unfolding write_dword
words_inside m a n z h = ground (arith, n, z, h)

-- The segment and its descriptor: an available 32-bit task state segment of privilege 3 at the
-- address, with nothing in it but the stack segment 0x10. The low part of the limit is the one that
-- was there before, and the high part comes from the address.
pub record Describes (base : ℕ) (g : Descriptor) (m : ℕ → ℕ) (g' : Descriptor) (m' : ℕ → ℕ)
    : Type 0 where
  pub base_right : base_of g' ≡ base
  pub access : access_byte g' ≡ 0xE9
  pub limit : limit_of g' ≡ (base + 104) % 2 ^ 32 / 2 ^ 16 % 16 * 2 ^ 16 + g.limit_low
  pub segment : m' ss0_offset ≡ 0x10
  pub empty : (a : ℕ) → a < sizeof_tss_entry → ¬ (a ≡ ss0_offset) → m' a ≡ 0
  pub outside : (a : ℕ) → sizeof_tss_entry ≤ a → m' a ≡ m a

-- `writeTss` with the address of the segment, a word of 32 bits.
pub write_tss-Describes :
    (base : ℕ) (g : Descriptor) (m : ℕ → ℕ)
    → base < 2 ^ 32
    → Describes base g m (write_tss base (g, m)).0 (write_tss base (g, m)).1
unfolding write_tss describe_tss write_dword
write_tss-Describes base g m h = record {
  base_right = omega (arith, h);
  access = refl;
  limit = omega arith;
  segment = ground arith;
  empty = λ a l n. words_inside (zero_bytes 104 0 m) a n (λ h. zeroed m a h) l;
  outside = λ a l.
      dword_outside 4 0 (write_dword 8 0x10 (zero_bytes 104 0 m)) a (omega (arith, l))
      ∙ dword_outside 8 0x10 (zero_bytes 104 0 m) a (omega (arith, l))
      ∙ kept m a l;
}
