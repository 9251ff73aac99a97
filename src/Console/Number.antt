-- ===== src/Console/Number.antt =====
-- code/Console.cpp: the characters of a number.
use hobby_kernel.Common.{
  ℕ, zero, suc, ◌+◌, ◌-◌, ◌*◌, ◌/◌, ◌%◌, ◌^◌, ◌≤◌, ◌<◌, ◌≡◌, ◌≢◌, ◌⊎◌, refl, sym, ◌∙◌, ap, Bool,
  true, arith, List, [], ◌∷◌, ◌==◌, leb, if◌then◌else◌, Bool-cases, inl, inr, bit_and, fault,
  Returns, Returns-mono,
}
use hobby_kernel.Common.Tables.{holds_below, holds_below_lem}
use hobby_kernel.Console.{digits, digits_loop, hex, hex_digit, kprint_unsigned, Screen}

-- The number that decimal characters read as, behind the number `n`.
abbrev pub decimal_from : ℕ → List ℕ → ℕ
decimal_from n [] = n
decimal_from n (d ∷ ds) = decimal_from (10 * n + (d - 48)) ds

abbrev ten_to : ℕ → ℕ
ten_to zero = 1
ten_to (suc n) = 10 * ten_to n

ten_to-positive : (n : ℕ) → 0 < ten_to n
ten_to-positive zero = omega arith
ten_to-positive (suc n) = omega (arith, ten_to-positive n)

-- Only the characters 0 to 9.
abbrev pub AllDigits : List ℕ → Type 0
AllDigits [] = Unit {0}
AllDigits (d ∷ ds) = (48 ≤ d) × (d < 58) × AllDigits ds

-- There is a first character, and it is not 0.
abbrev pub NoLeadingZero : List ℕ → Type 0
NoLeadingZero [] = ⊥
NoLeadingZero (d ∷ ds) = d ≢ 48

-- The decimal digits of a number, without zeros in front of them.
pub record Decimal (c : ℕ) (ds : List ℕ) : Type 0 where
  pub value : decimal_from 0 ds ≡ c
  pub all_digits : AllDigits ds
  pub canonical : ((c ≡ 0) × (ds ≡ 48 ∷ [])) ⊎ NoLeadingZero ds

-- What the loop has in its array at the end, with the characters that it had.
record Extends (c : ℕ) (ats ds : List ℕ) : Type 0 where
  value : decimal_from 0 ds ≡ decimal_from c ats
  all_digits : AllDigits ds
  leading : NoLeadingZero ds

digits_loop-Extends :
    (fuel c left : ℕ) (ats : List ℕ)
    → c < ten_to left
    → left < fuel
    → AllDigits ats
    → (c ≢ 0) ⊎ NoLeadingZero ats
    → Returns (Extends c ats) (digits_loop fuel c left ats)
unfolding digits_loop
digits_loop-Extends zero c left ats h l a n = absurd (omega arith)
digits_loop-Extends (suc f) c zero ats h l a (inl n) = absurd (omega (arith, h, n))
digits_loop-Extends (suc f) c zero ats h l a (inr n) =
    let none : (c == 0) ≡ true = ground arith in
    let e : 0 ≡ c = omega arith in
    rw none (record { value = ap (λ n. decimal_from n ats) e; all_digits = a; leading = n })
digits_loop-Extends (suc f) c (suc left) ats h l a n = elim (Bool-cases (c == 0)) [
  | inl none ↦
      let e : 0 ≡ c = ground arith in
      elim n [
        | inl some_left ↦ absurd (some_left (sym e))
        | inr leading ↦
            rw none
              (record { value = ap (λ n. decimal_from n ats) e; all_digits = a; leading = leading })
      ]
  | inr more ↦
      let e : 10 * (c / 10) + (c % 10 + 48 - 48) ≡ c = omega arith in
      let leads : (c / 10 ≢ 0) ⊎ (c % 10 + 0x30 ≢ 48) = elim (Bool-cases (c / 10 == 0)) [
        | inl last ↦ inr (λ z. absurd (ground (arith, last, more, z)))
        | inr not_last ↦ inl (λ z. absurd (ground (arith, not_last, z)))
      ] in
      rw more (
        Returns-mono (Extends (c / 10) ((c % 10 + 0x30) ∷ ats)) (Extends c ats)
          (digits_loop f (c / 10) left ((c % 10 + 0x30) ∷ ats))
          (digits_loop-Extends f (c / 10) left ((c % 10 + 0x30) ∷ ats) (omega (arith, h))
            (omega (arith, l)) (omega arith, omega arith, a) leads)
          λ ds d. record {
            value = d.value ∙ ap (λ n. decimal_from n ats) e;
            all_digits = d.all_digits;
            leading = d.leading;
          })
]

digits_loop-fault :
    (fuel c left : ℕ) (ats : List ℕ)
    → ten_to left ≤ c
    → left < fuel
    → digits_loop fuel c left ats ≡ fault
unfolding digits_loop
digits_loop-fault zero c left ats h l = absurd (omega arith)
digits_loop-fault (suc f) c zero ats h l = ground arith
digits_loop-fault (suc f) c (suc left) ats h l =
    ground
      (arith, digits_loop-fault f (c / 10) left ((c % 10 + 0x30) ∷ ats), h, ten_to-positive left)

-- `kprint(unsigned int)` of a number with up to nine digits has its decimal digits printed, with no zero
-- in front of them, and of a number with ten it writes in front of its array.
pub digits-Decimal :
    (fuel c : ℕ)
    → 9 < fuel
    → (c < 10 ^ 9 → Returns (Decimal c) (digits fuel c)) × (10 ^ 9 ≤ c → digits fuel c ≡ fault)
unfolding digits
digits-Decimal fuel c l = elim (Bool-cases (c == 0)) [
  | inl none ↦
      let e : 0 ≡ c = ground arith in
      rw none (
        (λ h. record {
          value = e;
          all_digits = (omega arith, omega arith, tt);
          canonical = inl (sym e, refl);
        }),
        (λ h. absurd (omega (arith, e))),
      )
  | inr more ↦ rw more (
    (λ h.
        Returns-mono (Extends c []) (Decimal c) (digits_loop fuel c 9 [])
          (digits_loop-Extends fuel c 9 [] h l tt (inl λ z. absurd (ground (arith, more, z))))
          λ ds d. record { value = d.value; all_digits = d.all_digits; canonical = inr d.leading }),
    (λ h. digits_loop-fault fuel c 9 [] h l),
  )
]

-- What two hexadecimal characters read as.
abbrev pub unhex_digit : ℕ → ℕ
unhex_digit c = if leb 65 c then c - 55 else c - 48

abbrev pub unhex : List ℕ → ℕ
unhex (a ∷ b ∷ []) = 16 * unhex_digit a + unhex_digit b
unhex cs = 0

reads_back : ℕ → Bool
reads_back c = unhex (hex_digit (c / 2 ^ 4) ∷ hex_digit (bit_and c 0x0F) ∷ []) == c

hex_table : holds_below 256 reads_back ≡ true
unfolding holds_below reads_back
hex_table = refl

-- The characters of a byte read back as the byte.
pub unhex-hex : (c : ℕ) → c < 256 → unhex (hex c) ≡ c
unfolding hex reads_back
unhex-hex c h = ground (arith, holds_below_lem 256 reads_back c h hex_table)

-- `kprint` of an unsigned number with ten digits never gets to print it.
pub kprint_unsigned-fault :
    (fuel c : ℕ) (s : Screen) → 9 < fuel → 10 ^ 9 ≤ c → kprint_unsigned fuel c s ≡ fault
unfolding kprint_unsigned
kprint_unsigned-fault fuel c s l h = rw ((digits-Decimal fuel c l).1 h)
