-- ===== src/Strings/Copies.antt =====
-- code/mem/common.c: `memcpy`, `memset`, `strcpy` and `strcat`.
use hobby_kernel.Common.{
  ℕ, zero, suc, ◌+◌, ◌-◌, ◌≤◌, ◌<◌, ◌≡◌, ◌⊎◌, inl, inr, ap, true, false, ◌&&◌, arith, leb, ltb,
  ◌==◌, if◌then◌else◌, List, [], ◌∷◌, length, ok, Returns, Returns-mono,
}
use hobby_kernel.Common.Chain.{write}
use hobby_kernel.Strings.Layout.{IsString, IsString-write}
use hobby_kernel.Strings.{memcpy, memset, strcpy, strcat, find_end}

-- `memcpy` copies the bytes as they were before, and writes nothing else, unless the source begins
-- in front of the target and reaches into it.
pub memcpy_lem :
    (len dest src : ℕ) (m : ℕ → ℕ) (a : ℕ)
    → (dest ≤ src) ⊎ (src + len ≤ dest)
    → memcpy len dest src m a
      ≡ (if leb dest a && ltb a (dest + len) then m (src + (a - dest)) else m a)
unfolding memcpy
memcpy_lem zero dest src m a h = ground arith
memcpy_lem (suc len) dest src m a h =
    let first : a ≡ dest → m (src + (a - dest)) ≡ m src = λ e. ap m (omega (arith, e)) in
    let behind : dest < a → m (src + 1 + (a - (dest + 1))) ≡ m (src + (a - dest)) =
      λ l. ap m (omega (arith, l)) in
    let rest = memcpy_lem len (dest + 1) (src + 1) (write m dest (m src)) a (apart h) in
    ground (arith, first, behind, rest, h)
  where
    apart :
        (dest ≤ src) ⊎ (src + suc len ≤ dest) → (dest + 1 ≤ src + 1) ⊎ (src + 1 + len ≤ dest + 1)
    apart (inl l) = inl (omega arith)
    apart (inr l) = inr (omega arith)

-- `memset` writes the value to each byte of the range and to no other.
pub memset_lem :
    (len dest val : ℕ) (m : ℕ → ℕ) (a : ℕ)
    → memset len dest val m a ≡ (if leb dest a && ltb a (dest + len) then val else m a)
unfolding memset
memset_lem zero dest val m a = ground arith
memset_lem (suc len) dest val m a =
    ground (arith, memset_lem len (dest + 1) val (write m dest val) a)

-- What `strcpy` has done with a string of `len` characters: it has copied them, has not written
-- behind them, and returns the address behind them.
pub record CopiesString (dest src len : ℕ) (m : ℕ → ℕ) (r : ℕ × (ℕ → ℕ)) : Type 0 where
  pub result : r.0 ≡ dest + len
  pub bytes :
      (a : ℕ) → r.1 a ≡ (if leb dest a && ltb a (dest + len) then m (src + (a - dest)) else m a)

one_more_byte :
    (dest src len a x : ℕ) (m : ℕ → ℕ)
    → (dest ≤ src) ⊎ (src + suc len < dest)
    → x ≡ (
        if leb (dest + 1) a && ltb a (dest + 1 + len)
        then write m dest (m src) (src + 1 + (a - (dest + 1)))
        else write m dest (m src) a)
    → x ≡ (if leb dest a && ltb a (dest + suc len) then m (src + (a - dest)) else m a)
one_more_byte dest src len a x m h e =
    let first : a ≡ dest → m (src + (a - dest)) ≡ m src = λ e. ap m (omega (arith, e)) in
    let behind : dest < a → m (src + 1 + (a - (dest + 1))) ≡ m (src + (a - dest)) =
      λ l. ap m (omega (arith, l)) in
    ground (arith, first, behind, e, h)

-- `strcpy` of a string that is not empty copies its characters, but not the null behind them, and
-- returns the address behind the copy and not `dest`, unless the target begins inside the source.
pub strcpy-CopiesString :
    (fuel dest src : ℕ) (m : ℕ → ℕ) (c : ℕ) (cs : List ℕ)
    → IsString m src (c ∷ cs)
    → (dest ≤ src) ⊎ (src + length (c ∷ cs) < dest)
    → length cs < fuel
    → Returns (CopiesString dest src (length (c ∷ cs)) m) (strcpy fuel dest src m)
unfolding strcpy
strcpy-CopiesString zero dest src m c cs s h l = absurd (omega arith)
strcpy-CopiesString (suc f) dest src m c [] s h l =
    let old = IsString-write m (src + 1) [] dest (m src) (apart h) s.2 in
    let ends : (write m dest (m src) (src + 1) == 0) ≡ true = ground (arith, old) in
    rw ends (record {
      result = omega arith;
      bytes = λ a. one_more_byte dest src 0 a _ m h (ground arith);
    })
  where
    apart : (dest ≤ src) ⊎ (src + 1 < dest) → (dest < src + 1) ⊎ (src + 1 + 0 < dest)
    apart (inl l) = inl (omega arith)
    apart (inr l) = inr (omega arith)
strcpy-CopiesString (suc f) dest src m c (d ∷ ds) s h l =
    let old = IsString-write m (src + 1) (d ∷ ds) dest (m src) (apart h) s.2 in
    let goes_on : (write m dest (m src) (src + 1) == 0) ≡ false = ground (arith, old.0, old.1) in
    rw goes_on (
      Returns-mono (CopiesString (dest + 1) (src + 1) (length (d ∷ ds)) (write m dest (m src))) _
        (strcpy f (dest + 1) (src + 1) (write m dest (m src)))
        (strcpy-CopiesString f (dest + 1) (src + 1) (write m dest (m src)) d ds old (next h)
          (omega arith))
        λ r k. record {
          result = omega (arith, k.result);
          bytes = λ a. one_more_byte dest src (length (d ∷ ds)) a (r.1 a) m h (k.bytes a);
        })
  where
    apart :
        (dest ≤ src) ⊎ (src + length (c ∷ d ∷ ds) < dest)
        → (dest < src + 1) ⊎ (src + 1 + length (d ∷ ds) < dest)
    apart (inl l) = inl (omega arith)
    apart (inr l) = inr (omega arith)

    next :
        (dest ≤ src) ⊎ (src + length (c ∷ d ∷ ds) < dest)
        → (dest + 1 ≤ src + 1) ⊎ (src + 1 + length (d ∷ ds) < dest + 1)
    next (inl l) = inl (omega arith)
    next (inr l) = inr (omega arith)

find_end-length :
    (fuel a : ℕ) (m : ℕ → ℕ) (xs : List ℕ)
    → IsString m a xs
    → length xs < fuel
    → find_end fuel a m ≡ ok (a + length xs)
unfolding find_end
find_end-length zero a m xs s l = absurd (omega arith)
find_end-length (suc f) a m [] s l = ground arith
find_end-length (suc f) a m (x ∷ xs) s l = ground (arith, find_end-length f (a + 1) m xs s.2)

-- `strcat` of two strings, the second not empty, writes the characters of the second, but no null,
-- from the null of the first on, unless that stands inside the second.
pub strcat-CopiesString :
    (fuel dest src : ℕ) (m : ℕ → ℕ) (xs : List ℕ) (c : ℕ) (cs : List ℕ)
    → IsString m dest xs
    → IsString m src (c ∷ cs)
    → (dest + length xs ≤ src) ⊎ (src + length (c ∷ cs) < dest + length xs)
    → length xs < fuel
    → length cs < fuel
    → Returns (CopiesString (dest + length xs) src (length (c ∷ cs)) m) (strcat fuel dest src m)
unfolding strcat
strcat-CopiesString fuel dest src m xs c cs t s h l l' =
    rw (find_end-length fuel dest m xs t l)
      (strcpy-CopiesString fuel (dest + length xs) src m c cs s h l')
