-- ===== src/Heap/Standard.antt =====
-- code/mem/heap.c: `kmalloc` of the ten standard sizes.
use hobby_kernel.Common.{
  ℕ, zero, suc, ◌+◌, ◌-◌, ◌^◌, ◌≤◌, ◌<◌, ◌≡◌, ◌≢◌, refl, sym, subst, Bool, true, false, not, ◌||◌,
  List, [], ◌∷◌, arith, length, ◌==◌, ltb, leb, if◌then◌else◌, ok, Returns, Bool-cases, inl, inr,
  ◌⊎◌,
}
use hobby_kernel.Common.Chain.{null, Chain, has, write}
use hobby_kernel.Heap.{
  Heap, size_array, size_index, find_standard, kmalloc, sizeof_header, new_block, kfree,
}

-- The first of the ten sizes that is above a length.
pub record Fits (len index : ℕ) : Type 0 where
  pub in_array : index < 10
  pub above : len < size_array index
  pub first : (index ≡ 0) ⊎ (size_array (index - 1) ≤ len)

lower_size : (i len : ℕ) → ltb len (size_array i) ≡ false → size_array (i + 1 - 1) ≤ len
lower_size i len small =
    let e : i ≡ i + 1 - 1 = omega arith in
    let h : size_array i ≤ len = ground arith in subst (λ j. size_array j ≤ len) e h

size_index_from :
    (n i len : ℕ)
    → i + n ≡ 10
    → len < 512
    → (i ≡ 0) ⊎ (size_array (i - 1) ≤ len)
    → Fits len (size_index n i len)
unfolding size_index
size_index_from zero i len e h below = absurd (ground arith)
size_index_from (suc n) i len e h below = elim (Bool-cases (ltb len (size_array i))) [
  | inl fits ↦ rw fits (record { in_array = omega (arith, e); above = ground arith; first = below })
  | inr small ↦
      rw small (size_index_from n (i + 1) len (omega (arith, e)) h (inr (lower_size i len small)))
]

-- For a length below 512, `kmalloc` takes the first of its sizes that is above the length.
pub size_index-Fits : (len : ℕ) → len < 512 → Fits len (size_index 10 0 len)
size_index-Fits len h = size_index_from 10 0 len refl h (inl refl)

-- The first free node of a list, or null, and the node in front of it, or the last one.
abbrev pub first_free : Heap → ℕ → List ℕ → ℕ × ℕ
first_free h last [] = (last, null)
first_free h last (x ∷ xs) = if h.allocated x then first_free h x xs else (last, x)

find_standard-first_free :
    (fuel last node : ℕ) (h : Heap) (xs : List ℕ)
    → Chain h.next node xs
    → length xs < fuel
    → find_standard fuel last node h ≡ ok (first_free h last xs)
unfolding find_standard
find_standard-first_free zero last node h xs c l = absurd (omega arith)
find_standard-first_free (suc f) last node h [] c l = ground (arith, c)
find_standard-first_free (suc f) last node h (x ∷ xs) c l =
    subst (λ m. find_standard (suc f) last m h ≡ ok (first_free h last (x ∷ xs))) (sym c.0)
      (ground (arith, c.1, find_standard-first_free f x (h.next x) h xs c.2 (omega (arith, l))))

-- The list of the size for a length.
abbrev pub bucket : ℕ → Heap → ℕ
bucket len h = h.list_array (size_index 10 0 len)

abbrev pub any_free : Heap → List ℕ → Bool
any_free h [] = false
any_free h (x ∷ xs) = not (h.allocated x) || any_free h xs

-- A node of the list that is free.
abbrev IsFree : Heap → List ℕ → ℕ → Type 0
IsFree h xs n = (has n xs ≡ true) × (h.allocated n ≡ false)

IsFree-cons : (h : Heap) (x : ℕ) (xs : List ℕ) (n : ℕ) → IsFree h xs n → IsFree h (x ∷ xs) n
IsFree-cons h x xs n f = (ground (arith, f.0), f.1)

first_free-IsFree :
    (h : Heap) (last : ℕ) (xs : List ℕ)
    → any_free h xs ≡ true
    → IsFree h xs (first_free h last xs).1
first_free-IsFree h last [] f = absurd (ground arith)
first_free-IsFree h last (x ∷ xs) f = elim (Bool-cases (h.allocated x)) [
  | inl used ↦
      subst (λ b. IsFree h (x ∷ xs) (if b then first_free h x xs else (last, x)).1) (sym used)
        (IsFree-cons h x xs _ (first_free-IsFree h x xs (ground arith)))
  | inr free ↦
      subst (λ b. IsFree h (x ∷ xs) (if b then first_free h x xs else (last, x)).1) (sym free)
        (ground arith, free)
]

pub first_free-none :
    (h : Heap) (last : ℕ) (xs : List ℕ) → any_free h xs ≡ false → (first_free h last xs).1 ≡ null
first_free-none h last [] f = refl
first_free-none h last (x ∷ xs) f = elim (Bool-cases (h.allocated x)) [
  | inl used ↦ rw used (first_free-none h x xs (ground arith))
  | inr free ↦ absurd (ground arith)
]

has-not_null :
    (next : ℕ → ℕ) (p : ℕ) (xs : List ℕ) (a : ℕ) → Chain next p xs → has a xs ≡ true → a ≢ null
has-not_null next p [] a c h e = absurd (ground arith)
has-not_null next p (x ∷ xs) a c h e = ground (arith, c.1, has-not_null next (next x) xs a c.2)

-- What is left of `kmalloc` for a length below 512, once the list has been searched.
pub kmalloc-standard :
    (fuel len : ℕ) (h : Heap) (xs : List ℕ)
    → len < 512
    → Chain h.next (bucket len h) xs
    → length xs < fuel
    → kmalloc fuel len h ≡ (
        let (last, found) = first_free h null xs in
        if found == null
        then new_block len (size_index 10 0 len) last h
        else ok (found + sizeof_header, record h { allocated = write h.allocated found true }))
unfolding kmalloc
kmalloc-standard fuel len h xs small c l =
    let index = (size_index-Fits len small).in_array in
    let a : leb (2 ^ 31) len ≡ false = ground arith in
    let b : (size_index 10 0 len == 10) ≡ false = ground (arith, index) in
    rw (a, b, find_standard-first_free fuel null (bucket len h) h xs c l)

-- What `kmalloc` has done when it has found a free block: one of the list's blocks that was free is
-- in use now, no other block has changed, and no page has been taken.
pub record Reuses (len : ℕ) (h : Heap) (xs : List ℕ) (r : ℕ × Heap) : Type 0 where
  pub node : ℕ
  pub address : r.0 ≡ node + sizeof_header
  pub in_list : has node xs ≡ true
  pub was_free : h.allocated node ≡ false
  pub long_enough : len < h.length node
  pub in_use : r.1.allocated node ≡ true
  pub same_allocated : (a : ℕ) → a ≢ node → r.1.allocated a ≡ h.allocated a
  pub same_list : (r.1.next ≡ h.next) × (r.1.list_array ≡ h.list_array) × (r.1.length ≡ h.length)
  pub no_page : r.1.vmm ≡ h.vmm

-- For a length below 512, with a free block in the list of its size, whose blocks all have that
-- size, `kmalloc` returns a block of the list that was free and is long enough. It marks this one as
-- used, leaves every other block alone, and takes no page.
pub kmalloc-Reuses :
    (fuel len : ℕ) (h : Heap) (xs : List ℕ)
    → len < 512
    → Chain h.next (bucket len h) xs
    → length xs < fuel
    → ((a : ℕ) → has a xs ≡ true → h.length a ≡ size_array (size_index 10 0 len))
    → any_free h xs ≡ true
    → Returns (Reuses len h xs) (kmalloc fuel len h)
kmalloc-Reuses fuel len h xs small c l sizes some_free =
    let free = first_free-IsFree h null xs some_free in
    let node = (first_free h null xs).1 in
    let found : (node == null) ≡ false =
      ground (arith, has-not_null h.next (bucket len h) xs node c free.0) in
    rw (kmalloc-standard fuel len h xs small c l, found)
      (record {
        node = node;
        address = refl;
        in_list = free.0;
        was_free = free.1;
        long_enough =
            subst (λ n. len < n) (sym (sizes node free.0)) (size_index-Fits len small).above;
        in_use = ground arith;
        same_allocated = λ a ne. ground arith;
        same_list = (refl, refl, refl);
        no_page = refl;
      })

-- `kfree` of what `kmalloc` has returned for a block makes that block free, and no other.
pub kfree_lem :
    (node : ℕ) (h : Heap)
    → node + sizeof_header < 2 ^ 32
    → ((kfree (node + sizeof_header) h).allocated node ≡ false)
      × ((a : ℕ) → a ≢ node → (kfree (node + sizeof_header) h).allocated a ≡ h.allocated a)
unfolding kfree
kfree_lem node h word = (ground arith, λ a ne. ground arith)
