-- ===== src/Common/Chain.antt =====
-- Singly linked lists through a `next` field, which is a function from addresses to addresses.
use hobby_kernel.Common.Tests.{◌==◌, if◌then◌else◌}
use Prim.Native.Nat.{ℕ}
use mathlib.Core.Path.{◌≡◌, refl, subst, fun_ext}
use mathlib.Core.Logic.{◌≢◌}
use mathlib.Core.Bool.{Bool, true, false, ◌||◌}
use mathlib.Core.List.{List, [], ◌∷◌, ◌++◌}
use native.Mathlib.Omega.{arith}

abbrev pub null : ℕ
null = 0

-- From `p` the `next` fields lead through the nodes `xs` to null.
abbrev pub Chain : (ℕ → ℕ) → ℕ → List ℕ → Type 0
Chain next p [] = p ≡ null
Chain next p (x ∷ xs) = (p ≡ x) × (x ≢ null) × Chain next (next x) xs

abbrev pub has : ℕ → List ℕ → Bool
has a [] = false
has a (x ∷ xs) = (a == x) || has a xs

-- No address stands twice in the list.
abbrev pub Distinct : List ℕ → Type 0
Distinct [] = Unit
Distinct (x ∷ xs) = (has x xs ≡ false) × Distinct xs

-- `f[a] = v`
abbrev pub write {ℓ} : {A : Type ℓ} → (ℕ → A) → ℕ → A → ℕ → A
write f a v b = if b == a then v else f b

-- The last node, or `d` if there is none.
abbrev pub last_or : ℕ → List ℕ → ℕ
last_or d [] = d
last_or d (x ∷ xs) = last_or x xs

pub has-append : (a : ℕ) (xs ys : List ℕ) → has a (xs ++ ys) ≡ (has a xs || has a ys)
has-append a [] ys = refl
has-append a (x ∷ xs) ys = ground (arith, has-append a xs ys)

pub Distinct-append_one :
    (xs : List ℕ) (y : ℕ) → Distinct xs → has y xs ≡ false → Distinct (xs ++ y ∷ [])
Distinct-append_one [] y d h = (refl, tt)
Distinct-append_one (x ∷ xs) y d h =
    (ground (arith, has-append x xs (y ∷ [])), Distinct-append_one xs y d.1 (ground arith))

-- A write to a node outside the list leaves the chain as it is.
pub Chain-write :
    (next : ℕ → ℕ) (p : ℕ) (xs : List ℕ) (a v : ℕ)
    → has a xs ≡ false
    → Chain next p xs
    → Chain (write next a v) p xs
Chain-write next p [] a v h c = c
Chain-write next p (x ∷ xs) a v h c =
    (c.0, c.1, ground (arith, Chain-write next (next x) xs a v, c.2))

pub has-last_or : (x : ℕ) (xs : List ℕ) → has (last_or x xs) (x ∷ xs) ≡ true
has-last_or x [] = ground arith
has-last_or x (y ∷ ys) = ground (arith, has-last_or y ys)

pub has_other : (a b : ℕ) (xs : List ℕ) → has a xs ≡ false → has b xs ≡ true → a ≢ b
has_other a b xs out into e = ground (arith, subst (λ c. has c xs ≡ false) e out)

-- Linking a node behind the last one appends it.
pub Chain-link :
    (next : ℕ → ℕ) (p : ℕ) (x : ℕ) (xs : List ℕ) (y : ℕ)
    → Chain next p (x ∷ xs)
    → Distinct (x ∷ xs)
    → has y (x ∷ xs) ≡ false
    → y ≢ null
    → next y ≡ null
    → Chain (write next (last_or x xs) y) p (x ∷ xs ++ y ∷ [])
Chain-link next p x [] y c d h ne end = ground arith
Chain-link next p x (z ∷ zs) y c d h ne end =
    let rest = Chain-link next z z zs y (refl, c.2.1, c.2.2) d.1 (ground arith) ne end in
    let linked : write next (last_or z zs) y x ≡ z =
      ground (arith, has_other x (last_or z zs) (z ∷ zs), has-last_or z zs) in
    (c.0, c.1, (linked, c.2.1, rest.2))

-- Unlinking the node `y` from behind the one in front of it takes it out of the list.
pub Chain-unlink :
    (next : ℕ → ℕ) (p x : ℕ) (pre : List ℕ) (y : ℕ) (post : List ℕ)
    → Chain next p (x ∷ pre ++ y ∷ post)
    → Distinct (x ∷ pre ++ y ∷ post)
    → Chain (write next (last_or x pre) (next y)) p (x ∷ pre ++ post)
Chain-unlink next p x [] y post c d = (
  c.0,
  c.1,
  ground (arith, Chain-write next (next y) post x (next y), c.2.2, d.0, has-append x [] (y ∷ post)),
)
Chain-unlink next p x (z ∷ zs) y post c d =
    let rest = Chain-unlink next z z zs y post (refl, c.2.1, c.2.2) d.1 in
    let linked : write next (last_or z zs) (next y) x ≡ z = ground (
      arith,
      has-append x (z ∷ zs) (y ∷ post),
      has_other x (last_or z zs) (z ∷ zs),
      has-last_or z zs,
    ) in
    (c.0, c.1, (linked, c.2.1, rest.2))

pub Distinct-remove :
    (pre : List ℕ) (y : ℕ) (post : List ℕ) → Distinct (pre ++ y ∷ post) → Distinct (pre ++ post)
Distinct-remove [] y post d = d.1
Distinct-remove (x ∷ pre) y post d = (
  ground (arith, d.0, has-append x pre (y ∷ post), has-append x pre post),
  Distinct-remove pre y post d.1,
)

pub write_comm :
    (f : ℕ → ℕ) (a v b w : ℕ) → a ≢ b → write (write f a v) b w ≡ write (write f b w) a v
write_comm f a v b w ne = fun_ext (λ x. ground arith)

-- Linking a node whose `next` is cleared afterwards appends it all the same.
pub Chain-requeue :
    (next : ℕ → ℕ) (p x : ℕ) (xs : List ℕ) (y : ℕ)
    → Chain next p (x ∷ xs)
    → Distinct (x ∷ xs)
    → has y (x ∷ xs) ≡ false
    → y ≢ null
    → Chain (write (write next (last_or x xs) y) y null) p (x ∷ xs ++ y ∷ [])
Chain-requeue next p x xs y c d h ne =
    subst (λ f. Chain f p (x ∷ xs ++ y ∷ []))
      (write_comm next y null (last_or x xs) y
        (has_other y (last_or x xs) (x ∷ xs) h (has-last_or x xs)))
      (Chain-link (write next y null) p x xs y (Chain-write next p (x ∷ xs) y null h c) d h ne
        (ground arith))
