-- ===== src/Common/Run.antt =====
-- How a piece of kernel code can end.
use mathlib.Core.Path.{◌≡◌, refl}

-- `halt` is a call of `panic`, which never returns; `fault` is an access through a null pointer,
-- outside an array, or to a page without a page table, or a division by zero; `stuck` means that the fuel of a loop ran
-- out.
pub data Outcome {ℓ} (A : Type ℓ) : Type ℓ where
  ok : A → Outcome A
  halt : Outcome A
  fault : Outcome A
  stuck : Outcome A

infixl 5 ◌>>=◌
abbrev pub ◌>>=◌ {ℓ κ} : {A : Type ℓ} {B : Type κ} → Outcome A → (A → Outcome B) → Outcome B
ok a >>= f = f a
halt >>= f = halt
fault >>= f = fault
stuck >>= f = stuck

pub bind_assoc {ℓ κ μ} :
    {A : Type ℓ} {B : Type κ} {C : Type μ} (r : Outcome A) (f : A → Outcome C) (g : A → Outcome B)
    (h : B → Outcome C)
    → ((a : A) → f a ≡ (g a >>= h))
    → (r >>= f) ≡ (r >>= g >>= h)
bind_assoc (ok a) f g h e = e a
bind_assoc halt f g h e = refl
bind_assoc fault f g h e = refl
bind_assoc stuck f g h e = refl

-- The run comes to an end with a value of which `P` holds.
abbrev pub Returns {ℓ} : {A : Type ℓ} → (A → Type 0) → Outcome A → Type 0
Returns P (ok a) = P a
Returns P halt = ⊥
Returns P fault = ⊥
Returns P stuck = ⊥

pub Returns-mono {ℓ} :
    {A : Type ℓ} (P Q : A → Type 0) (r : Outcome A)
    → Returns P r
    → ((a : A) → P a → Q a)
    → Returns Q r
Returns-mono P Q (ok a) h weaken = weaken a h
Returns-mono P Q halt h weaken = h
Returns-mono P Q fault h weaken = h
Returns-mono P Q stuck h weaken = h

pub Returns->>= {ℓ κ} :
    {A : Type ℓ} {B : Type κ} (P : A → Type 0) (Q : B → Type 0) (r : Outcome A) (f : A → Outcome B)
    → Returns P r
    → ((a : A) → P a → Returns Q (f a))
    → Returns Q (r >>= f)
Returns->>= P Q (ok a) f h next = next a h
Returns->>= P Q halt f h next = absurd h
Returns->>= P Q fault f h next = absurd h
Returns->>= P Q stuck f h next = absurd h

-- A run that returns is `ok` of some value.
pub Returns-elim {ℓ κ} :
    {A : Type ℓ} {C : Type κ} (P : A → Type 0) (r : Outcome A)
    → Returns P r
    → ((a : A) → r ≡ ok a → P a → C)
    → C
Returns-elim P (ok a) h next = next a refl h
Returns-elim P halt h next = absurd h
Returns-elim P fault h next = absurd h
Returns-elim P stuck h next = absurd h

-- What is done with the value at the end can be left out again.
pub Returns-unmap {ℓ κ} :
    {A : Type ℓ} {B : Type κ} (P : B → Type 0) (r : Outcome A) (f : A → B)
    → Returns P (r >>= λ a. ok (f a))
    → Returns (λ a. P (f a)) r
Returns-unmap P (ok a) f h = h
Returns-unmap P halt f h = h
Returns-unmap P fault f h = h
Returns-unmap P stuck f h = h

-- The run neither faults nor loops; if it does not panic, `P` holds of the value.
abbrev pub Safely {ℓ} : {A : Type ℓ} → (A → Type 0) → Outcome A → Type 0
Safely P (ok a) = P a
Safely P halt = Unit {0}
Safely P fault = ⊥
Safely P stuck = ⊥

pub Safely-Returns {ℓ} :
    {A : Type ℓ} (P Q : A → Type 0) (r : Outcome A)
    → Returns P r
    → ((a : A) → P a → Q a)
    → Safely Q r
Safely-Returns P Q (ok a) h weaken = weaken a h
Safely-Returns P Q halt h weaken = absurd h
Safely-Returns P Q fault h weaken = h
Safely-Returns P Q stuck h weaken = h

pub Safely->>= {ℓ κ} :
    {A : Type ℓ} {B : Type κ} (P : A → Type 0) (Q : B → Type 0) (r : Outcome A) (f : A → Outcome B)
    → Safely P r
    → ((a : A) → P a → Safely Q (f a))
    → Safely Q (r >>= f)
Safely->>= P Q (ok a) f h next = next a h
Safely->>= P Q halt f h next = h
Safely->>= P Q fault f h next = absurd h
Safely->>= P Q stuck f h next = absurd h

pub Safely-mono {ℓ} :
    {A : Type ℓ} (P Q : A → Type 0) (r : Outcome A)
    → Safely P r
    → ((a : A) → P a → Q a)
    → Safely Q r
Safely-mono P Q (ok a) h weaken = weaken a h
Safely-mono P Q halt h weaken = h
Safely-mono P Q fault h weaken = h
Safely-mono P Q stuck h weaken = h

-- The run does not panic; if it returns, `P` holds of the value.
abbrev pub NoPanic {ℓ} : {A : Type ℓ} → (A → Type 0) → Outcome A → Type 0
NoPanic P (ok a) = P a
NoPanic P halt = ⊥
NoPanic P fault = Unit {0}
NoPanic P stuck = Unit {0}

pub NoPanic->>= {ℓ κ} :
    {A : Type ℓ} {B : Type κ} (P : A → Type 0) (Q : B → Type 0) (r : Outcome A) (f : A → Outcome B)
    → NoPanic P r
    → ((a : A) → P a → NoPanic Q (f a))
    → NoPanic Q (r >>= f)
NoPanic->>= P Q (ok a) f h next = next a h
NoPanic->>= P Q halt f h next = absurd h
NoPanic->>= P Q fault f h next = h
NoPanic->>= P Q stuck f h next = h

pub Returns-NoPanic {ℓ} : {A : Type ℓ} (P : A → Type 0) (r : Outcome A) → Returns P r → NoPanic P r
Returns-NoPanic P (ok a) h = h
Returns-NoPanic P halt h = h
Returns-NoPanic P fault h = tt
Returns-NoPanic P stuck h = tt

-- A run that is safe and does not panic returns.
pub Safely-NoPanic {ℓ} :
    {A : Type ℓ} (P Q : A → Type 0) (r : Outcome A)
    → Safely P r
    → NoPanic Q r
    → Returns (λ a. P a × Q a) r
Safely-NoPanic P Q (ok a) s n = (s, n)
Safely-NoPanic P Q halt s n = n
Safely-NoPanic P Q fault s n = s
Safely-NoPanic P Q stuck s n = s
