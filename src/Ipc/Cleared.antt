-- ===== src/Ipc/Cleared.antt =====
-- code/IPC.cpp: which messages are left when `clearMessages` returns.
use hobby_kernel.Common.{
  ℕ, zero, suc, ◌+◌, ◌<◌, ◌≡◌, ◌≢◌, refl, ap, subst, ◌∙◌, Bool, true, false, not, ◌&&◌, List, [],
  ◌∷◌, arith, length, ◌==◌, if◌then◌else◌, ok, Returns, Returns-mono, Bool-cases, inl, inr,
}
use hobby_kernel.Common.Chain.{null, Chain}
use hobby_kernel.Ipc.{Kernel, free_node, clear_loop, clear_messages}
use hobby_kernel.Ipc.Clear.{is_for, kept, Leaves, clear_loop-Leaves, clear_loop-null}
use hobby_kernel.Ipc.Queue.{Queues}

-- The nodes that are not matched.
abbrev pub without : (ℕ → Bool) → List ℕ → List ℕ
without m [] = []
without m (x ∷ xs) = if m x then without m xs else x ∷ without m xs

-- No two neighbours are both matched.
abbrev pub Isolated : (ℕ → Bool) → List ℕ → Type 0
Isolated m [] = Unit
Isolated m (x ∷ []) = Unit
Isolated m (x ∷ y ∷ ys) = ((m x && m y) ≡ false) × Isolated m (y ∷ ys)

kept-without : (m : ℕ → Bool) (xs : List ℕ) → Isolated m xs → kept m xs ≡ without m xs
unfolding kept
kept-without m [] h = refl
kept-without m (x ∷ []) h = refl
kept-without m (x ∷ y ∷ []) h = ground (arith, h.0)
kept-without m (x ∷ y ∷ z ∷ zs) h =
    ground (arith, h.0, h.1.0, kept-without m (z ∷ zs) h.1.1, kept-without m (y ∷ z ∷ zs) h.1)

-- The state once the head `x` has been taken off the list.
abbrev behead : ℕ → Kernel → Kernel
behead x k = record k { msgs = k.next x; tasks = free_node x k }

module _ (fuel tid x : ℕ) (k : Kernel) (e : k.msgs ≡ x) (ne : x ≢ null) where
  clear_messages-foreign :
      is_for k tid x ≡ false → clear_messages fuel tid k ≡ clear_loop fuel tid x k
  unfolding clear_messages
  clear_messages-foreign other =
      let test : (not (k.msgs == null) && is_for k tid k.msgs) ≡ false = ground arith in
      rw test (λ i. clear_loop fuel tid (e i) k)

  clear_messages-own :
      is_for k tid x ≡ true → clear_messages fuel tid k ≡ clear_loop fuel tid x (behead x k)
  unfolding clear_messages
  clear_messages-own mine =
      let test : (not (k.msgs == null) && is_for k tid k.msgs) ≡ true = ground arith in
      rw test (λ i. clear_loop fuel tid (e i) (behead (e i) k))

clear_messages-empty :
    (f tid : ℕ) (k : Kernel) → k.msgs ≡ null → clear_messages (suc f) tid k ≡ ok k
unfolding clear_messages
clear_messages-empty f tid k e =
    let test : (not (k.msgs == null) && is_for k tid k.msgs) ≡ false = ground arith in
    rw test ((λ i. clear_loop (suc f) tid (e i) k) ∙ clear_loop-null f tid k)

-- What `clearMessages` has done when it behaves as it should: the queue holds the messages for the
-- other threads, in their order, and no message has changed.
pub record Clears (k : Kernel) (tid : ℕ) (ms : List ℕ) (k' : Kernel) : Type 0 where
  pub chain : Chain k'.next k'.msgs (without (is_for k tid) ms)
  pub same_message : k'.message ≡ k.message

Clears-foreign :
    (k : Kernel) (tid x : ℕ) (xs : List ℕ) (k' : Kernel)
    → k.msgs ≡ x
    → x ≢ null
    → is_for k tid x ≡ false
    → Isolated (is_for k tid) (x ∷ xs)
    → Isolated (is_for k tid) xs
    → Leaves k tid x xs k'
    → Clears k tid (x ∷ xs) k'
Clears-foreign k tid x xs k' e ne other i j l = record {
  chain = rw other (
    l.keeps.msgs ∙ e,
    ne,
    subst (Chain k'.next (k'.next x)) (kept-without (is_for k tid) xs j) l.chain,
  );
  same_message = l.keeps.message;
}

Isolated-tail : (m : ℕ → Bool) (x : ℕ) (xs : List ℕ) → Isolated m (x ∷ xs) → Isolated m xs
Isolated-tail m x [] i = tt
Isolated-tail m x (y ∷ ys) i = i.1

-- With an own head the queue begins at its old successor, which the walk has left in place.
Clears-own :
    (k : Kernel) (tid x : ℕ) (xs : List ℕ) (k' : Kernel)
    → Chain k.next k.msgs (x ∷ xs)
    → is_for k tid x ≡ true
    → Isolated (is_for k tid) (x ∷ xs)
    → Leaves (behead x k) tid x xs k'
    → Clears k tid (x ∷ xs) k'
Clears-own k tid x [] k' c mine i l = record {
  chain = rw mine (l.keeps.msgs ∙ c.2);
  same_message = l.keeps.message;
}
Clears-own k tid x (y ∷ ys) k' c mine i l = record {
  chain = rw (mine, other) (l.keeps.msgs ∙ c.2.0, c.2.1, rest.2);
  same_message = l.keeps.message;
}
  where
    other : is_for k tid y ≡ false
    other = ground (arith, i.0)

    full : Chain k'.next (k'.next x) (without (is_for k tid) (y ∷ ys))
    full = subst (Chain k'.next (k'.next x)) (kept-without (is_for k tid) (y ∷ ys) i.1) l.chain

    rest : Chain k'.next (k'.next x) (y ∷ without (is_for k tid) ys)
    rest = rw other at full

-- When no two neighbours in the queue are both for the thread, `clearMessages` returns, takes out
-- each message for the thread, and leaves the others in their order.
pub clear_messages-Clears :
    (fuel tid : ℕ) (k : Kernel) (c : ℕ) (qs ms : List ℕ)
    → Queues k c qs ms
    → Isolated (is_for k tid) ms
    → length ms < fuel
    → Returns (Clears k tid ms) (clear_messages fuel tid k)
clear_messages-Clears zero tid k c qs ms v i h = absurd (omega arith)
clear_messages-Clears (suc f) tid k c qs [] v i h =
    rw (clear_messages-empty f tid k v.chain) (record { chain = v.chain; same_message = refl })
clear_messages-Clears (suc f) tid k c qs (x ∷ xs) v i h = elim (Bool-cases (is_for k tid x)) [
  | inr other ↦ rw (clear_messages-foreign (suc f) tid x k v.chain.0 v.chain.1 other) (
      Returns-mono (Leaves k tid x xs) (Clears k tid (x ∷ xs)) (clear_loop (suc f) tid x k)
        (clear_loop-Leaves (suc f) tid x k xs v.chain.1 v.chain.2 v.distinct (omega arith))
        λ k' l.
          Clears-foreign k tid x xs k' v.chain.0 v.chain.1 other i
            (Isolated-tail (is_for k tid) x xs i) l)
  | inl mine ↦ rw (clear_messages-own (suc f) tid x k v.chain.0 v.chain.1 mine) (
      Returns-mono (Leaves (behead x k) tid x xs) (Clears k tid (x ∷ xs))
        (clear_loop (suc f) tid x (behead x k))
        (clear_loop-Leaves (suc f) tid x (behead x k) xs v.chain.1 v.chain.2 v.distinct
          (omega arith))
        λ k' l. Clears-own k tid x xs k' v.chain mine i l)
]

-- When the first two messages are both for the thread, the second is still at the head of the queue
-- when `clearMessages` returns.
pub clear_messages-leaves_second :
    (fuel tid : ℕ) (k : Kernel) (c : ℕ) (qs : List ℕ) (x y : ℕ) (ys : List ℕ)
    → Queues k c qs (x ∷ y ∷ ys)
    → is_for k tid x ≡ true
    → is_for k tid y ≡ true
    → length ys + 2 < fuel
    → Returns (λ k'. (k'.msgs ≡ y) × (is_for k' tid y ≡ true)) (clear_messages fuel tid k)
clear_messages-leaves_second fuel tid k c qs x y ys v mx my h =
    rw (clear_messages-own fuel tid x k v.chain.0 v.chain.1 mx) (
      Returns-mono (Leaves (behead x k) tid x (y ∷ ys)) _ (clear_loop fuel tid x (behead x k))
        (clear_loop-Leaves fuel tid x (behead x k) (y ∷ ys) v.chain.1 v.chain.2 v.distinct
          (omega arith))
        λ k' l. (l.keeps.msgs ∙ v.chain.2.0, ap (λ m. (m y).tid == tid) l.keeps.message ∙ my))
