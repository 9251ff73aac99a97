-- ===== src/Ipc/Clear.antt =====
-- code/IPC.cpp: `clearMessages`.
use hobby_kernel.Common.{
  ℕ, zero, suc, ◌<◌, ◌≡◌, ◌≢◌, refl, sym, ap, subst, ◌∙◌, Bool, true, false, List, [], ◌∷◌, arith,
  length, ◌==◌, if◌then◌else◌, ok, Returns, Returns-mono, Bool-cases, inl, inr,
}
use hobby_kernel.Common.Chain.{null, Chain, Distinct, has, write, Chain-write}
use hobby_kernel.KernelHeap.Bump.{kernel_free_frame}
use hobby_kernel.Ipc.{Kernel, unlink_next, clear_loop}

abbrev pub is_for : Kernel → ℕ → ℕ → Bool
is_for k tid a = (k.message a).tid == tid

-- What the loop leaves of the nodes behind the one where it stands: behind a node that it takes
-- out, the next one is not looked at.
unfoldable pub kept : (ℕ → Bool) → List ℕ → List ℕ
kept m [] = []
kept m (y ∷ []) = if m y then [] else y ∷ []
kept m (y ∷ z ∷ zs) = if m y then z ∷ kept m zs else y ∷ kept m (z ∷ zs)

-- What a step of the loop keeps.
pub record Keeps (k k' : Kernel) : Type 0 where
  pub message : k'.message ≡ k.message
  pub msgs : k'.msgs ≡ k.msgs
  pub next : k'.tasks.next ≡ k.tasks.next
  pub ready_queue : k'.tasks.ready_queue ≡ k.tasks.ready_queue
  pub current : k'.tasks.current_thread ≡ k.tasks.current_thread
  pub top : k'.tasks.kernel_heap.current_address ≡ k.tasks.kernel_heap.current_address

Keeps-refl : (k : Kernel) → Keeps k k
Keeps-refl k = record {
  message = refl;
  msgs = refl;
  next = refl;
  ready_queue = refl;
  current = refl;
  top = refl;
}

Keeps-trans : (k l m : Kernel) → Keeps k l → Keeps l m → Keeps k m
Keeps-trans k l m a b = record {
  message = b.message ∙ a.message;
  msgs = b.msgs ∙ a.msgs;
  next = b.next ∙ a.next;
  ready_queue = b.ready_queue ∙ a.ready_queue;
  current = b.current ∙ a.current;
  top = b.top ∙ a.top;
}

unlink_next-Keeps : (it : ℕ) (k : Kernel) → Keeps k (unlink_next it k)
unfolding unlink_next
unlink_next-Keeps it k = record {
  message = refl;
  msgs = refl;
  next = refl;
  ready_queue = refl;
  current = refl;
  top = (kernel_free_frame (k.next it) k.tasks.kernel_heap).0;
}

unlink_next-next :
    (it : ℕ) (k : Kernel) → (unlink_next it k).next ≡ write k.next it (k.next (k.next it))
unfolding unlink_next
unlink_next-next it k = refl

-- Behind `it` the chain is what the walk keeps of `xs`, and no other node has changed.
pub record Leaves (k : Kernel) (tid it : ℕ) (xs : List ℕ) (k' : Kernel) : Type 0 where
  pub chain : Chain k'.next (k'.next it) (kept (is_for k tid) xs)
  pub outside : (a : ℕ) → has a (it ∷ xs) ≡ false → k'.next a ≡ k.next a
  pub keeps : Keeps k k'

clear_loop-end : (f tid it : ℕ) (k : Kernel) → k.next it ≡ null → clear_loop (suc f) tid it k ≡ ok k
unfolding clear_loop
clear_loop-end f tid it k e = ground arith

pub clear_loop-null : (f tid : ℕ) (k : Kernel) → clear_loop (suc f) tid null k ≡ ok k
unfolding clear_loop
clear_loop-null f tid k = refl

clear_loop-skip :
    (f tid it y : ℕ) (k : Kernel)
    → it ≢ null
    → k.next it ≡ y
    → y ≢ null
    → is_for k tid y ≡ false
    → clear_loop (suc f) tid it k ≡ clear_loop f tid y k
unfolding clear_loop
clear_loop-skip f tid it y k ne e ne' other =
    let here : (it == null) ≡ false = ground arith in
    let more : (k.next it == null) ≡ false = ground arith in
    let foreign : is_for k tid (k.next it) ≡ false =
      subst (λ a. is_for k tid a ≡ false) (sym e) other in
    rw (here, more, foreign) (ap (λ a. clear_loop f tid a k) e)

clear_loop-hit :
    (f tid it y : ℕ) (k : Kernel)
    → it ≢ null
    → k.next it ≡ y
    → y ≢ null
    → is_for k tid y ≡ true
    → clear_loop (suc f) tid it k ≡ clear_loop f tid (k.next y) (unlink_next it k)
unfolding clear_loop
clear_loop-hit f tid it y k ne e ne' mine =
    let here : (it == null) ≡ false = ground arith in
    let more : (k.next it == null) ≡ false = ground arith in
    let own : is_for k tid (k.next it) ≡ true = subst (λ a. is_for k tid a ≡ true) (sym e) mine in
    let on : write k.next it (k.next (k.next it)) it ≡ k.next y = ground (arith, e) in
    rw (here, more, own) (ap (λ a. clear_loop f tid a (unlink_next it k)) on)

kept-skip : (m : ℕ → Bool) (y : ℕ) (ys : List ℕ) → m y ≡ false → kept m (y ∷ ys) ≡ y ∷ kept m ys
unfolding kept
kept-skip m y [] e = rw e
kept-skip m y (z ∷ zs) e = rw e

kept-hit : (m : ℕ → Bool) (y z : ℕ) (zs : List ℕ) → m y ≡ true → kept m (y ∷ z ∷ zs) ≡ z ∷ kept m zs
unfolding kept
kept-hit m y z zs e = rw e

kept-last : (m : ℕ → Bool) (y : ℕ) → m y ≡ true → kept m (y ∷ []) ≡ []
unfolding kept
kept-last m y e = rw e

module _ (k : Kernel) (tid it y : ℕ) where
  Leaves-skip :
      (ys : List ℕ) (k' : Kernel)
      → k.next it ≡ y
      → y ≢ null
      → has it (y ∷ ys) ≡ false
      → is_for k tid y ≡ false
      → Leaves k tid y ys k'
      → Leaves k tid it (y ∷ ys) k'
  Leaves-skip ys k' e ne out other l = record {
    chain = rw (kept-skip (is_for k tid) y ys other) (l.outside it out ∙ e, ne, l.chain);
    outside = λ a h. l.outside a (ground arith);
    keeps = l.keeps;
  }

  Leaves-last :
      Chain k.next (k.next it) (y ∷ [])
      → is_for k tid y ≡ true
      → Leaves k tid it (y ∷ []) (unlink_next it k)
  unfolding unlink_next
  Leaves-last c mine = record {
    chain = rw (kept-last (is_for k tid) y mine) (ground (arith, c.0, c.2));
    outside = λ a h. ground arith;
    keeps = unlink_next-Keeps it k;
  }

  Leaves-hit :
      (z : ℕ) (zs : List ℕ) (k' : Kernel)
      → Chain k.next (k.next it) (y ∷ z ∷ zs)
      → Distinct (it ∷ y ∷ z ∷ zs)
      → is_for k tid y ≡ true
      → Leaves (unlink_next it k) tid z zs k'
      → Leaves k tid it (y ∷ z ∷ zs) k'
  unfolding unlink_next
  Leaves-hit z zs k' c d mine l = record {
    chain =
        rw (kept-hit (is_for k tid) y z zs mine)
          (ground (arith, l.outside it, d.0, c.0, c.2.0), c.2.1, l.chain);
    outside = λ a h. ground (arith, l.outside a);
    keeps = Keeps-trans k (unlink_next it k) k' (unlink_next-Keeps it k) l.keeps;
  }

Chain-unlinked :
    (k : Kernel) (it y z : ℕ) (zs : List ℕ)
    → Chain k.next (k.next it) (y ∷ z ∷ zs)
    → Distinct (it ∷ y ∷ z ∷ zs)
    → Chain (unlink_next it k).next ((unlink_next it k).next z) zs
unfolding unlink_next
Chain-unlinked k it y z zs c d =
    ground (arith, Chain-write k.next (k.next z) zs it (k.next (k.next it)), c.2.2, d.0)

pub clear_loop-Leaves :
    (fuel tid it : ℕ) (k : Kernel) (xs : List ℕ)
    → it ≢ null
    → Chain k.next (k.next it) xs
    → Distinct (it ∷ xs)
    → length xs < fuel
    → Returns (Leaves k tid it xs) (clear_loop fuel tid it k)
clear_loop-Leaves zero tid it k xs ne c d h = absurd (omega arith)
clear_loop-Leaves (suc f) tid it k [] ne c d h =
    rw (clear_loop-end f tid it k c)
      (record { chain = unfold kept in c; outside = λ a o. refl; keeps = Keeps-refl k })
clear_loop-Leaves (suc zero) tid it k (y ∷ ys) ne c d h = absurd (omega arith)
clear_loop-Leaves (suc (suc f)) tid it k (y ∷ []) ne c d h = elim (Bool-cases (is_for k tid y)) [
  | inr other ↦ rw (clear_loop-skip (suc f) tid it y k ne c.0 c.1 other) (
      Returns-mono (Leaves k tid y []) (Leaves k tid it (y ∷ [])) (clear_loop (suc f) tid y k)
        (clear_loop-Leaves (suc f) tid y k [] c.1 c.2 d.1 (omega arith))
        λ k' l. Leaves-skip k tid it y [] k' c.0 c.1 d.0 other l)
  | inl mine ↦
      rw
        (
          clear_loop-hit (suc f) tid it y k ne c.0 c.1 mine,
          c.2,
          clear_loop-null f tid (unlink_next it k),
        )
        (Leaves-last k tid it y c mine)
]
clear_loop-Leaves (suc (suc f)) tid it k (y ∷ z ∷ zs) ne c d h =
    elim (Bool-cases (is_for k tid y)) [
      | inr other ↦ rw (clear_loop-skip (suc f) tid it y k ne c.0 c.1 other) (
          Returns-mono (Leaves k tid y (z ∷ zs)) (Leaves k tid it (y ∷ z ∷ zs))
            (clear_loop (suc f) tid y k)
            (clear_loop-Leaves (suc f) tid y k (z ∷ zs) c.1 c.2 d.1 (omega arith))
            λ k' l. Leaves-skip k tid it y (z ∷ zs) k' c.0 c.1 d.0 other l)
      | inl mine ↦
          rw (clear_loop-hit (suc f) tid it y k ne c.0 c.1 mine, c.2.0)
            (Returns-mono (Leaves (unlink_next it k) tid z zs) (Leaves k tid it (y ∷ z ∷ zs))
              (clear_loop (suc f) tid z (unlink_next it k))
              (clear_loop-Leaves (suc f) tid z (unlink_next it k) zs c.2.1
                (Chain-unlinked k it y z zs c d) d.1.1 (omega arith))
              λ k' l. Leaves-hit k tid it y z zs k' c d mine l)
    ]
