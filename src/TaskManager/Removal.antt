-- ===== src/TaskManager/Removal.antt =====
-- code/TaskManager.cpp: what `removeThread` does to the ready queue.
use hobby_kernel.Common.{
  ℕ, zero, suc, ◌+◌, ◌<◌, ◌≡◌, ◌≢◌, refl, sym, ap, subst, ◌∙◌, Bool, true, false, ◌||◌, List, [],
  ◌∷◌, ◌++◌, arith, length, ◌==◌, ok, fault, Returns,
}
use hobby_kernel.Common.Chain.{null, Chain, Distinct, write, last_or, Chain-unlink, Distinct-remove}
use hobby_kernel.TaskManager.{TaskManager, remove_thread, remove_loop, unlink_next}
use hobby_kernel.KernelHeap.{kernel_free}
use hobby_kernel.TaskManager.Queue.{Below, Runs}
use hobby_kernel.KernelHeap.Bump.{kernel_free_frame}

-- One of the nodes is for the thread.
abbrev pub any_for : TaskManager → ℕ → List ℕ → Bool
any_for s t [] = false
any_for s t (x ∷ xs) = (s.thread x == t) || any_for s t xs

-- The only node for the thread is the last one, behind `x`: the loop unlinks it, goes on to null, and
-- reads there.
remove_loop-last :
    (fuel t p x : ℕ) (s : TaskManager) (pre : List ℕ) (y : ℕ)
    → Chain s.next p (x ∷ pre ++ y ∷ [])
    → Distinct (x ∷ pre ++ y ∷ [])
    → any_for s t pre ≡ false
    → s.thread y ≡ t
    → length pre + 1 < fuel
    → remove_loop fuel t x s ≡ fault
unfolding remove_loop unlink_next
remove_loop-last zero t p x s pre y c d n e h = absurd (omega arith)
remove_loop-last (suc zero) t p x s pre y c d n e h = absurd (omega arith)
remove_loop-last (suc (suc f)) t p x s [] y c d n e h = ground (arith, c, d)
remove_loop-last (suc (suc f)) t p x s (z ∷ zs) y c d n e h = ground (
  arith,
  c,
  remove_loop-last (suc f) t z z s zs y (refl, c.2.1, c.2.2) d.1 (ground arith) e (omega arith),
)

-- `removeThread` of a thread whose only node is the last of several in the ready queue reads
-- through a null pointer.
pub remove_thread-last :
    (fuel t c x : ℕ) (s : TaskManager) (pre : List ℕ) (y : ℕ)
    → Runs s c (x ∷ pre ++ y ∷ [])
    → any_for s t (x ∷ pre) ≡ false
    → s.thread y ≡ t
    → length pre + 1 < fuel
    → remove_thread fuel t s ≡ fault
unfolding remove_thread
remove_thread-last fuel t c x s pre y v n e h = ground (
  arith,
  v.chain.0,
  v.chain.1,
  remove_loop-last fuel t x x s pre y (refl, v.chain.1, v.chain.2) v.distinct.1,
)

-- A loop that meets no node for the thread changes nothing.
remove_loop-none :
    (fuel t p x : ℕ) (s : TaskManager) (xs : List ℕ)
    → Chain s.next p (x ∷ xs)
    → any_for s t xs ≡ false
    → length xs < fuel
    → remove_loop fuel t x s ≡ ok s
unfolding remove_loop
remove_loop-none zero t p x s xs c n h = absurd (omega arith)
remove_loop-none (suc f) t p x s [] c n h = ground (arith, c)
remove_loop-none (suc f) t p x s (y ∷ ys) c n h =
    ground
      (arith, c, remove_loop-none f t y y s ys (refl, c.2.1, c.2.2) (ground arith) (omega arith))

-- The state behind the unlinking of `y`, which stands behind the node `last`.
abbrev unlinked : TaskManager → (last y : ℕ) → TaskManager
unlinked s last y = record s {
  next = write s.next last (s.next y);
  kernel_heap = kernel_free y s.kernel_heap;
}

-- One round of the loop that unlinks a node, with the node as `next` names it.
remove_loop-hit :
    (f t x : ℕ) (s : TaskManager)
    → x ≢ null
    → s.next x ≢ null
    → s.thread (s.next x) ≡ t
    → remove_loop (suc f) t x s
      ≡ remove_loop f t ((unlinked s x (s.next x)).next x) (unlinked s x (s.next x))
unfolding remove_loop unlink_next
remove_loop-hit f t x s a b e =
    let used : (x == null) ≡ false = ground arith in
    let more : (s.next x == null) ≡ false = ground arith in
    let hit : (s.thread (s.next x) == t) ≡ true = ground arith in rw (used, more, hit) refl

remove_loop-here :
    (f t p x : ℕ) (s : TaskManager) (y z : ℕ) (post : List ℕ)
    → Chain s.next p (x ∷ y ∷ z ∷ post)
    → Distinct (x ∷ y ∷ z ∷ post)
    → any_for s t post ≡ false
    → s.thread (s.next x) ≡ t
    → s.next x ≡ y
    → length post < f
    → remove_loop (suc f) t x s ≡ ok (unlinked s x (s.next x))
remove_loop-here f t p x s y z post c d n e eq h =
    let s' = unlinked s x (s.next x) in
    let whole = Chain-unlink s.next p x [] y (z ∷ post) c d in
    let rest : Chain s'.next (s'.next x) (z ∷ post) =
      subst (λ b. Chain (write s.next x (s.next b)) (write s.next x (s.next b) x) (z ∷ post))
        (sym eq) whole.2 in
    let here : Chain s'.next (s'.next x) (s'.next x ∷ post) =
      subst (λ b. Chain s'.next (s'.next x) (b ∷ post)) (sym rest.0) rest in
    remove_loop-hit f t x s c.1 (subst (λ b. b ≢ null) (sym eq) c.2.1) e
    ∙ remove_loop-none f t (s'.next x) (s'.next x) s' post here n h

remove_loop-middle :
    (fuel t p x : ℕ) (s : TaskManager) (pre : List ℕ) (y z : ℕ) (post : List ℕ)
    → Chain s.next p (x ∷ pre ++ y ∷ z ∷ post)
    → Distinct (x ∷ pre ++ y ∷ z ∷ post)
    → any_for s t (pre ++ post) ≡ false
    → s.thread y ≡ t
    → length pre + length post + 1 < fuel
    → remove_loop fuel t x s ≡ ok (unlinked s (last_or x pre) y)
unfolding remove_loop unlink_next
remove_loop-middle zero t p x s pre y z post c d n e h = absurd (omega arith)
remove_loop-middle (suc f) t p x s [] y z post c d n e h =
    subst (λ b. remove_loop (suc f) t x s ≡ ok (unlinked s x b)) c.2.0
      (remove_loop-here f t p x s y z post c d n (ap s.thread c.2.0 ∙ e) c.2.0 (omega (arith, h)))
remove_loop-middle (suc f) t p x s (w ∷ ws) y z post c d n e h = ground (
  arith,
  c,
  remove_loop-middle f t w w s ws y z post (refl, c.2.1, c.2.2) d.1 (ground arith) e (omega arith),
)

Below-remove :
    (n : ℕ) (pre : List ℕ) (y : ℕ) (post : List ℕ)
    → Below n (pre ++ y ∷ post)
    → Below n (pre ++ post)
Below-remove n [] y post b = b.1
Below-remove n (x ∷ pre) y post b = (b.0, Below-remove n pre y post b.1)

-- `removeThread` of a thread whose only node stands between others in the ready queue returns, with
-- that node taken out of the queue, and the order of the others and the running one as they were.
pub remove_thread-middle :
    (fuel t c x : ℕ) (s : TaskManager) (pre : List ℕ) (y z : ℕ) (post : List ℕ)
    → Runs s c (x ∷ pre ++ y ∷ z ∷ post)
    → any_for s t (x ∷ pre ++ post) ≡ false
    → s.thread y ≡ t
    → length pre + length post + 1 < fuel
    → Returns (λ s'. Runs s' c (x ∷ pre ++ z ∷ post)) (remove_thread fuel t s)
unfolding remove_thread
remove_thread-middle fuel t c x s pre y z post v n e h =
    let used : (s.ready_queue == null) ≡ false = ground (arith, v.chain.0, v.chain.1) in
    let other : (s.thread s.ready_queue == t) ≡ false =
      ap (λ r. s.thread r == t) v.chain.0 ∙ ground (arith, n) in
    let loop : remove_loop fuel t s.ready_queue s ≡ ok (unlinked s (last_or x pre) y) =
      subst (λ r. remove_loop fuel t r s ≡ ok (unlinked s (last_or x pre) y)) (sym v.chain.0)
        (remove_loop-middle fuel t x x s pre y z post (refl, v.chain.1, v.chain.2) v.distinct.1
          (ground (arith, n)) e h) in
    rw (used, other, loop)
      (record {
        current = v.current;
        not_null = v.not_null;
        chain = Chain-unlink s.next s.ready_queue x pre y (z ∷ post) v.chain v.distinct.1;
        distinct = Distinct-remove (c ∷ x ∷ pre) y (z ∷ post) v.distinct;
        allocated =
            subst (λ b. Below b (c ∷ x ∷ pre ++ z ∷ post))
              (sym (kernel_free_frame y s.kernel_heap).0)
              (Below-remove s.kernel_heap.current_address (c ∷ x ∷ pre) y (z ∷ post) v.allocated);
      })
