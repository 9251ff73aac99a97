-- ===== src/TaskManager/Queue.antt =====
-- code/TaskManager.cpp: the ready queue as a list of nodes, and what `addThread` does to it.
use hobby_kernel.Common.{
  ℕ, zero, suc, ◌+◌, ◌≤◌, ◌<◌, ◌≡◌, ◌≢◌, refl, true, false, List, [], ◌∷◌, ◌++◌, arith, length,
  ◌==◌, if◌then◌else◌, ok, Returns, Returns->>=,
}
use hobby_kernel.Common.Chain.{
  null, Chain, has, Distinct, write, last_or, Chain-write, Chain-link, Distinct-append_one,
}
use hobby_kernel.KernelHeap.{KernelHeap, kernel_malloc, sizeof_memory_block}
use hobby_kernel.KernelHeap.Bump.{IsReady, room, Bumps, kernel_malloc-Bumps}
use hobby_kernel.TaskManager.{TaskManager, last_node, link_last, add_thread, sizeof_thread_list}

-- Each address lies below the bound.
abbrev pub Below : ℕ → List ℕ → Type 0
Below n [] = Unit
Below n (x ∷ xs) = (x < n) × Below n xs

pub has-Below : (n a : ℕ) (xs : List ℕ) → Below n xs → n ≤ a → has a xs ≡ false
has-Below n a [] b h = refl
has-Below n a (x ∷ xs) b h = ground (arith, has-Below n a xs b.1 h, b.0)

pub Below-mono : (n m : ℕ) (xs : List ℕ) → n ≤ m → Below n xs → Below m xs
Below-mono n m [] h b = tt
Below-mono n m (x ∷ xs) h b = (omega (arith, b.0), Below-mono n m xs h b.1)

pub Below-append_one : (n : ℕ) (xs : List ℕ) (a : ℕ) → Below n xs → a < n → Below n (xs ++ a ∷ [])
Below-append_one n [] a b h = (h, tt)
Below-append_one n (x ∷ xs) a b h = (b.0, Below-append_one n xs a b.1 h)

-- `c` is the running node, and `qs` are the nodes of the ready queue, in order. All of them are
-- different, and come from the kernel heap.
pub record Runs (s : TaskManager) (c : ℕ) (qs : List ℕ) : Type 0 where
  pub current : s.current_thread ≡ c
  pub not_null : c ≢ null
  pub chain : Chain s.next s.ready_queue qs
  pub distinct : Distinct (c ∷ qs)
  pub allocated : Below s.kernel_heap.current_address (c ∷ qs)

pub last_node-ok :
    (fuel : ℕ) (next : ℕ → ℕ) (p x : ℕ) (xs : List ℕ)
    → Chain next p (x ∷ xs)
    → length xs < fuel
    → last_node fuel next p ≡ ok (last_or x xs)
unfolding last_node
last_node-ok zero next p x xs c h = absurd (omega arith)
last_node-ok (suc f) next p x [] c h = ground arith
last_node-ok (suc f) next p x (y ∷ ys) c h = ground (arith, last_node-ok f next (next x) y ys c.2)

-- The node that `addThread` gets from the kernel heap.
abbrev pub new_node : TaskManager → ℕ
new_node s = s.kernel_heap.current_address + sizeof_memory_block

-- What `addThread(t)` has done: a new node for `t` at the end of the queue, and nothing else.
pub record Adds (s : TaskManager) (t c : ℕ) (qs : List ℕ) (s' : TaskManager) : Type 0 where
  pub runs : Runs s' c (qs ++ new_node s ∷ [])
  pub added : s'.thread (new_node s) ≡ t
  pub stays : s'.remove (new_node s) ≡ false
  pub same_thread : (a : ℕ) → a ≢ new_node s → s'.thread a ≡ s.thread a
  pub same_remove : (a : ℕ) → a ≢ new_node s → s'.remove a ≡ s.remove a
  pub same_threads : s'.threads ≡ s.threads
  pub same_tid : s'.tid ≡ s.tid
  pub same_cpu : s'.cpu ≡ s.cpu
  pub same_memory : s'.memory ≡ s.memory
  pub grows : new_node s < s'.kernel_heap.current_address
  pub heap : IsReady s'.kernel_heap
  pub left : room s'.kernel_heap + sizeof_thread_list + sizeof_memory_block ≡ room s.kernel_heap

module _ (s : TaskManager) (t c : ℕ) (qs : List ℕ) (v : Runs s c qs) (r : ℕ × KernelHeap) where
  -- The state with the new node, before it is linked.
  abbrev with_node : TaskManager
  with_node = record s {
    kernel_heap = r.1;
    thread = write s.thread r.0 t;
    next = write s.next r.0 null;
    remove = write s.remove r.0 false;
  }

  module _ (b : Bumps s.kernel_heap sizeof_thread_list r) where
    new_eq : r.0 ≡ new_node s
    new_eq = b.address

    fresh : has r.0 (c ∷ qs) ≡ false
    fresh = has-Below _ r.0 (c ∷ qs) v.allocated (omega (arith, b.address))

    Below-new : Below r.1.current_address (c ∷ qs ++ r.0 ∷ [])
    Below-new =
        Below-append_one r.1.current_address (c ∷ qs) r.0
          (Below-mono _ _ (c ∷ qs) (omega (arith, b.next)) v.allocated)
          (omega (arith, b.address, b.next))

    Adds-Chain :
        (next : ℕ → ℕ) (ready : ℕ)
        → Chain next ready (qs ++ r.0 ∷ [])
        → Adds s t c qs (record with_node { next = next; ready_queue = ready })
    Adds-Chain next ready chain = record {
      runs = record {
        current = v.current;
        not_null = v.not_null;
        chain = rw (← new_eq) chain;
        distinct = rw (← new_eq) (Distinct-append_one (c ∷ qs) r.0 v.distinct fresh);
        allocated = rw (← new_eq) Below-new;
      };
      added = rw new_eq (ground arith);
      stays = rw new_eq (ground arith);
      same_thread = λ a ne. ground (arith, new_eq);
      same_remove = λ a ne. ground (arith, new_eq);
      same_threads = refl;
      same_tid = refl;
      same_cpu = refl;
      same_memory = refl;
      grows = omega (arith, b.next);
      heap = b.ready;
      left = omega (arith, b.next, b.same_end, b.ready.high);
    }

pub link_last-ok :
    (fuel item : ℕ) (s : TaskManager) (x : ℕ) (xs : List ℕ)
    → Chain s.next s.ready_queue (x ∷ xs)
    → length xs < fuel
    → link_last fuel item s ≡ ok (record s { next = write s.next (last_or x xs) item })
unfolding link_last
link_last-ok fuel item s x xs c h = rw (last_node-ok fuel s.next s.ready_queue x xs c h)

add_thread-linked :
    (fuel t c : ℕ) (s : TaskManager) (qs : List ℕ)
    → (v : Runs s c qs) → length qs < fuel
    → (r : ℕ × KernelHeap) → Bumps s.kernel_heap sizeof_thread_list r
    → Returns (Adds s t c qs) (
        if s.ready_queue == null
        then ok (record (with_node s t c qs v r) { ready_queue = r.0 })
        else link_last fuel r.0 (with_node s t c qs v r))
add_thread-linked fuel t c s [] v h r b =
    let empty : (s.ready_queue == null) ≡ true = ground (arith, v.chain) in
    rw empty (
      Adds-Chain s t c [] v r b (write s.next r.0 null) r.0
        (refl, omega (arith, b.address), ground arith))
add_thread-linked fuel t c s (x ∷ xs) v h r b =
    let used : (s.ready_queue == null) ≡ false = ground (arith, v.chain) in
    let old : Chain (write s.next r.0 null) s.ready_queue (x ∷ xs) =
      Chain-write s.next s.ready_queue (x ∷ xs) r.0 null
        (ground (arith, fresh s t c (x ∷ xs) v r b)) v.chain in
    rw (used, link_last-ok fuel r.0 (with_node s t c (x ∷ xs) v r) x xs old (omega arith))
      (Adds-Chain s t c (x ∷ xs) v r b _ s.ready_queue (
        Chain-link (write s.next r.0 null) s.ready_queue x xs r.0 old v.distinct.1
          (ground (arith, fresh s t c (x ∷ xs) v r b)) (omega (arith, b.address)) (ground arith)))

-- While the kernel heap has room, `addThread` returns, and puts one new node for the thread at the
-- end of the ready queue. The threads, the order of the others and the running one stay the same.
pub add_thread-Adds :
    (f t c : ℕ) (s : TaskManager) (qs : List ℕ)
    → Runs s c qs
    → length qs ≤ f
    → IsReady s.kernel_heap
    → sizeof_thread_list + sizeof_memory_block ≤ room s.kernel_heap
    → Returns (Adds s t c qs) (add_thread (suc f) t s)
unfolding add_thread
add_thread-Adds f t c s qs v h ready fits =
    Returns->>= (Bumps s.kernel_heap sizeof_thread_list) (Adds s t c qs)
      (kernel_malloc (suc f) sizeof_thread_list s.kernel_heap) _
      (kernel_malloc-Bumps f s.kernel_heap sizeof_thread_list ready fits)
      λ r b.
        let used : (r.0 == null) ≡ false = ground (arith, b.address) in
        rw used (add_thread-linked (suc f) t c s qs v (omega arith) r b)
