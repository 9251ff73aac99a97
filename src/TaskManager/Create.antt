-- ===== src/TaskManager/Create.antt =====
-- code/TaskManager.cpp: `createThread`, the numbers of the threads, and their first stacks.
use hobby_kernel.Common.{
  Outcome, ok, ℕ, suc, ◌+◌, ◌*◌, ◌^◌, ◌%◌, ◌≤◌, ◌<◌, ◌≡◌, ◌≢◌, sym, ap, ◌∙◌, true, false, List, [],
  ◌∷◌, ◌++◌, arith, length, ◌==◌, Returns, Returns->>=, Returns-mono, ◌⊎◌, inl, inr,
}
use hobby_kernel.Common.Chain.{null, has, has-append, has_other, write}
use hobby_kernel.KernelHeap.{KernelHeap, kernel_malloc, sizeof_memory_block}
use hobby_kernel.KernelHeap.Bump.{IsReady, room, Bumps, kernel_malloc-Bumps}
use hobby_kernel.TaskManager.{
  TaskManager, Thread, id_of, create_thread, add_thread, sizeof_thread, sizeof_thread_list,
  initial_esp, start_stack, zero_registers, create_thread_here,
}
use native.Mathlib.Decide.{ℕ_discrete}
use hobby_kernel.TaskManager.Queue.{has-Below, Below-mono, Runs, Adds, add_thread-Adds, new_node}

-- The threads of the nodes come from the kernel heap, and have numbers that have been given out and
-- are all different.
pub record Numbered (s : TaskManager) (xs : List ℕ) : Type 0 where
  pub threads : (a : ℕ) → has a xs ≡ true → s.thread a < s.kernel_heap.current_address
  pub given : (a : ℕ) → has a xs ≡ true → id_of s a < s.tid
  pub unique : (a b : ℕ) → has a xs ≡ true → has b xs ≡ true → id_of s a ≡ id_of s b → a ≡ b

-- A new thread, at the end of the queue.
pub record Creates (child thread_exit thread_start stack page_directory heap : ℕ) (s : TaskManager)
    (c : ℕ) (qs : List ℕ) (s' : TaskManager) : Type 0 where
  pub node : ℕ
  pub runs : Runs s' c (qs ++ node ∷ [])
  pub numbered : Numbered s' (c ∷ qs ++ node ∷ [])
  pub id : id_of s' node ≡ s.tid
  pub directory : (s'.threads (s'.thread node)).page_directory ≡ page_directory
  pub heap_of : (s'.threads (s'.thread node)).heap ≡ heap
  pub enters : s'.memory (s'.threads (s'.thread node)).registers.esp ≡ thread_start
  pub returns_to : s'.memory ((s'.threads (s'.thread node)).registers.esp + 4) ≡ thread_exit
  pub argument : s'.memory ((s'.threads (s'.thread node)).registers.esp + 8) ≡ child
  pub others : (a : ℕ) → has a (c ∷ qs) ≡ true → s'.threads (s'.thread a) ≡ s.threads (s.thread a)
  pub alive : (a : ℕ) → has a (c ∷ qs) ≡ true → s'.remove a ≡ s.remove a
  pub stays : s'.remove node ≡ false
  pub ready : IsReady s'.kernel_heap
  pub left :
      room s'.kernel_heap + sizeof_thread + sizeof_thread_list + 2 * sizeof_memory_block
      ≡ room s.kernel_heap

module _ (child thread_exit thread_start stack page_directory heap : ℕ) (s : TaskManager) where
  abbrev created : Thread
  created = record {
    registers = record zero_registers { esp = initial_esp stack; eflags = 0x200 };
    page_directory = page_directory;
    heap = heap;
    id = s.tid;
    stack = stack;
  }

  -- The state in which `createThread` calls `addThread`.
  abbrev with_thread : ℕ × KernelHeap → TaskManager
  with_thread r = record s {
    kernel_heap = r.1;
    tid = (s.tid + 1) % 2 ^ 32;
    memory = start_stack child thread_exit thread_start stack s.memory;
    threads = write s.threads r.0 created;
  }

  module _ (c : ℕ) (qs : List ℕ) (v : Runs s c qs) (m : Numbered s (c ∷ qs)) (r : ℕ × KernelHeap)
      (b : Bumps s.kernel_heap sizeof_thread r) where
    with_thread-Runs : Runs (with_thread r) c qs
    with_thread-Runs = record {
      current = v.current;
      not_null = v.not_null;
      chain = v.chain;
      distinct = v.distinct;
      allocated = Below-mono _ _ (c ∷ qs) (omega (arith, b.next)) v.allocated;
    }

    module _ (below : s.tid + 1 < 2 ^ 32) (s' : TaskManager)
        (w : Adds (with_thread r) r.0 c qs s') where
      -- The node of the new thread.
      abbrev n : ℕ
      n = new_node (with_thread r)

      old_node : (a : ℕ) → has a (c ∷ qs) ≡ true → a ≢ n
      old_node a h e =
          has_other n a (c ∷ qs)
            (has-Below s.kernel_heap.current_address n (c ∷ qs) v.allocated (omega (arith, b.next)))
            h (sym e)

      others : (a : ℕ) → has a (c ∷ qs) ≡ true → s'.threads (s'.thread a) ≡ s.threads (s.thread a)
      others a h =
          ground (arith, w.same_threads, w.same_thread a (old_node a h), m.threads a h, b.address)

      thread_eq : s'.threads (s'.thread n) ≡ created
      thread_eq =
          ap (λ f. f (s'.thread n)) w.same_threads
          ∙ ap (write s.threads r.0 created) w.added
          ∙ ground arith

      old_or_new : (a : ℕ) → has a (c ∷ qs ++ n ∷ []) ≡ true → (has a (c ∷ qs) ≡ true) ⊎ (a ≡ n)
      old_or_new a h = elim (ℕ_discrete a n) [
        | yes e ↦ inr e
        | no ne ↦ inl (ground (arith, has-append a (c ∷ qs) (n ∷ [])))
      ]

      id_new : id_of s' n ≡ s.tid
      id_new = ap (λ t. t.id) thread_eq

      id_old : (a : ℕ) → has a (c ∷ qs) ≡ true → id_of s' a ≡ id_of s a
      id_old a h = ap (λ t. t.id) (others a h)

      tid_next : s'.tid ≡ s.tid + 1
      tid_next = w.same_tid ∙ omega (arith, below)

      Numbered-Adds : Numbered s' (c ∷ qs ++ n ∷ [])
      Numbered-Adds = record {
        threads = λ a h. elim (old_or_new a h) [
          | inl o ↦ ground (arith, w.same_thread a (old_node a o), m.threads a o, w.grows, b.next)
          | inr e ↦ ground (arith, ap s'.thread e, w.added, w.grows, b.next, b.address)
        ];
        given = λ a h. elim (old_or_new a h) [
          | inl o ↦ omega (arith, id_old a o, m.given a o, tid_next)
          | inr e ↦ omega (arith, ap (id_of s') e, id_new, tid_next)
        ];
        unique = λ a a' h h' e. elim (old_or_new a h) [
          | inl o ↦ elim (old_or_new a' h') [
            | inl o' ↦ m.unique a a' o o' (sym (id_old a o) ∙ e ∙ id_old a' o')
            | inr f ↦ absurd (omega (arith, e, ap (id_of s') f, id_new, id_old a o, m.given a o))
          ]
          | inr f ↦ elim (old_or_new a' h') [
            | inl o' ↦
                absurd (omega (arith, e, ap (id_of s') f, id_new, id_old a' o', m.given a' o'))
            | inr f' ↦ f ∙ sym f'
          ]
        ];
      }

      Creates-Adds : Creates child thread_exit thread_start stack page_directory heap s c qs s'
      Creates-Adds = record {
        node = n;
        runs = w.runs;
        numbered = Numbered-Adds;
        id = id_new;
        directory = ap (λ t. t.page_directory) thread_eq;
        heap_of = ap (λ t. t.heap) thread_eq;
        enters =
            ap (λ t. s'.memory t.registers.esp) thread_eq
            ∙ ap (λ f. f (initial_esp stack)) w.same_memory
            ∙ ground arith;
        returns_to =
            ap (λ t. s'.memory (t.registers.esp + 4)) thread_eq
            ∙ ap (λ f. f (initial_esp stack + 4)) w.same_memory
            ∙ ground arith;
        argument =
            ap (λ t. s'.memory (t.registers.esp + 8)) thread_eq
            ∙ ap (λ f. f (initial_esp stack + 8)) w.same_memory
            ∙ ground arith;
        others = others;
        alive = λ a h. w.same_remove a (old_node a h);
        stays = w.stays;
        ready = w.heap;
        left = omega (arith, w.left, b.next, b.same_end, b.ready.high);
      }

-- While the kernel heap has room for the thread and its node, and fewer than 2 ^ 32 - 1 threads
-- have been made, and when `new` has returned the stack, `createThread` returns. The new thread is at the end of the ready queue, has the
-- directory and the heap given, and a number that no other thread has; its stack leads into
-- `thread_start`, with `thread_exit` and the object above it. The other threads stay as they are.
pub create_thread-Creates :
    (f child thread_exit thread_start stack page_directory heap c : ℕ)
    → (s : TaskManager) (qs : List ℕ) → Runs s c qs
    → Numbered s (c ∷ qs)
    → length qs ≤ f
    → IsReady s.kernel_heap
    → sizeof_thread + sizeof_thread_list + 2 * sizeof_memory_block ≤ room s.kernel_heap
    → s.tid + 1 < 2 ^ 32
    → Returns
        (Creates child thread_exit thread_start stack page_directory heap s c qs)
        (create_thread (suc f) child thread_exit thread_start (ok stack) page_directory heap s)
unfolding create_thread
create_thread-Creates f child thread_exit thread_start stack pd heap c s qs v m h ready fits below =
    Returns->>= (Bumps s.kernel_heap sizeof_thread) _
      (kernel_malloc (suc f) sizeof_thread s.kernel_heap) _
      (kernel_malloc-Bumps f s.kernel_heap sizeof_thread ready (omega (arith, fits)))
      λ r b.
        let used : (r.0 == null) ≡ false = ground (arith, b.address) in
        let s1 = with_thread child thread_exit thread_start stack pd heap s r in
        rw used (
          Returns-mono (Adds s1 r.0 c qs) _ (add_thread (suc f) r.0 s1)
            (add_thread-Adds f r.0 c s1 qs
              (with_thread-Runs child thread_exit thread_start stack pd heap s c qs v m r b) h
              b.ready (omega (arith, fits, b.next, b.same_end)))
            (Creates-Adds child thread_exit thread_start stack pd heap s c qs v m r b below))

-- `createThread` of a child alone gives it the directory and the heap of the running thread.
pub create_thread_here_lem :
    (fuel child thread_exit thread_start c : ℕ) (new : Outcome ℕ) (s : TaskManager) (qs : List ℕ)
    → Runs s c qs
    → create_thread_here fuel child thread_exit thread_start new s
      ≡ create_thread fuel child thread_exit thread_start new
          (s.threads (s.thread c)).page_directory
          (s.threads (s.thread c)).heap
          s
unfolding create_thread_here
create_thread_here_lem fuel child thread_exit thread_start c new s qs v =
    let used : (s.current_thread == null) ≡ false = ground (arith, v.current, v.not_null) in
    rw used (
      ap
        (λ n.
          create_thread fuel child thread_exit thread_start new
            (s.threads (s.thread n)).page_directory (s.threads (s.thread n)).heap s)
        v.current)
