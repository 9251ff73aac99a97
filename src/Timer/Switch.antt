-- ===== src/Timer/Switch.antt =====
-- code/TaskManager.cpp: one timer interrupt.
use hobby_kernel.Common.{
  ℕ, ◌<◌, ◌≡◌, ◌≢◌, refl, ap, subst, sym, ◌∙◌, false, List, [], ◌∷◌, ◌++◌, arith, length, ◌==◌, ok,
  ◌>>=◌, Returns,
}
use hobby_kernel.Common.Chain.{null, Chain, write, last_or, Chain-requeue, Distinct-append_one}
use hobby_kernel.TaskManager.{TaskManager, Thread, switch_thread}
use hobby_kernel.TaskManager.Queue.{Below, Below-append_one, Runs, last_node-ok}
use hobby_kernel.Ipc.{Kernel}
use hobby_kernel.Timer.{handle_timer_event, switch_to_head, requeue, with_tasks}

-- What a timer interrupt has done when the thread of node `c` runs and node `q` is the first of the
-- ready queue: `q` runs, `c` is the last of the queue, the registers of the old thread are saved and
-- those of the new one are loaded, with its page directory and its heap.
pub record Switches (k : Kernel) (c q : ℕ) (qs : List ℕ) (k' : Kernel) : Type 0 where
  pub runs : Runs k'.tasks q (qs ++ c ∷ [])
  pub same_thread : k'.tasks.thread ≡ k.tasks.thread
  pub same_remove : k'.tasks.remove ≡ k.tasks.remove
  pub saved : (k'.tasks.threads (k.tasks.thread c)).registers ≡ k.tasks.cpu
  pub saved_heap : (k'.tasks.threads (k.tasks.thread c)).heap ≡ k.tasks.current_heap
  pub loaded :
      k.tasks.thread q ≢ k.tasks.thread c
      → (k'.tasks.cpu ≡ (k.tasks.threads (k.tasks.thread q)).registers)
        × (k'.tasks.cr3 ≡ (k.tasks.threads (k.tasks.thread q)).page_directory)
        × (k'.tasks.current_heap ≡ (k.tasks.threads (k.tasks.thread q)).heap)
  pub others : (t : ℕ) → t ≢ k.tasks.thread c → k'.tasks.threads t ≡ k.tasks.threads t
  pub same_ids : (t : ℕ) → (k'.tasks.threads t).id ≡ (k.tasks.threads t).id
  pub same_messages : (k'.msgs ≡ k.msgs) × (k'.message ≡ k.message) × (k'.next ≡ k.next)
  pub same_buffer : k'.buffer ≡ k.buffer
  pub same_heap : k'.tasks.kernel_heap ≡ k.tasks.kernel_heap

-- The state behind `requeue`.
abbrev requeued : TaskManager → ℕ → ℕ → TaskManager
requeued s last c = record s { next = write (write s.next last c) c null }

requeue-ok :
    (fuel : ℕ) (s : TaskManager) (c q : ℕ) (qs : List ℕ)
    → Runs s c (q ∷ qs)
    → length qs < fuel
    → requeue fuel s ≡ ok (requeued s (last_or q qs) s.current_thread)
unfolding requeue
requeue-ok fuel s c q qs v h = rw (last_node-ok fuel s.next s.ready_queue q qs v.chain h)

-- The threads once the old one has its heap and its registers back.
abbrev saved_threads : TaskManager → ℕ → Thread
saved_threads s =
    let old = s.thread s.current_thread in
    write s.threads old (record (s.threads old) { heap = s.current_heap; registers = s.cpu })

switch_to_head-ok :
    (s : TaskManager)
    → s.ready_queue ≢ null
    → s.current_thread ≢ null
    → (s' : TaskManager) × (switch_to_head s ≡ ok s')
      × (s'.next ≡ s.next)
      × (s'.ready_queue ≡ s.next s.ready_queue)
      × (s'.current_thread ≡ s.ready_queue)
      × (s'.thread ≡ s.thread)
      × (s'.remove ≡ s.remove)
      × (s'.kernel_heap ≡ s.kernel_heap)
      × ((t : ℕ) → s'.threads t ≡ saved_threads s t)
      × (s'.cpu ≡ (saved_threads s (s.thread s.ready_queue)).registers)
      × (s'.cr3 ≡ (saved_threads s (s.thread s.ready_queue)).page_directory)
      × (s.thread s.ready_queue ≢ s.thread s.current_thread
          → s'.current_heap ≡ (s.threads (s.thread s.ready_queue)).heap)
unfolding switch_to_head switch_thread
switch_to_head-ok s ready current =
    let a : (s.ready_queue == null) ≡ false = ground arith in
    let b : (s.current_thread == null) ≡ false = ground arith in
    rw (a, b)
      (
        _,
        refl,
        refl,
        refl,
        refl,
        refl,
        refl,
        refl,
        (λ t. ground arith),
        ground arith,
        ground arith,
        (λ ne. ground arith),
      )

handle_timer_event-requeue :
    (fuel : ℕ) (k : Kernel)
    → k.tasks.ready_queue ≢ null
    → k.tasks.current_thread ≢ null
    → k.tasks.remove k.tasks.current_thread ≡ false
    → handle_timer_event fuel k
      ≡ (requeue fuel k.tasks >>= λ s. switch_to_head s >>= λ s'. ok (with_tasks k s'))
unfolding handle_timer_event
handle_timer_event-requeue fuel k ready current alive =
    let a : (k.tasks.ready_queue == null) ≡ false = ground arith in
    let b : (k.tasks.current_thread == null) ≡ false = ground arith in rw (a, b, alive)

-- The theorem below, for the nodes as the globals name them.
switch_self :
    (fuel : ℕ) (k : Kernel) (qs : List ℕ)
    → Runs k.tasks k.tasks.current_thread (k.tasks.ready_queue ∷ qs)
    → length qs < fuel
    → k.tasks.remove k.tasks.current_thread ≡ false
    → Returns (Switches k k.tasks.current_thread k.tasks.ready_queue qs) (handle_timer_event fuel k)
switch_self fuel k qs v h alive =
    let s = k.tasks in
    let r = requeued s (last_or s.ready_queue qs) s.current_thread in
    let (s', e, en, er, ec, et, em, ek, threads, cpu, cr3, heap) =
      switch_to_head-ok r v.chain.1 v.not_null in
    let whole : Chain r.next s.ready_queue (s.ready_queue ∷ qs ++ s.current_thread ∷ []) =
      Chain-requeue s.next s.ready_queue s.ready_queue qs s.current_thread v.chain v.distinct.1
        v.distinct.0 v.not_null in
    rw
      (
        handle_timer_event-requeue fuel k v.chain.1 v.not_null alive,
        requeue-ok fuel s s.current_thread s.ready_queue qs v h,
        e,
      )
      (record {
        runs = record {
          current = ec;
          not_null = v.chain.1;
          chain = rw (en, er) whole.2;
          distinct =
              Distinct-append_one (s.ready_queue ∷ qs) s.current_thread v.distinct.1 v.distinct.0;
          allocated =
              subst (λ h. Below h.current_address (s.ready_queue ∷ qs ++ s.current_thread ∷ []))
                (sym ek)
                (Below-append_one _ (s.ready_queue ∷ qs) s.current_thread v.allocated.1
                  v.allocated.0);
        };
        same_thread = et;
        same_remove = em;
        saved = ap (λ t. t.registers) (threads (s.thread s.current_thread)) ∙ ground arith;
        saved_heap = ap (λ t. t.heap) (threads (s.thread s.current_thread)) ∙ ground arith;
        loaded = λ ne. (cpu ∙ ground arith, cr3 ∙ ground arith, heap ne);
        others = λ t ne. threads t ∙ ground arith;
        same_ids = λ t. ap (λ u. u.id) (threads t) ∙ ground arith;
        same_messages = (refl, refl, refl);
        same_buffer = refl;
        same_heap = ek;
      })

-- A timer interrupt while a thread runs that has not ended, and other threads are ready, returns
-- with the first of the ready queue as the running thread, and with the old one as the last of the
-- queue. The old thread has the registers and the heap saved that it had, the new one's are loaded
-- with its page directory, and no other thread and no message is touched.
pub handle_timer_event-Switches :
    (fuel : ℕ) (k : Kernel) (c q : ℕ) (qs : List ℕ)
    → Runs k.tasks c (q ∷ qs)
    → length qs < fuel
    → k.tasks.remove c ≡ false
    → Returns (Switches k c q qs) (handle_timer_event fuel k)
handle_timer_event-Switches fuel k c q qs v h alive =
    let named : Runs k.tasks k.tasks.current_thread (k.tasks.ready_queue ∷ qs) =
      subst (λ d. Runs k.tasks d (k.tasks.ready_queue ∷ qs)) (sym v.current)
        (subst (λ r. Runs k.tasks c (r ∷ qs)) (sym v.chain.0) v) in
    subst (λ d. Returns (Switches k d q qs) (handle_timer_event fuel k)) v.current
      (subst (λ r. Returns (Switches k k.tasks.current_thread r qs) (handle_timer_event fuel k))
        v.chain.0
        (switch_self fuel k qs named h
          (subst (λ d. k.tasks.remove d ≡ false) (sym v.current) alive)))
