-- ===== src/Timer.antt =====
-- code/TaskManager.cpp: `handleTimerEvent`, the scheduler.
pub mod Switch
pub mod Rotation
pub mod Ended
use hobby_kernel.Common.{ℕ, zero, suc, ◌==◌, if◌then◌else◌, Outcome, ok, fault, ◌>>=◌}
use hobby_kernel.Common.Chain.{null, write}
use hobby_kernel.KernelHeap.{kernel_free}
use hobby_kernel.TaskManager.{TaskManager, last_node, remove_thread, switch_thread}
use hobby_kernel.Ipc.{Kernel, clear_messages}

abbrev pub with_tasks : Kernel → TaskManager → Kernel
with_tasks k s = record k { tasks = s }

-- The end of the handler: the head of the ready queue is taken off and switched to.
switch_to_head : TaskManager → Outcome TaskManager
switch_to_head s =
    let new = s.ready_queue in
    let old = s.thread s.current_thread in
    let threads = write s.threads old (record (s.threads old) { heap = s.current_heap }) in
    if new == null
    then fault
    else if s.current_thread == null
    then fault
    else switch_thread new (record s {
      ready_queue = s.next new;
      threads = threads;
      current_heap = (threads (s.thread new)).heap;
    })

-- The old thread goes to the end of the ready queue.
requeue : ℕ → TaskManager → Outcome TaskManager
requeue fuel s = do
  last ← last_node fuel s.next s.ready_queue
  ok (record s { next = write (write s.next last s.current_thread) s.current_thread null })

-- The branch for a thread that has ended. `~Heap` does nothing.
retire : ℕ → Kernel → Outcome Kernel
retire fuel k =
    let t = k.tasks.thread k.tasks.current_thread in
    clear_messages fuel (k.tasks.threads t).id k >>= λ k'.
    let s = k'.tasks in
    let heap = kernel_free t (kernel_free (s.threads t).heap s.kernel_heap) in
    remove_thread fuel t (record s { kernel_heap = heap }) >>= λ s'.
    ok (with_tasks k' (record s' { current_thread = null }))

pub handle_timer_event : ℕ → Kernel → Outcome Kernel
unfolding switch_to_head requeue retire
handle_timer_event fuel k =
    let ended = k.tasks.remove k.tasks.current_thread in
    if k.tasks.ready_queue == null
    then ok k
    else if k.tasks.current_thread == null
    then fault
    else if ended
    then (retire fuel k >>= λ k'. switch_to_head k'.tasks >>= λ s. ok (with_tasks k' s))
    else (requeue fuel k.tasks >>= λ s. switch_to_head s >>= λ s'. ok (with_tasks k s'))

-- Timer interrupts in a row.
pub ticks : (fuel n : ℕ) → Kernel → Outcome Kernel
unfolding handle_timer_event
ticks fuel zero k = ok k
ticks fuel (suc n) k = handle_timer_event fuel k >>= ticks fuel n
