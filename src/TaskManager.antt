-- ===== src/TaskManager.antt =====
-- code/TaskManager.cpp and code/TaskManager.h: threads and the ready queue.
pub mod Queue
pub mod Running
pub mod Removal
pub mod Create
use hobby_kernel.Common.{
  ℕ, zero, suc, ◌+◌, ◌-◌, ◌*◌, ◌%◌, ◌^◌, Bool, true, false, ◌==◌, if◌then◌else◌, Outcome, ok, fault,
  stuck, ◌>>=◌,
}
use hobby_kernel.Common.Chain.{null, write}
use hobby_kernel.KernelHeap.{KernelHeap, kernel_malloc, kernel_free}

-- The registers that `switch_thread` saves.
pub record Registers : Type 0 where
  pub esp : ℕ
  pub ebp : ℕ
  pub ebx : ℕ
  pub esi : ℕ
  pub edi : ℕ
  pub eflags : ℕ

-- `thread_t`
pub record Thread : Type 0 where
  pub registers : Registers
  pub page_directory : ℕ
  pub heap : ℕ
  pub id : ℕ
  pub stack : ℕ

-- The object, the globals that it uses, and the structures in memory by their addresses: `threads`
-- holds the `thread_t`, and `thread`, `next` and `remove` are the fields of the `thread_list_t`.
pub record TaskManager : Type 0 where
  pub kernel_heap : KernelHeap
  pub threads : ℕ → Thread
  pub thread : ℕ → ℕ
  pub next : ℕ → ℕ
  pub remove : ℕ → Bool
  pub memory : ℕ → ℕ
  pub ready_queue : ℕ
  pub current_thread : ℕ
  pub tid : ℕ
  pub current_heap : ℕ
  pub cpu : Registers
  pub cr3 : ℕ

abbrev pub sizeof_thread : ℕ
sizeof_thread = 40

abbrev pub sizeof_thread_list : ℕ
sizeof_thread_list = 12

-- `while (iterator->next) iterator = iterator->next;` on fuel
pub last_node : ℕ → (ℕ → ℕ) → ℕ → Outcome ℕ
last_node zero next it = stuck
last_node (suc fuel) next it =
    let rest = last_node fuel next (next it) in if next it == null then ok it else rest

-- Links `item` behind the last node of the ready queue.
pub link_last : ℕ → ℕ → TaskManager → Outcome TaskManager
unfolding last_node
link_last fuel item s = do
  last ← last_node fuel s.next s.ready_queue
  ok (record s { next = write s.next last item })

-- A write through a null pointer that `kernel_malloc` returned is a fault.
pub add_thread : ℕ → ℕ → TaskManager → Outcome TaskManager
unfolding link_last
add_thread fuel t s = do
  (item, heap) ← kernel_malloc fuel sizeof_thread_list s.kernel_heap
  if item == null then fault else do
    let s' = record s {
      kernel_heap = heap;
      thread = write s.thread item t;
      next = write s.next item null;
      remove = write s.remove item false;
    }
    if s.ready_queue == null then ok (record s' { ready_queue = item }) else link_last fuel item s'

-- Unlinks the node behind `it`, and frees it.
unlink_next : ℕ → TaskManager → TaskManager
unlink_next it s = record s {
  next = write s.next it (s.next (s.next it));
  kernel_heap = kernel_free (s.next it) s.kernel_heap;
}

-- The loop of `removeThread`: it goes on behind the node that it has unlinked.
remove_loop : ℕ → (t it : ℕ) → TaskManager → Outcome TaskManager
unfolding unlink_next
remove_loop zero t it s = stuck
remove_loop (suc fuel) t it s =
    let s' = if s.thread (s.next it) == t then unlink_next it s else s in
    let rest = remove_loop fuel t (s'.next it) s' in
    if it == null then fault else if s.next it == null then ok s else rest

pub remove_thread : (fuel t : ℕ) → TaskManager → Outcome TaskManager
unfolding remove_loop
remove_thread fuel t s =
    if s.ready_queue == null
    then fault
    else if s.thread s.ready_queue == t
    then ok (record s {
      ready_queue = s.next s.ready_queue;
      kernel_heap = kernel_free s.ready_queue s.kernel_heap;
    })
    else remove_loop fuel t s.ready_queue s

abbrev pub id_of : TaskManager → ℕ → ℕ
id_of s item = (s.threads (s.thread item)).id

running_loop : ℕ → (id it : ℕ) → TaskManager → Outcome Bool
running_loop zero id it s = stuck
running_loop (suc fuel) id it s =
    let rest = running_loop fuel id (s.next it) s in
    if it == null then ok false else if id_of s it == id then ok true else rest

pub is_running : (fuel id : ℕ) → TaskManager → Outcome Bool
unfolding running_loop
is_running fuel id s =
    if s.current_thread == null
    then fault
    else if id_of s s.current_thread == id
    then ok true
    else running_loop fuel id s.ready_queue s

pub current_thread_id : TaskManager → Outcome ℕ
current_thread_id s = if s.current_thread == null then fault else ok (id_of s s.current_thread)

-- The stack that a new thread starts on: `child` above `thread_exit` above `thread_start`, each a
-- word, from the top that is 0xFC words above `stack`.
abbrev pub initial_esp : ℕ → ℕ
initial_esp stack = stack + 4 * 0xFC - 12

abbrev pub start_stack : (child thread_exit thread_start stack : ℕ) → (ℕ → ℕ) → ℕ → ℕ
start_stack child thread_exit thread_start stack memory =
    write (write (write memory (initial_esp stack + 8) child) (initial_esp stack + 4) thread_exit)
      (initial_esp stack) thread_start

-- `memset` to zero.
abbrev pub zero_registers : Registers
zero_registers = record { esp = 0; ebp = 0; ebx = 0; esi = 0; edi = 0; eflags = 0 }

-- `new` is the call `new uint32_t[0x100]`; the heap that it changes is not part of this state.
pub create_thread :
    (fuel child thread_exit thread_start : ℕ) (new : Outcome ℕ) (page_directory heap : ℕ)
    → TaskManager
    → Outcome TaskManager
create_thread fuel child thread_exit thread_start new page_directory heap s = do
  (t, kernel_heap) ← kernel_malloc fuel sizeof_thread s.kernel_heap
  if t == null
      then fault
      else (new >>= λ stack. add_thread fuel t (record s {
        kernel_heap = kernel_heap;
        tid = (s.tid + 1) % 2 ^ 32;
        memory = start_stack child thread_exit thread_start stack s.memory;
        threads = write s.threads t (record {
          registers = record zero_registers { esp = initial_esp stack; eflags = 0x200 };
          page_directory = page_directory;
          heap = heap;
          id = s.tid;
          stack = stack;
        });
      }))

-- `createThread(Launchable *)`: the new thread shares the running one's directory and heap.
pub create_thread_here :
    (fuel child thread_exit thread_start : ℕ) (new : Outcome ℕ) → TaskManager → Outcome TaskManager
create_thread_here fuel child thread_exit thread_start new s =
    let running = s.threads (s.thread s.current_thread) in
    if s.current_thread == null
    then fault
    else create_thread fuel child thread_exit thread_start new running.page_directory running.heap s

-- What a thread does when it returns, up to the endless loop that prints.
unfoldable pub thread_exit : TaskManager → Outcome TaskManager
thread_exit s =
    if s.current_thread == null
    then fault
    else ok (record s { remove = write s.remove s.current_thread true })

-- code/thread_asm.s
unfoldable pub switch_thread : ℕ → TaskManager → Outcome TaskManager
switch_thread item s =
    let old = s.thread s.current_thread in
    let threads = write s.threads old (record (s.threads old) { registers = s.cpu }) in
    let new = threads (s.thread item) in
    if s.current_thread == null
    then fault
    else ok (record s {
      threads = threads;
      current_thread = item;
      cpu = new.registers;
      cr3 = new.page_directory;
    })
