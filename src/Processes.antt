-- ===== src/Processes.antt =====
-- code/TaskManager.cpp, `init` and `createProcess`, and the operators `new` and `delete` of kmain.cpp:
-- threads, heaps and page directories together.
use hobby_kernel.Common.{ℕ, ◌+◌, ◌%◌, ◌^◌, false, ◌==◌, if◌then◌else◌, Outcome, ok, fault, ◌>>=◌}
use hobby_kernel.Common.Chain.{null, write}
use hobby_kernel.KernelHeap.{kernel_malloc}
use hobby_kernel.TaskManager.{TaskManager, Thread, sizeof_thread, sizeof_thread_list, create_thread}
use hobby_kernel.Heap.{Heap, init_heap, kmalloc, kfree}
use hobby_kernel.Paging.{Paging, create_page_directory, switch_page_directory}

-- The objects of class `Heap` are by their addresses, each with the headers in its own address space;
-- the page tables are those of `paging`, whatever an object that is not in use has. `memory` in `tasks`
-- is that of the current space, and `spaces` has that of the others, by their directories.
pub record Processes : Type 0 where
  pub paging : Paging
  pub tasks : TaskManager
  pub heaps : ℕ → Heap
  pub spaces : ℕ → ℕ → ℕ

abbrev pub sizeof_heap : ℕ
sizeof_heap = 92

abbrev pub loaded : ℕ → Processes → Heap
loaded a s = record (s.heaps a) { vmm = s.paging.vmm }

abbrev pub stored : ℕ → Heap → Processes → Processes
stored a h s = record s { heaps = write s.heaps a h; paging = record s.paging { vmm = h.vmm } }

-- `operator new`
pub operator_new : (fuel size : ℕ) → Processes → Outcome (ℕ × Processes)
operator_new fuel size s =
    let a = s.tasks.current_heap in
    if a == null then fault else (kmalloc fuel size (loaded a s) >>= λ (p, h). ok (p, stored a h s))

-- `operator delete`
pub operator_delete : ℕ → Processes → Outcome Processes
operator_delete p s =
    let a = s.tasks.current_heap in
    if a == null then fault else ok (stored a (kfree p (loaded a s)) s)

-- `new (a) Heap()`
pub construct_heap : ℕ → Processes → Outcome Processes
construct_heap a s =
    if a == null then fault else (init_heap (loaded a s) >>= λ h. ok (stored a h s))

-- `switch_page_directory`, with the memory of the spaces.
pub enter_space : ℕ → Processes → Processes
enter_space pd s =
    let spaces = write s.spaces s.paging.cr3 s.tasks.memory in
    record s {
      spaces = spaces;
      tasks = record s.tasks { memory = spaces pd; cr3 = pd };
      paging = switch_page_directory pd s.paging;
    }

-- `TaskManager::init`. The registers of the first thread are not set.
pub init_tasks : ℕ → Processes → Outcome Processes
init_tasks fuel s = kernel_malloc fuel sizeof_thread s.tasks.kernel_heap >>= λ (t, k1).
    if t == null
    then fault
    else (kernel_malloc fuel sizeof_heap k1 >>= λ (a, k2).
        construct_heap a (record s {
          tasks = record s.tasks {
            kernel_heap = k2;
            tid = (s.tasks.tid + 1) % 2 ^ 32;
            current_heap = a;
            threads = write s.tasks.threads t (record (s.tasks.threads t) {
              id = s.tasks.tid;
              stack = null;
              heap = a;
              page_directory = s.paging.current_page_directory;
            });
          };
        })
        >>= λ s1. kernel_malloc fuel sizeof_thread_list s1.tasks.kernel_heap >>= λ (item, k3).
            if item == null
            then fault
            else ok (record s1 {
              tasks = record s1.tasks {
                kernel_heap = k3;
                current_thread = item;
                thread = write s1.tasks.thread item t;
                next = write s1.tasks.next item null;
                remove = write s1.tasks.remove item false;
                ready_queue = null;
              };
            }))

abbrev pub running_thread : TaskManager → Thread
running_thread s = s.threads (s.thread s.current_thread)

-- The part of `createProcess` in the new space. `createThread` takes the stack from the new heap, after
-- it has taken the thread from the kernel heap, which `operator new` does not touch.
pub create_in_space : (fuel child thread_exit thread_start pd a : ℕ) → Processes → Outcome Processes
create_in_space fuel child thread_exit thread_start pd a s = construct_heap a s >>= λ s1.
    operator_new fuel (1024) (record s1 { tasks = record s1.tasks { current_heap = a } })
    >>= λ (stack, s2).
        create_thread fuel child thread_exit thread_start (ok stack) pd a s2.tasks >>= λ tasks.
        ok (record s2 { tasks = tasks })

-- Back in the space and with the heap of the running thread.
pub return_to_space : Processes → Outcome Processes
return_to_space s =
    let running = running_thread s.tasks in
    if s.tasks.current_thread == null
    then fault
    else ok (
        enter_space running.page_directory
          (record s { tasks = record s.tasks { current_heap = running.heap } }))

pub create_process : (fuel child thread_exit thread_start : ℕ) → Processes → Outcome Processes
create_process fuel child thread_exit thread_start s =
    create_page_directory s.paging >>= λ (pd, paging).
    kernel_malloc fuel sizeof_heap s.tasks.kernel_heap >>= λ (a, k).
    create_in_space fuel child thread_exit thread_start pd a
      (enter_space pd (record s { paging = paging; tasks = record s.tasks { kernel_heap = k } }))
    >>= return_to_space
