-- ===== src/Ipc.antt =====
-- code/IPC.cpp and code/IPC.h: messages between threads. Interrupts are off in each function, so
-- none of them is interrupted.
pub mod Queue
pub mod Send
pub mod Receive
pub mod Clear
pub mod Cleared
pub mod RoundTrip
pub mod Mailbox
pub mod Refines
use hobby_kernel.Common.{
  ◌≡◌, ℕ, zero, suc, Bool, not, ◌&&◌, ◌==◌, if◌then◌else◌, Outcome, ok, fault, stuck, ◌>>=◌, Option,
  none, some, List, take,
}
use hobby_kernel.Common.Chain.{null, write}
use hobby_kernel.KernelHeap.{kernel_malloc, kernel_free}
use hobby_kernel.TaskManager.{TaskManager, last_node, is_running, current_thread_id}

-- `struct dataq` less its `next`; `data` is an address.
pub record Message : Type 0 where
  pub tid : ℕ
  pub size : ℕ
  pub data_address : ℕ

-- The queue and the thread manager with the kernel heap that both use. `message` and `next` are the
-- fields of the nodes by their addresses, and `buffer` holds the bytes of the data by theirs.
pub record Kernel : Type 0 where
  pub tasks : TaskManager
  pub msgs : ℕ
  pub message : ℕ → Message
  pub next : ℕ → ℕ
  pub buffer : ℕ → List ℕ

abbrev pub sizeof_dataq : ℕ
sizeof_dataq = 16

abbrev pub free_node : ℕ → Kernel → TaskManager
free_node a k = record k.tasks { kernel_heap = kernel_free a k.tasks.kernel_heap }

-- The node and its data, before the node is linked.
new_message : (fuel tid size : ℕ) → List ℕ → Kernel → Outcome (ℕ × Kernel)
new_message fuel tid size bytes k = do
  (msg, heap) ← kernel_malloc fuel sizeof_dataq k.tasks.kernel_heap
  if msg == null then fault else do
    (address, heap') ← kernel_malloc fuel size heap
    if address == null && not (size == 0)
        then fault
        else ok (
          msg,
          record k {
            tasks = record k.tasks { kernel_heap = heap' };
            message =
                write k.message msg (record { tid = tid; size = size; data_address = address });
            next = write k.next msg null;
            buffer = write k.buffer address (take size bytes);
          },
        )

link_message : ℕ → ℕ → Kernel → Outcome Kernel
link_message fuel msg k =
    if k.msgs == null
    then ok (record k { msgs = msg })
    else do last ← last_node fuel k.next k.msgs; ok (record k { next = write k.next last msg })

deliver : (fuel tid size : ℕ) → List ℕ → Kernel → Outcome Kernel
unfolding new_message link_message
deliver fuel tid size bytes k = do
  (msg, k') ← new_message fuel tid size bytes k
  link_message fuel msg k'

pub send_message : (fuel tid : ℕ) → List ℕ → ℕ → Kernel → Outcome Kernel
unfolding deliver
send_message fuel tid bytes size k = do
  running ← is_running fuel tid k.tasks
  if running then deliver fuel tid size bytes k else ok k

-- `operator new` answers every size with memory.
abbrev pub Answers : (ℕ → Outcome ℕ) → Type 0
Answers new = (n : ℕ) → (p : ℕ) × (new n ≡ ok p)

-- What `memcpy` puts into the memory that the receiver gets: `cbData` bytes of the data. Only the node is
-- freed.
abbrev pub contents : Kernel → ℕ → List ℕ
contents k a = take (k.message a).size (k.buffer (k.message a).data_address)

unlink_next : ℕ → Kernel → Kernel
unlink_next it k = record k {
  next = write k.next it (k.next (k.next it));
  tasks = free_node (k.next it) k;
}

receive_loop : ℕ → (new : ℕ → Outcome ℕ) → (id it : ℕ) → Kernel → Outcome (Option (List ℕ) × Kernel)
unfolding unlink_next
receive_loop zero new id it k = stuck
receive_loop (suc fuel) new id it k =
    let rest = receive_loop fuel new id (k.next it) k in
    if k.next it == null
    then ok (none, k)
    else if (k.message (k.next it)).tid == id
    then (new (k.message (k.next it)).size >>= λ p.
        ok (some (contents k (k.next it)), unlink_next it k))
    else rest

-- The walk begins at `iterator->next` without a test of `iterator`.
receive_for :
    (fuel : ℕ) → (new : ℕ → Outcome ℕ) → (id : ℕ) → Kernel → Outcome (Option (List ℕ) × Kernel)
unfolding receive_loop
receive_for fuel new id k =
    if k.msgs == null
    then fault
    else if (k.message k.msgs).tid == id
    then (new (k.message k.msgs).size >>= λ p.
        ok
          (some (contents k k.msgs), record k { msgs = k.next k.msgs; tasks = free_node k.msgs k }))
    else receive_loop fuel new id k.msgs k

-- `new` is what `operator new` answers for a size; the process heap is not part of this state.
pub receive_message : ℕ → (new : ℕ → Outcome ℕ) → Kernel → Outcome (Option (List ℕ) × Kernel)
unfolding receive_for
receive_message fuel new k = do id ← current_thread_id k.tasks; receive_for fuel new id k

pub clear_loop : ℕ → (tid it : ℕ) → Kernel → Outcome Kernel
unfolding unlink_next
clear_loop zero tid it k = stuck
clear_loop (suc fuel) tid it k =
    let k' = if (k.message (k.next it)).tid == tid then unlink_next it k else k in
    let rest = clear_loop fuel tid (k'.next it) k' in
    if it == null then ok k else if k.next it == null then ok k else rest

-- The walk begins at the old head, also when that has just been taken off the list.
pub clear_messages : (fuel tid : ℕ) → Kernel → Outcome Kernel
unfolding clear_loop
clear_messages fuel tid k =
    let it = k.msgs in
    let k' =
      if not (it == null) && ((k.message it).tid == tid)
      then record k { msgs = k.next it; tasks = free_node it k }
      else k in
    clear_loop fuel tid it k'
