-- ===== src/Ipc/Send.antt =====
-- code/IPC.cpp: `sendMessage`.
use hobby_kernel.Common.{
  ℕ, zero, suc, ◌+◌, ◌≤◌, ◌<◌, ◌≡◌, ◌∙◌, refl, ap, true, false, not, ◌&&◌, List, [], ◌∷◌, ◌++◌,
  arith, length, take, ◌==◌, ok, Returns, Returns->>=,
}
use hobby_kernel.Common.Chain.{
  null, Chain, has, write, Chain-write, Chain-link, Distinct-append_one,
}
use hobby_kernel.KernelHeap.{KernelHeap, kernel_malloc, sizeof_memory_block}
use hobby_kernel.KernelHeap.Bump.{IsReady, room, Bumps, kernel_malloc-Bumps}
use hobby_kernel.TaskManager.{id_of}
use hobby_kernel.TaskManager.Queue.{has-Below, Below-mono, Below-append_one, last_node-ok}
use hobby_kernel.TaskManager.Running.{any_id, is_running-any_id}
use hobby_kernel.Ipc.{
  Kernel, Message, contents, sizeof_dataq, new_message, link_message, deliver, send_message,
}
use hobby_kernel.Ipc.Queue.{Queues, DataBelow}

-- The addresses that the two allocations return.
abbrev pub node_at : Kernel → ℕ
node_at k = k.tasks.kernel_heap.current_address + sizeof_memory_block

abbrev pub data_at : Kernel → ℕ
data_at k = node_at k + sizeof_dataq + sizeof_memory_block

-- What `sendMessage` has done for a thread that runs.
pub record Sends (k : Kernel) (tid size : ℕ) (bytes : List ℕ) (c : ℕ) (qs ms : List ℕ) (k' : Kernel)
    : Type 0 where
  pub queues : Queues k' c qs (ms ++ node_at k ∷ [])
  pub receiver : (k'.message (node_at k)).tid ≡ tid
  pub carries : contents k' (node_at k) ≡ take size bytes
  pub same_message : (a : ℕ) → has a ms ≡ true → k'.message a ≡ k.message a
  pub same_contents : (a : ℕ) → has a ms ≡ true → contents k' a ≡ contents k a
  pub same_id : (a : ℕ) → id_of k'.tasks a ≡ id_of k.tasks a
  pub same_remove : k'.tasks.remove ≡ k.tasks.remove
  pub heap : IsReady k'.tasks.kernel_heap
  pub top : k'.tasks.kernel_heap.current_address ≡ data_at k + size
  pub same_end : k'.tasks.kernel_heap.last_valid_address ≡ k.tasks.kernel_heap.last_valid_address

take-take : (n : ℕ) (xs : List ℕ) → take n (take n xs) ≡ take n xs
take-take zero xs = refl
take-take (suc n) [] = refl
take-take (suc n) (x ∷ xs) = ap (λ ys. x ∷ ys) (take-take n xs)

data_of_has :
    (n : ℕ) (message : ℕ → Message) (xs : List ℕ) (a : ℕ)
    → DataBelow n message xs
    → has a xs ≡ true
    → (message a).data_address ≤ n
data_of_has n message [] a d h = absurd (ground arith)
data_of_has n message (x ∷ xs) a d h = ground (arith, data_of_has n message xs a d.1, d.0)

-- The state with the new node, before it is linked.
abbrev with_message :
    (k : Kernel) (tid size : ℕ) (bytes : List ℕ) (node data_ptr : ℕ) (heap : KernelHeap) → Kernel
with_message k tid size bytes node data_ptr heap = record k {
  tasks = record k.tasks { kernel_heap = heap };
  message = write k.message node (record { tid = tid; size = size; data_address = data_ptr });
  next = write k.next node null;
  buffer = write k.buffer data_ptr (take size bytes);
}

module _ (k : Kernel) (tid size : ℕ) (bytes : List ℕ) (c : ℕ) (qs ms : List ℕ)
    (v : Queues k c qs ms) (heap : KernelHeap) (ready : IsReady heap)
    (top : heap.current_address ≡ data_at k + size)
    (same_end : heap.last_valid_address ≡ k.tasks.kernel_heap.last_valid_address) where
  abbrev linked : (ℕ → ℕ) → ℕ → Kernel
  linked next msgs = record (with_message k tid size bytes (node_at k) (data_at k) heap) {
    next = next;
    msgs = msgs;
  }

  node_fresh : has (node_at k) ms ≡ false
  node_fresh = has-Below _ (node_at k) ms v.allocated (omega arith)

  DataBelow-new :
      (n : ℕ) (m : Message) (xs : List ℕ)
      → has (node_at k) xs ≡ false
      → k.tasks.kernel_heap.current_address ≤ n
      → m.data_address ≤ n
      → DataBelow k.tasks.kernel_heap.current_address k.message xs
      → DataBelow n (write k.message (node_at k) m) (xs ++ node_at k ∷ [])
  DataBelow-new n m [] h le lt d = (ground arith, tt)
  DataBelow-new n m (x ∷ xs) h le lt d =
      (ground arith, DataBelow-new n m xs (ground arith) le lt d.1)

  Sends-Chain :
      (next : ℕ → ℕ) (msgs : ℕ)
      → Chain next msgs (ms ++ node_at k ∷ [])
      → Sends k tid size bytes c qs ms (linked next msgs)
  Sends-Chain next msgs chain = record {
    queues = record {
      runs = record {
        current = v.runs.current;
        not_null = v.runs.not_null;
        chain = v.runs.chain;
        distinct = v.runs.distinct;
        allocated = Below-mono _ _ (c ∷ qs) (omega arith) v.runs.allocated;
      };
      chain = chain;
      distinct = Distinct-append_one ms (node_at k) v.distinct node_fresh;
      allocated =
          Below-append_one _ ms (node_at k) (Below-mono _ _ ms (omega arith) v.allocated)
            (omega arith);
      data_allocated = DataBelow-new _ _ ms node_fresh (omega arith) (omega arith) v.data_allocated;
    };
    receiver = ground arith;
    carries = ground (arith, take-take size bytes);
    same_message = λ a h. ground (arith, node_fresh);
    same_contents =
        λ a h. ground (arith, node_fresh, data_of_has _ k.message ms a v.data_allocated h);
    same_id = λ a. refl;
    same_remove = refl;
    heap = ready;
    top = top;
    same_end = same_end;
  }

link_message-Sends :
    (fuel tid size : ℕ) (k : Kernel) (bytes : List ℕ) (c : ℕ) (qs ms : List ℕ)
    → Queues k c qs ms
    → (heap : KernelHeap) → IsReady heap
    → heap.current_address ≡ data_at k + size
    → heap.last_valid_address ≡ k.tasks.kernel_heap.last_valid_address
    → length ms ≤ fuel
    → Returns
        (Sends k tid size bytes c qs ms)
        (link_message fuel (node_at k) (with_message k tid size bytes (node_at k) (data_at k) heap))
unfolding link_message
link_message-Sends fuel tid size k bytes c qs [] v heap ready top end h =
    let empty : (k.msgs == null) ≡ true = ground (arith, v.chain) in
    rw empty (
      Sends-Chain k tid size bytes c qs [] v heap ready top end _ (node_at k)
        (refl, omega arith, ground arith))
link_message-Sends fuel tid size k bytes c qs (x ∷ xs) v heap ready top end h =
    let used : (k.msgs == null) ≡ false = ground (arith, v.chain) in
    let fresh : has (node_at k) (x ∷ xs) ≡ false =
      node_fresh k tid size bytes c qs (x ∷ xs) v heap ready top end in
    let old : Chain (write k.next (node_at k) null) k.msgs (x ∷ xs) =
      Chain-write k.next k.msgs (x ∷ xs) (node_at k) null fresh v.chain in
    rw (used, last_node-ok fuel (write k.next (node_at k) null) k.msgs x xs old (omega arith))
      (Sends-Chain k tid size bytes c qs (x ∷ xs) v heap ready top end _ k.msgs (
        Chain-link (write k.next (node_at k) null) k.msgs x xs (node_at k) old v.distinct fresh
          (omega arith) (ground arith)))

new_message-ok :
    (f tid size : ℕ) (bytes : List ℕ) (k : Kernel)
    → IsReady k.tasks.kernel_heap
    → sizeof_dataq + sizeof_memory_block + size + sizeof_memory_block ≤ room k.tasks.kernel_heap
    → Returns
        (λ r.
          (heap : KernelHeap) × IsReady heap
          × (heap.current_address ≡ data_at k + size)
          × (heap.last_valid_address ≡ k.tasks.kernel_heap.last_valid_address)
          × (r ≡ (node_at k, with_message k tid size bytes (node_at k) (data_at k) heap)))
        (new_message (suc f) tid size bytes k)
unfolding new_message
new_message-ok f tid size bytes k ready fits =
    Returns->>= (Bumps k.tasks.kernel_heap sizeof_dataq) _
      (kernel_malloc (suc f) sizeof_dataq k.tasks.kernel_heap) _
      (kernel_malloc-Bumps f k.tasks.kernel_heap sizeof_dataq ready (omega arith))
      λ r b.
        let used : (r.0 == null) ≡ false = ground (arith, b.address) in
        rw used (
          Returns->>= (Bumps r.1 size) _ (kernel_malloc (suc f) size r.1) _
            (kernel_malloc-Bumps f r.1 size b.ready (omega (arith, b.next, b.same_end)))
            λ q d.
              let node : r.0 ≡ node_at k = b.address in
              let address : q.0 ≡ data_at k = omega (arith, d.address, b.next) in
              let given : (q.0 == null && not (size == 0)) ≡ false = ground (arith, d.address) in
              rw given (
                q.1,
                d.ready,
                omega (arith, d.next, b.next),
                d.same_end ∙ b.same_end,
                λ i. (node i, with_message k tid size bytes (node i) (address i) q.1),
              ))

-- `sendMessage` to a thread that runs, while the kernel heap has room, appends one message with the
-- first `cbData` bytes of the data, and changes none of the messages before it.
pub send_message-Sends :
    (f tid size : ℕ) (bytes : List ℕ) (k : Kernel) (c : ℕ) (qs ms : List ℕ)
    → Queues k c qs ms
    → IsReady k.tasks.kernel_heap
    → any_id k.tasks tid (c ∷ qs) ≡ true
    → sizeof_dataq + sizeof_memory_block + size + sizeof_memory_block ≤ room k.tasks.kernel_heap
    → length qs ≤ f
    → length ms ≤ f
    → Returns (Sends k tid size bytes c qs ms) (send_message (suc f) tid bytes size k)
unfolding send_message deliver
send_message-Sends f tid size bytes k c qs ms v ready runs fits hq hm =
    rw (is_running-any_id (suc f) tid c k.tasks qs v.runs (omega arith), runs)
      (Returns->>= _ (Sends k tid size bytes c qs ms) (new_message (suc f) tid size bytes k) _
        (new_message-ok f tid size bytes k ready fits)
        λ r (heap, ready', top, end, e).
          rw e (
            link_message-Sends (suc f) tid size k bytes c qs ms v heap ready' top end
              (omega arith)))

-- To a thread that neither runs nor waits in the ready queue nothing is sent.
pub send_message-unknown :
    (fuel tid size : ℕ) (bytes : List ℕ) (k : Kernel) (c : ℕ) (qs ms : List ℕ)
    → Queues k c qs ms
    → any_id k.tasks tid (c ∷ qs) ≡ false
    → length qs < fuel
    → send_message fuel tid bytes size k ≡ ok k
unfolding send_message
send_message-unknown fuel tid size bytes k c qs ms v unknown h =
    rw (is_running-any_id fuel tid c k.tasks qs v.runs h, unknown)
