-- ===== src/Ipc/RoundTrip.antt =====
-- code/IPC.cpp: a message that is sent and then received.
use hobby_kernel.Common.{
  ℕ, suc, ◌+◌, ◌≤◌, ◌≡◌, sym, ap, ◌∙◌, true, List, [], ◌∷◌, ◌++◌, arith, length, take, Outcome,
  ◌>>=◌, Option, some, Returns, Returns-mono, Returns->>=,
}
use hobby_kernel.Common.Chain.{has}
use hobby_kernel.KernelHeap.{sizeof_memory_block}
use hobby_kernel.KernelHeap.Bump.{IsReady, room}
use hobby_kernel.TaskManager.{id_of}
use hobby_kernel.Ipc.{Kernel, Answers, sizeof_dataq, send_message, receive_message}
use hobby_kernel.Ipc.Queue.{Queues, NoneFor}
use hobby_kernel.Ipc.Send.{Sends, send_message-Sends, node_at}
use hobby_kernel.Ipc.Receive.{Receives, receive_message-first}

NoneFor-same :
    (k k' : Kernel) (id : ℕ) (ms xs : List ℕ)
    → ((a : ℕ) → has a ms ≡ true → k'.message a ≡ k.message a)
    → ((a : ℕ) → has a xs ≡ true → has a ms ≡ true)
    → NoneFor k id xs
    → NoneFor k' id xs
NoneFor-same k k' id ms [] same sub n = tt
NoneFor-same k k' id ms (x ∷ xs) same sub n = (
  ground (arith, same x, sub x, n.0),
  NoneFor-same k k' id ms xs same (λ a h. sub a (ground arith)) n.1,
)

-- The running thread sends itself a message, and receives one.
pub echo :
    (fuel : ℕ)
    → (new : ℕ → Outcome ℕ) → List ℕ
    → ℕ
    → ℕ
    → Kernel
    → Outcome (Option (List ℕ) × Kernel)
echo fuel new bytes size id k = send_message fuel id bytes size k >>= receive_message fuel new

-- When no message for the running thread waits, one that is sent to it comes back with the same
-- bytes, up to `cbData`, and the queue is as before, while the kernel heap has room and `operator new`
-- returns.
pub echo-take :
    (f : ℕ) (new : ℕ → Outcome ℕ) (answers : Answers new) (size : ℕ) (bytes : List ℕ) (k : Kernel)
    (c : ℕ) (qs ms : List ℕ)
    → Queues k c qs ms
    → IsReady k.tasks.kernel_heap
    → NoneFor k (id_of k.tasks c) ms
    → sizeof_dataq + sizeof_memory_block + size + sizeof_memory_block ≤ room k.tasks.kernel_heap
    → length qs ≤ f
    → length ms ≤ f
    → Returns
        (λ r. (r.0 ≡ some (take size bytes)) × Queues r.1 c qs (ms ++ []))
        (echo (suc f) new bytes size (id_of k.tasks c) k)
unfolding echo
echo-take f new answers size bytes k c qs ms v ready n fits hq hm =
    Returns->>= (Sends k (id_of k.tasks c) size bytes c qs ms) _
      (send_message (suc f) (id_of k.tasks c) bytes size k) (receive_message (suc f) new)
      (send_message-Sends f (id_of k.tasks c) size bytes k c qs ms v ready (ground arith) fits hq
        hm)
      λ k' s.
        Returns-mono (Receives k' c (node_at k) qs (ms ++ [])) _ (receive_message (suc f) new k')
          (receive_message-first (suc f) new answers k' c qs ms (node_at k) [] s.queues
            (rw (s.same_id c) (NoneFor-same k k' _ ms ms s.same_message (λ a h. h) n))
            (s.receiver ∙ sym (s.same_id c)) (omega arith))
          λ r t. (t.result ∙ ap some s.carries, t.queues)
