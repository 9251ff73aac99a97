-- ===== src/Ipc/Receive.antt =====
-- code/IPC.cpp: `receiveMessage`.
use hobby_kernel.Common.{
  ℕ, zero, suc, ◌≤◌, ◌<◌, ◌≡◌, ◌≢◌, refl, sym, ap, subst, ◌∙◌, true, false, List, [], ◌∷◌, ◌++◌,
  arith, length, ◌==◌, if◌then◌else◌, Outcome, ok, fault, ◌>>=◌, Option, none, some, Returns,
}
use hobby_kernel.Common.Chain.{null, Chain, write, last_or, Chain-unlink, Distinct-remove}
use hobby_kernel.KernelHeap.Bump.{kernel_free_frame}
use hobby_kernel.TaskManager.{id_of}
use hobby_kernel.TaskManager.Queue.{Below}
use hobby_kernel.TaskManager.Running.{current_thread_id-ok}
use hobby_kernel.Ipc.{
  Kernel, Message, Answers, contents, free_node, receive_loop, receive_for, receive_message,
}
use hobby_kernel.Ipc.Queue.{Queues, DataBelow, NoneFor}

-- What is done with the memory does not depend on where it is.
new_then {ℓ} :
    {A : Type ℓ} (new : ℕ → Outcome ℕ) (answers : Answers new) (n : ℕ) (o : Outcome A)
    → (new n >>= λ p. o) ≡ o
new_then new answers n o = ap (λ r. r >>= λ p. o) (answers n).1

receive_loop-none :
    (fuel : ℕ) (new : ℕ → Outcome ℕ) (id x : ℕ) (k : Kernel) (xs : List ℕ)
    → Chain k.next (k.next x) xs
    → NoneFor k id xs
    → length xs < fuel
    → receive_loop fuel new id x k ≡ ok (none, k)
unfolding receive_loop
receive_loop-none zero new id x k xs c n h = absurd (omega arith)
receive_loop-none (suc f) new id x k [] c n h = ground arith
receive_loop-none (suc f) new id x k (y ∷ ys) c n h =
    ground (arith, c.0, c.1, n.0, receive_loop-none f new id y k ys c.2 n.1)

receive_loop-some :
    (fuel : ℕ) (new : ℕ → Outcome ℕ) (answers : Answers new) (id p x : ℕ) (k : Kernel)
    (pre : List ℕ) (y : ℕ) (post : List ℕ)
    → Chain k.next p (x ∷ pre ++ y ∷ post)
    → NoneFor k id pre
    → (k.message y).tid ≡ id
    → length pre < fuel
    → receive_loop fuel new id x k
      ≡ ok (
        some (contents k y),
        record k { next = write k.next (last_or x pre) (k.next y); tasks = free_node y k },
      )
unfolding receive_loop
receive_loop-some zero new answers id p x k pre y post c n e h = absurd (omega arith)
receive_loop-some (suc f) new answers id p x k [] y post c n e h =
    let used : (k.next x == null) ≡ false = ground (arith, c.2.0, c.2.1) in
    let mine : ((k.message (k.next x)).tid == id) ≡ true = rw c.2.0 (ground (arith, e)) in
    rw (used, mine)
      (new_then new answers (k.message (k.next x)).size _
        ∙ ap
            (λ a. ok (
              some (contents k a),
              record k { next = write k.next x (k.next a); tasks = free_node a k },
            ))
            c.2.0)
receive_loop-some (suc f) new answers id p x k (z ∷ zs) y post c n e h = ground (
  arith,
  c.2.0,
  c.2.1,
  n.0,
  receive_loop-some f new answers id (k.next x) z k zs y post c.2 n.1 e,
)

-- A call that has returned the bytes of node `y` and taken it out of the queue.
pub record Receives (k : Kernel) (c y : ℕ) (qs rest : List ℕ) (r : Option (List ℕ) × Kernel)
    : Type 0 where
  pub result : r.0 ≡ some (contents k y)
  pub queues : Queues r.1 c qs rest
  pub same_message : r.1.message ≡ k.message
  pub same_buffer : r.1.buffer ≡ k.buffer
  pub same_tasks : r.1.tasks ≡ free_node y k

Below-remove :
    (n : ℕ) (pre : List ℕ) (y : ℕ) (post : List ℕ)
    → Below n (pre ++ y ∷ post)
    → Below n (pre ++ post)
Below-remove n [] y post b = b.1
Below-remove n (x ∷ pre) y post b = (b.0, Below-remove n pre y post b.1)

DataBelow-remove :
    (n : ℕ) (message : ℕ → Message) (pre : List ℕ) (y : ℕ) (post : List ℕ)
    → DataBelow n message (pre ++ y ∷ post)
    → DataBelow n message (pre ++ post)
DataBelow-remove n message [] y post b = b.1
DataBelow-remove n message (x ∷ pre) y post b = (b.0, DataBelow-remove n message pre y post b.1)

module _ (k : Kernel) (c : ℕ) (qs pre : List ℕ) (y : ℕ) (post : List ℕ) where
  Receives-Chain :
      Queues k c qs (pre ++ y ∷ post)
      → (next : ℕ → ℕ) (msgs : ℕ) → Chain next msgs (pre ++ post)
      → Receives k c y qs
          (pre ++ post)
          (some (contents k y), record k { next = next; msgs = msgs; tasks = free_node y k })
  Receives-Chain v next msgs chain =
      let heap = kernel_free_frame y k.tasks.kernel_heap in
      record {
        result = refl;
        queues = record {
          runs = record {
            current = v.runs.current;
            not_null = v.runs.not_null;
            chain = v.runs.chain;
            distinct = v.runs.distinct;
            allocated = subst (λ n. Below n (c ∷ qs)) (sym heap.0) v.runs.allocated;
          };
          chain = chain;
          distinct = Distinct-remove pre y post v.distinct;
          allocated =
              subst (λ n. Below n (pre ++ post)) (sym heap.0)
                (Below-remove _ pre y post v.allocated);
          data_allocated =
              subst (λ n. DataBelow n k.message (pre ++ post)) (sym heap.0)
                (DataBelow-remove _ k.message pre y post v.data_allocated);
        };
        same_message = refl;
        same_buffer = refl;
        same_tasks = refl;
      }

receive_for-head :
    (fuel : ℕ) (new : ℕ → Outcome ℕ) (answers : Answers new) (id y : ℕ) (k : Kernel)
    → k.msgs ≡ y
    → y ≢ null
    → (k.message y).tid ≡ id
    → receive_for fuel new id k
      ≡ ok (some (contents k y), record k { msgs = k.next y; tasks = free_node y k })
unfolding receive_for
receive_for-head fuel new answers id y k e ne mine =
    let used : (k.msgs == null) ≡ false = ground arith in
    let own : ((k.message k.msgs).tid == id) ≡ true = ground arith in
    rw (used, own)
      (new_then new answers (k.message k.msgs).size _
        ∙ ap (λ a. ok (some (contents k a), record k { msgs = k.next a; tasks = free_node a k })) e)

receive_for-tail :
    (fuel : ℕ) (new : ℕ → Outcome ℕ) (id x : ℕ) (k : Kernel)
    → k.msgs ≡ x
    → x ≢ null
    → ((k.message x).tid == id) ≡ false
    → receive_for fuel new id k ≡ receive_loop fuel new id x k
unfolding receive_for
receive_for-tail fuel new id x k e ne other =
    let used : (k.msgs == null) ≡ false = ground arith in
    let foreign : ((k.message k.msgs).tid == id) ≡ false = ground arith in
    rw (used, foreign) (ap (λ a. receive_loop fuel new id a k) e)

receive_for-Receives :
    (fuel : ℕ) (new : ℕ → Outcome ℕ) (answers : Answers new) (id : ℕ) (k : Kernel) (c : ℕ)
    (qs pre : List ℕ) (y : ℕ) (post : List ℕ)
    → Queues k c qs (pre ++ y ∷ post)
    → NoneFor k id pre
    → (k.message y).tid ≡ id
    → length pre ≤ fuel
    → Returns (Receives k c y qs (pre ++ post)) (receive_for fuel new id k)
receive_for-Receives fuel new answers id k c qs [] y post v n e h =
    rw (receive_for-head fuel new answers id y k v.chain.0 v.chain.1 e)
      (Receives-Chain k c qs [] y post v k.next (k.next y) v.chain.2)
receive_for-Receives fuel new answers id k c qs (x ∷ pre) y post v n e h =
    rw
      (
        receive_for-tail fuel new id x k v.chain.0 v.chain.1 n.0,
        receive_loop-some fuel new answers id k.msgs x k pre y post v.chain n.1 e h,
      )
      (Receives-Chain k c qs (x ∷ pre) y post v _ k.msgs
        (Chain-unlink k.next k.msgs x pre y post v.chain v.distinct))

-- While `operator new` returns, `receiveMessage` returns the bytes of the first message for the running thread, and takes that
-- message out of the queue. The others keep their order and their contents.
pub receive_message-first :
    (fuel : ℕ) (new : ℕ → Outcome ℕ) (answers : Answers new) (k : Kernel) (c : ℕ) (qs pre : List ℕ)
    (y : ℕ) (post : List ℕ)
    → Queues k c qs (pre ++ y ∷ post)
    → NoneFor k (id_of k.tasks c) pre
    → (k.message y).tid ≡ id_of k.tasks c
    → length pre ≤ fuel
    → Returns (Receives k c y qs (pre ++ post)) (receive_message fuel new k)
unfolding receive_message
receive_message-first fuel new answers k c qs pre y post v n e h =
    rw (current_thread_id-ok c k.tasks qs v.runs)
      (receive_for-Receives fuel new answers (id_of k.tasks c) k c qs pre y post v n e h)

receive_for-none :
    (fuel : ℕ) (new : ℕ → Outcome ℕ) (id x : ℕ) (k : Kernel) (xs : List ℕ)
    → Chain k.next k.msgs (x ∷ xs)
    → NoneFor k id (x ∷ xs)
    → length xs < fuel
    → receive_for fuel new id k ≡ ok (none, k)
receive_for-none fuel new id x k xs c n h =
    receive_for-tail fuel new id x k c.0 c.1 n.0 ∙ receive_loop-none fuel new id x k xs c.2 n.1 h

receive_for-fault :
    (fuel : ℕ) (new : ℕ → Outcome ℕ) (id : ℕ) (k : Kernel)
    → k.msgs ≡ null
    → receive_for fuel new id k ≡ fault
unfolding receive_for
receive_for-fault fuel new id k e = let test : (k.msgs == null) ≡ true = ground arith in rw test

-- When there are messages but none for the running thread, `receiveMessage` returns NULL and
-- changes nothing; when the queue is empty, it reads through a null pointer instead.
pub receive_message-others :
    (fuel : ℕ) (new : ℕ → Outcome ℕ) (k : Kernel) (c : ℕ) (qs ms : List ℕ)
    → Queues k c qs ms
    → NoneFor k (id_of k.tasks c) ms
    → length ms ≤ fuel
    → receive_message fuel new k ≡ (if length ms == 0 then fault else ok (none, k))
unfolding receive_message
receive_message-others fuel new k c qs [] v n h =
    rw (current_thread_id-ok c k.tasks qs v.runs)
      (receive_for-fault fuel new (id_of k.tasks c) k v.chain)
receive_message-others fuel new k c qs (x ∷ xs) v n h =
    rw (current_thread_id-ok c k.tasks qs v.runs)
      (ground (arith, receive_for-none fuel new (id_of k.tasks c) x k xs v.chain n (omega arith)))
