-- ===== src/Ipc/Queue.antt =====
-- code/IPC.cpp: the message queue as a list of nodes.
use hobby_kernel.Common.{ℕ, ◌≤◌, ◌==◌, ◌≡◌, false, List, [], ◌∷◌}
use hobby_kernel.Common.Chain.{Chain, Distinct}
use hobby_kernel.TaskManager.Queue.{Below, Runs}
use hobby_kernel.Ipc.{Kernel, Message}

-- The data of each message does not begin above the bound.
abbrev pub DataBelow : ℕ → (ℕ → Message) → List ℕ → Type 0
DataBelow n message [] = Unit
DataBelow n message (x ∷ xs) = ((message x).data_address ≤ n) × DataBelow n message xs

-- `c` is the running node and `qs` are the ready ones; `ms` are the nodes of the message queue, in
-- order, all different and from the kernel heap.
pub record Queues (k : Kernel) (c : ℕ) (qs ms : List ℕ) : Type 0 where
  pub runs : Runs k.tasks c qs
  pub chain : Chain k.next k.msgs ms
  pub distinct : Distinct ms
  pub allocated : Below k.tasks.kernel_heap.current_address ms
  pub data_allocated : DataBelow k.tasks.kernel_heap.current_address k.message ms

-- None of the messages is for this thread.
abbrev pub NoneFor : Kernel → ℕ → List ℕ → Type 0
NoneFor k id [] = Unit
NoneFor k id (x ∷ xs) = (((k.message x).tid == id) ≡ false) × NoneFor k id xs
