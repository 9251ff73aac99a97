-- ===== src/Tests/Messages.antt =====
-- Runs of the theorems on code/IPC.cpp.
use hobby_kernel.Common.{
  ℕ, List, ◌≡◌, refl, true, [], ◌∷◌, ◌++◌, arith, ◌==◌, if◌then◌else◌, Returns, Outcome, halt, ok,
  none, some,
}
use hobby_kernel.Samples.{running, ready, messages, kernel, kernel_heap-IsReady, kernel-Queues}
use hobby_kernel.Ipc.{Kernel, receive_message, clear_messages}
use hobby_kernel.Ipc.Queue.{Queues}
use hobby_kernel.Ipc.Receive.{receive_message-others}
use hobby_kernel.Ipc.Clear.{is_for}
use hobby_kernel.Ipc.Cleared.{Clears, clear_messages-Clears, clear_messages-leaves_second}
use hobby_kernel.TaskManager.Running.{any_id}
use hobby_kernel.Ipc.Mailbox.{Request, send, receive, replay, run, view}
use hobby_kernel.Ipc.Refines.{run-replay}
use hobby_kernel.Ipc.RoundTrip.{echo, echo-take}

-- No message waits for the running thread.
abbrev foreign : Kernel
foreign = record kernel {
  message = λ a. record { tid = if a == 0x200060 then 2 else 1; size = 2; data_address = 0x2000A0 };
}

foreign-Queues : Queues foreign running ready messages
foreign-Queues = record {
  runs = kernel-Queues.runs;
  chain = kernel-Queues.chain;
  distinct = kernel-Queues.distinct;
  allocated = kernel-Queues.allocated;
  data_allocated = kernel-Queues.data_allocated;
}

-- `operator new` with memory, and without.
abbrev place : ℕ → Outcome ℕ
place n = ok 0xD0000008

abbrev full : ℕ → Outcome ℕ
full n = halt

receive_message-others_example : receive_message 3 full foreign ≡ ok (none, foreign)
receive_message-others_example =
    receive_message-others 3 full foreign running ready messages foreign-Queues (ground arith)
      (omega arith)

echo-take_example :
    Returns
      (λ r. (r.0 ≡ some (7 ∷ 8 ∷ [])) × Queues r.1 running ready (messages ++ []))
      (echo 4 place (7 ∷ 8 ∷ 9 ∷ []) 2 0 foreign)
echo-take_example =
    echo-take 3 place (λ n. (0xD0000008, refl)) 2 (7 ∷ 8 ∷ 9 ∷ []) foreign running ready messages
      foreign-Queues kernel_heap-IsReady (ground arith) (omega arith) (omega arith) (omega arith)

clear_messages-Clears_example : Returns (Clears kernel 1 messages) (clear_messages 4 1 kernel)
clear_messages-Clears_example =
    clear_messages-Clears 4 1 kernel running ready messages kernel-Queues (ground arith)
      (omega arith)

-- All messages are for thread 1.
abbrev crowded : Kernel
crowded = record kernel { message = λ a. record { tid = 1; size = 2; data_address = 0x2000A0 } }

crowded-Queues : Queues crowded running ready messages
crowded-Queues = record {
  runs = kernel-Queues.runs;
  chain = kernel-Queues.chain;
  distinct = kernel-Queues.distinct;
  allocated = kernel-Queues.allocated;
  data_allocated = kernel-Queues.data_allocated;
}

clear_messages-leaves_second_example :
    Returns (λ k. (k.msgs ≡ 0x200060) × (is_for k 1 0x200060 ≡ true)) (clear_messages 4 1 crowded)
clear_messages-leaves_second_example =
    clear_messages-leaves_second 4 1 crowded running ready 0x200040 0x200060 (0x200080 ∷ [])
      crowded-Queues refl refl (omega arith)

-- One message goes to a thread that is ready, one to a thread that there is not, and the running
-- thread receives the one that waits for it and asks for another.
abbrev requests : List Request
requests = send 2 (7 ∷ 8 ∷ []) 2 ∷ send 9 (5 ∷ []) 1 ∷ receive ∷ receive ∷ []

run-replay_example :
    run 8 place requests kernel
    ≡ replay 0 (λ tid. any_id kernel.tasks tid (running ∷ ready)) requests (view kernel messages)
run-replay_example =
    run-replay 7 place (λ n. (0xD0000008, refl)) requests kernel running ready messages
      kernel-Queues kernel_heap-IsReady (omega arith) (omega arith) (omega arith)
