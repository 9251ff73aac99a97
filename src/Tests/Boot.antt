-- ===== src/Tests/Boot.antt =====
-- Runs of the theorems on the two programs.
use hobby_kernel.Common.{ℕ, ok, Outcome, refl, arith, Returns}
use hobby_kernel.Ipc.{Kernel}
use hobby_kernel.Kmain.Boot.Exchange.{Talks}
use hobby_kernel.Kmain.Boot.Rounds.{Letters, rounds, rounds-Letters}
use hobby_kernel.Samples.{tasks, kernel, running, screen, kernel_heap-IsReady}

-- The sample's threads 0 and 1, with no message.
abbrev two_threads : Kernel
two_threads = record kernel { tasks = record tasks { next = λ a. 0 }; msgs = 0 }

two_threads-Talks : Talks running 0x200200 running 0x200200 two_threads
two_threads-Talks = record {
  queues = record {
    runs = record {
      current = refl;
      not_null = ground arith;
      chain = ground arith;
      distinct = ground arith;
      allocated = ground arith;
    };
    chain = refl;
    distinct = tt;
    allocated = tt;
    data_allocated = tt;
  };
  ready = kernel_heap-IsReady;
  writes = refl;
  reads = refl;
  writer_alive = refl;
  reader_alive = refl;
}

abbrev place : ℕ → Outcome ℕ
place n = ok 0xD0000008

rounds-Letters_example :
    Returns (Letters running 0x200200 3 123456 screen) (rounds 2 place 3 123456 two_threads screen)
rounds-Letters_example =
    rounds-Letters 0 place (λ n. (0xD0000008, refl)) running 0x200200 3 123456 two_threads screen
      two_threads-Talks (omega arith)
