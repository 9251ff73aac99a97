-- ===== src/Kmain/Boot.antt =====
-- kmain.cpp: the set-up of memory and of the first process, and the two programs that exchange messages.
pub mod Exchange
pub mod Rounds
use hobby_kernel.Common.{
  ℕ, ◌+◌, ◌==◌, List, [], ◌∷◌, Option, none, some, true, if◌then◌else◌, Outcome, ok, ◌>>=◌,
}
use hobby_kernel.Console.{Screen, kprintln}
use hobby_kernel.Pmm.{Pmm, init_pmm}
use hobby_kernel.Paging.{Paging, init_vmm}
use hobby_kernel.Heap.{Heap}
use hobby_kernel.Ipc.{Kernel, send_message, receive_message}
use hobby_kernel.Machine.{Machine}
use hobby_kernel.Processes.{Processes, init_tasks, create_process}
use hobby_kernel.Kmain.{start, next_seed, drawing_message, draw}

-- `init_pmm`, `init_vmm` and `TaskManager::init`. `init_vmm` loads cr3.
pub set_up_memory : ℕ → Processes → Outcome Processes
set_up_memory fuel s =
    let pmm = init_pmm 0x300000 s.paging.vmm.pmm in
    init_vmm (record s.paging { vmm = record s.paging.vmm { pmm = pmm } }) >>= λ paging.
    init_tasks fuel (record s { paging = paging; tasks = record s.tasks { cr3 = paging.cr3 } })

-- The same with the first process, of the program at `pg1`.
pub set_up : (fuel pg1 thread_exit thread_start : ℕ) → Processes → Outcome Processes
set_up fuel pg1 thread_exit thread_start s =
    set_up_memory fuel s >>= create_process fuel pg1 thread_exit thread_start

-- All state that `kmain` reaches.
pub record World : Type 0 where
  pub machine : Machine
  pub paging : Paging
  pub heaps : ℕ → Heap
  pub spaces : ℕ → ℕ → ℕ

abbrev processes_of : Machine → World → Processes
processes_of m w = record {
  paging = w.paging;
  tasks = m.kernel.tasks;
  heaps = w.heaps;
  spaces = w.spaces;
}

-- "L20 off" and "L20 on"
abbrev a20_text : (ℕ → ℕ → ℕ) → List ℕ
a20_text words =
    if words 0 0 == words 0x100 0
    then 76 ∷ 50 ∷ 48 ∷ 32 ∷ 111 ∷ 102 ∷ 102 ∷ []
    else 76 ∷ 50 ∷ 48 ∷ 32 ∷ 111 ∷ 110 ∷ []

-- The part of `kmain` behind `Keyboard::setup`, up to the loop at its end.
pub go_on :
    (fuel pg1 thread_exit thread_start : ℕ) → World → Option Machine → Outcome (Option World)
unfolding set_up
go_on fuel pg1 thread_exit thread_start w none = ok none
go_on fuel pg1 thread_exit thread_start w (some m) =
    kprintln fuel (a20_text w.paging.vmm.words) m.keyboard.screen >>= λ screen.
    set_up fuel pg1 thread_exit thread_start (processes_of m w) >>= λ s. ok (
      some (record {
        machine = record m {
          keyboard = record m.keyboard { screen = screen };
          kernel = record m.kernel { tasks = s.tasks };
        };
        paging = s.paging;
        heaps = s.heaps;
        spaces = s.spaces;
      }))

-- `kmain`, up to the loop at its end, or none if it returns before.
pub kmain :
    (fuel magic a_idt pg1 thread_exit thread_start : ℕ) (isr irq : ℕ → ℕ)
    → World
    → Outcome (Option World)
kmain fuel magic a_idt pg1 thread_exit thread_start isr irq w =
    start fuel magic a_idt isr irq w.machine >>= go_on fuel pg1 thread_exit thread_start w

-- One round of the loop of `kmain`: the next seed, and the message to thread 1.
pub send_round : ℕ → ℕ × Kernel → Outcome (ℕ × Kernel)
send_round fuel (seed, k) =
    send_message fuel 1 (drawing_message (next_seed seed)) 3 k >>= λ k'. ok (next_seed seed, k')

-- What `Program1::launch` does with the answer of `receiveMessage`.
draw_message : Option (List ℕ) → Screen → Outcome Screen
draw_message none s = ok s
draw_message (some bytes) s = draw bytes s

-- One round of the loop of `Program1::launch`. `new` is as in `receive_message`.
pub draw_round : ℕ → (new : ℕ → Outcome ℕ) → Kernel × Screen → Outcome (Kernel × Screen)
unfolding draw_message
draw_round fuel new (k, s) =
    receive_message fuel new k >>= λ (message, k'). draw_message message s >>= λ s'. ok (k', s')
