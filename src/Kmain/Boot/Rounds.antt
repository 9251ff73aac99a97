-- ===== src/Kmain/Boot/Rounds.antt =====
-- kmain.cpp: the letters that the two programs put on the screen.
use mathlib.Core.Path.{fun_ext}
use hobby_kernel.Common.{
  ℕ, zero, suc, ◌+◌, ◌*◌, ◌%◌, ◌≤◌, ◌≡◌, ◌∙◌, refl, sym, subst, ap, arith, [], Outcome, ok, ◌>>=◌,
  Returns, Returns->>=, Returns-mono, ◌==◌, if◌then◌else◌,
}
use hobby_kernel.KernelHeap.Bump.{IsReady, room}
use hobby_kernel.Console.{Screen, color_white}
use hobby_kernel.Ipc.{Kernel, Answers}
use hobby_kernel.Timer.{handle_timer_event}
use hobby_kernel.Timer.Switch.{Switches, handle_timer_event-Switches}
use hobby_kernel.TaskManager.{id_of}
use hobby_kernel.Kmain.{next_seed}
use hobby_kernel.Kmain.Drawing.{Draws}
use hobby_kernel.Kmain.Boot.Exchange.{exchange, message_cost, Talks, Exchanges, exchange-Exchanges}

-- `n` rounds of each of the two threads, in turn.
pub rounds :
    (fuel : ℕ) → (new : ℕ → Outcome ℕ) → (n seed : ℕ) → Kernel → Screen → Outcome (Kernel × Screen)
rounds fuel new zero seed k s = ok (k, s)
rounds fuel new (suc n) seed k s = exchange fuel new seed k s >>= λ (k1, s1).
    handle_timer_event fuel k1 >>= λ k2. rounds fuel new n (next_seed seed) k2 s1

-- A letter in the cell of a seed.
with_letter : ℕ → (ℕ → ℕ) → ℕ → ℕ
with_letter seed ram a =
    let cell = 2 * (seed % 25 * 80 + seed % 80) in
    if a == cell then 90 else if a == cell + 1 then color_white else ram a

-- The screen with a letter for each of `n` seeds.
pub letters : (n seed : ℕ) → (ℕ → ℕ) → ℕ → ℕ
unfolding with_letter
letters zero seed ram = ram
letters (suc n) seed ram = letters n (next_seed seed) (with_letter (next_seed seed) ram)

with_letter-Draws :
    (seed : ℕ) (s s' : Screen)
    → Draws (seed % 80) (seed % 25) s s'
    → s'.videoram ≡ with_letter seed s.videoram
unfolding with_letter
with_letter-Draws seed s s' d = fun_ext λ a. ground (arith, d.letter, d.color, d.others a)

-- With the reader running, the timer interrupt lets the writer run again.
tick-Talks :
    (f c q : ℕ) (k : Kernel)
    → Talks c q q c k
    → Returns
        (λ k'. Talks c q c q k' × (k'.tasks.kernel_heap ≡ k.tasks.kernel_heap))
        (handle_timer_event (suc f) k)
tick-Talks f c q k v =
    Returns-mono (Switches k q c [])
      (λ k'. Talks c q c q k' × (k'.tasks.kernel_heap ≡ k.tasks.kernel_heap))
      (handle_timer_event (suc f) k)
      (handle_timer_event-Switches (suc f) k q c [] v.queues.runs (omega arith) v.reader_alive)
      λ k' t.
        let id_of_node : (a : ℕ) → id_of k'.tasks a ≡ id_of k.tasks a = λ a.
          ap (λ g. (k'.tasks.threads (g a)).id) t.same_thread ∙ t.same_ids (k.tasks.thread a) in
        (
          record {
            queues = record {
              runs = t.runs;
              chain = t.same_messages.0 ∙ v.queues.chain;
              distinct = tt;
              allocated = tt;
              data_allocated = tt;
            };
            ready = subst IsReady (sym t.same_heap) v.ready;
            writes = id_of_node c ∙ v.writes;
            reads = id_of_node q ∙ v.reads;
            writer_alive = ap (λ g. g c) t.same_remove ∙ v.writer_alive;
            reader_alive = ap (λ g. g q) t.same_remove ∙ v.reader_alive;
          },
          t.same_heap,
        )

-- The writer runs again, no message waits, and the letters are on the screen.
pub record Letters (c q n seed : ℕ) (s : Screen) (r : Kernel × Screen) : Type 0 where
  pub talks : Talks c q c q r.0
  pub ram : r.1.videoram ≡ letters n seed s.videoram

-- From a state in which `kmain`'s thread runs, thread 1 is ready and no message waits, `n` rounds of
-- `kmain` and of `Program1` in turn, with timer interrupts between them, return, while the kernel heap has
-- room for `n` messages and `operator new` returns; the screen then has a letter for each of the next `n`
-- seeds, and is else as before.
pub rounds-Letters :
    (f : ℕ) (new : ℕ → Outcome ℕ) (answers : Answers new) (c q n seed : ℕ) (k : Kernel) (s : Screen)
    → Talks c q c q k
    → n * message_cost ≤ room k.tasks.kernel_heap
    → Returns (Letters c q n seed s) (rounds (suc (suc f)) new n seed k s)
unfolding rounds letters
rounds-Letters f new answers c q zero seed k s v fits = record { talks = v; ram = refl }
rounds-Letters f new answers c q (suc n) seed k s v fits =
    let Done = Letters c q (suc n) seed s in
    let next : Kernel → Screen → Outcome (Kernel × Screen) =
      λ k2 s1. rounds (suc (suc f)) new n (next_seed seed) k2 s1 in
    let run : Kernel × Screen → Outcome (Kernel × Screen) =
      λ x. handle_timer_event (suc (suc f)) x.0 >>= λ k2. next k2 x.1 in
    Returns->>= (Exchanges c q seed k s) Done (exchange (suc (suc f)) new seed k s) run
      (exchange-Exchanges f new answers c q seed k s v (omega (arith, fits)))
      λ x e.
        Returns->>= (λ k'. Talks c q c q k' × (k'.tasks.kernel_heap ≡ x.0.tasks.kernel_heap)) Done
          (handle_timer_event (suc (suc f)) x.0) (λ k2. next k2 x.1)
          (tick-Talks (suc f) c q x.0 e.talks)
          λ k2 t.
            Returns-mono (Letters c q n (next_seed seed) x.1) Done (next k2 x.1)
              (rounds-Letters f new answers c q n (next_seed seed) k2 x.1 t.0
                (subst (λ h. n * message_cost ≤ room h) (sym t.1) (omega (arith, fits, e.left))))
              λ r l. record {
                talks = l.talks;
                ram =
                    l.ram
                    ∙ ap (letters n (next_seed seed))
                        (with_letter-Draws (next_seed seed) s x.1 e.draws);
              }
