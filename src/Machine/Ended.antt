-- ===== src/Machine/Ended.antt =====
-- code/TaskManager.cpp, `thread_exit`: the first interrupt after a thread has returned.
use hobby_kernel.Common.{
  ℕ, ◌≡◌, ◌≢◌, refl, subst, sym, ◌∙◌, arith, true, ◌==◌, if_cases, Outcome, ok, fault, ◌>>=◌,
}
use hobby_kernel.Common.Chain.{null, write}
use hobby_kernel.TaskManager.{TaskManager, thread_exit}
use hobby_kernel.Timer.{with_tasks, handle_timer_event}
use hobby_kernel.Timer.Ended.{IfReturns, IfReturns->>=, stops}
use hobby_kernel.Idt.Setup.{Routed}
use hobby_kernel.Machine.{Machine, irq_handler, call_routine}
use hobby_kernel.Machine.Dispatch.{acknowledged, irq_handler-routine}

-- A thread returns, and the next timer interrupt comes.
pub exit_and_tick : ℕ → Machine → Outcome Machine
exit_and_tick fuel m = thread_exit m.kernel.tasks >>= λ s.
    irq_handler fuel 32 (record m { kernel = with_tasks m.kernel s })

thread_exit-marks :
    (s : TaskManager)
    → IfReturns
        (λ s'. (s'.remove s'.current_thread ≡ true) × (s'.ready_queue ≡ s.ready_queue))
        (thread_exit s)
unfolding thread_exit
thread_exit-marks s =
    if_cases
      (IfReturns (λ s'. (s'.remove s'.current_thread ≡ true) × (s'.ready_queue ≡ s.ready_queue)))
      (s.current_thread == null) fault
      (ok (record s { remove = write s.remove s.current_thread true })) (λ e. tt)
      λ e. (ground arith, refl)

irq_handler-stops :
    (fuel : ℕ) (m : Machine)
    → Routed m.idt
    → m.kernel.tasks.ready_queue ≢ null
    → m.kernel.tasks.remove m.kernel.tasks.current_thread ≡ true
    → IfReturns (λ m'. ⊥) (irq_handler fuel 32 m)
unfolding call_routine
irq_handler-stops fuel m r ready ended =
    subst (IfReturns (λ m'. ⊥)) (sym (irq_handler-routine fuel 0 m r (omega arith))) (
      IfReturns->>= (λ kernel. ⊥) (λ m'. ⊥) (handle_timer_event fuel m.kernel)
        (λ kernel. ok (record (acknowledged 0 m) { kernel = kernel }))
        (stops fuel m.kernel ready ended) λ kernel no. no)

-- With the tables set up and another thread ready, the timer interrupt that follows on the return of a
-- thread does not return in order: it panics, makes an access through a null pointer, or never ends.
pub exit_and_tick-no_return :
    (fuel : ℕ) (m m' : Machine)
    → Routed m.idt
    → m.kernel.tasks.ready_queue ≢ null
    → exit_and_tick fuel m ≢ ok m'
unfolding exit_and_tick
exit_and_tick-no_return fuel m m' r ready e =
    let next =
      λ (s : TaskManager). irq_handler fuel 32 (record m { kernel = with_tasks m.kernel s }) in
    subst (IfReturns (λ m''. ⊥)) e (
      IfReturns->>=
        (λ s'. (s'.remove s'.current_thread ≡ true) × (s'.ready_queue ≡ m.kernel.tasks.ready_queue))
        (λ m''. ⊥) (thread_exit m.kernel.tasks) next (thread_exit-marks m.kernel.tasks)
        λ s h.
          irq_handler-stops fuel (record m { kernel = with_tasks m.kernel s }) r
            (λ z. ready (sym h.1 ∙ z)) h.0)
