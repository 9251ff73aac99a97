-- ===== src/Machine/Dispatch.antt =====
-- code/IDT.cpp: the interrupts at work.
use hobby_kernel.Common.{
  ℕ, ◌+◌, ◌<◌, ◌≡◌, refl, sym, subst, ap, ◌∙◌, false, leb, if◌then◌else◌, ok, Returns, Returns->>=,
  arith, List, ◌∷◌, length,
}
use hobby_kernel.Ports.{Ports, outb}
use hobby_kernel.Pic.{send_eoi}
use hobby_kernel.Idt.Setup.{Routed, routine_of}
use hobby_kernel.TaskManager.Queue.{Runs}
use hobby_kernel.Timer.{handle_timer_event}
use hobby_kernel.Timer.Switch.{Switches, handle_timer_event-Switches}
use hobby_kernel.Machine.{Machine, acknowledge, call_routine, with_ports, irq_handler}

slave_test : (irq : ℕ) → leb 40 (irq + 32) ≡ leb 8 irq
slave_test irq = ground arith

acknowledge-send_eoi : (irq : ℕ) (s : Ports) → acknowledge (irq + 32) s ≡ send_eoi irq s
unfolding acknowledge send_eoi
acknowledge-send_eoi irq s =
    ap (λ slave. outb 0x20 0x20 (if slave then outb 0xA0 0x20 s else s)) (slave_test irq)

-- Behind the end of the interrupt.
abbrev pub acknowledged : ℕ → Machine → Machine
acknowledged irq m = with_ports (send_eoi irq m.keyboard.ports) m

-- `irq_handler` ends the interrupt as `PIC::sendEOI` would, and then runs the routine: the scheduler
-- for the timer, the keyboard's handler for the keyboard, and none for the others.
pub irq_handler-routine :
    (fuel irq : ℕ) (m : Machine)
    → Routed m.idt
    → irq < 16
    → irq_handler fuel (irq + 32) m ≡ call_routine fuel (routine_of (irq + 32)) (acknowledged irq m)
unfolding irq_handler
irq_handler-routine fuel irq m r h =
    ap (λ p. call_routine fuel (m.idt.handlers (irq + 32)) (with_ports p m))
      (acknowledge-send_eoi irq m.keyboard.ports)
    ∙ ap (λ routine. call_routine fuel routine (acknowledged irq m))
        (r (irq + 32) (omega (arith, h)))

-- The scheduler has run, and the first controller alone has been told.
pub record Preempts (m : Machine) (c q : ℕ) (qs : List ℕ) (m' : Machine) : Type 0 where
  pub switches : Switches m.kernel c q qs m'.kernel
  pub rest : m' ≡ record (acknowledged 0 m) { kernel = m'.kernel }

-- A timer interrupt, while a thread runs that has not ended and others are ready, ends the interrupt
-- and switches to the next thread; the keyboard and the tables stay as they are.
pub irq_handler-Preempts :
    (fuel : ℕ) (m : Machine) (c q : ℕ) (qs : List ℕ)
    → Routed m.idt
    → Runs m.kernel.tasks c (q ∷ qs)
    → length qs < fuel
    → m.kernel.tasks.remove c ≡ false
    → Returns (Preempts m c q qs) (irq_handler fuel 32 m)
unfolding call_routine
irq_handler-Preempts fuel m c q qs r v h alive =
    subst (Returns (Preempts m c q qs)) (sym (irq_handler-routine fuel 0 m r (omega arith))) (
      Returns->>= (Switches m.kernel c q qs) (Preempts m c q qs) (handle_timer_event fuel m.kernel)
        (λ kernel. ok (record (acknowledged 0 m) { kernel = kernel }))
        (handle_timer_event-Switches fuel m.kernel c q qs v h alive)
        λ kernel s. record { switches = s; rest = refl })
