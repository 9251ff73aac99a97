-- ===== src/Machine/Interrupts.antt =====
-- code/IDT.cpp: interrupts of the hardware in any order.
use hobby_kernel.Common.{
  ℕ, zero, suc, ◌+◌, ◌<◌, ◌≡◌, refl, sym, subst, ap, ◌∙◌, Bool, false, none, Outcome, ok, ◌>>=◌,
  Returns, Returns->>=, Returns-mono, arith, List, [], ◌∷◌, ◌++◌, length, length-append, ◌⊎◌, inl,
  inr,
}
use hobby_kernel.Idt.Setup.{Routed, routine_of}
use hobby_kernel.TaskManager.Queue.{Runs}
use hobby_kernel.Keyboard.{Keyboard, handle_keyboard_event}
use hobby_kernel.Keyboard.Safe.{Between, with_ports-Between, handle_keyboard_event-Between}
use hobby_kernel.Pic.{send_eoi}
use hobby_kernel.Machine.{Machine, call_routine, irq_handler}
use hobby_kernel.Machine.Dispatch.{
  Preempts, acknowledged, irq_handler-Preempts, irq_handler-routine,
}

-- Interrupts of the 16 lines, one after the other.
pub irqs : ℕ → List ℕ → Machine → Outcome Machine
unfolding irq_handler
irqs fuel [] m = ok m
irqs fuel (irq ∷ rest) m = irq_handler fuel (irq + 32) m >>= irqs fuel rest

abbrev pub Lines : List ℕ → Type 0
Lines [] = Unit
Lines (irq ∷ rest) = (irq < 16) × Lines rest

-- A thread runs and `n` others are ready, none of them has ended, and the keyboard works.
pub record Steady (n : ℕ) (m : Machine) : Type 0 where
  pub current : ℕ
  pub waiting : List ℕ
  pub runs : Runs m.kernel.tasks current waiting
  pub size : length waiting ≡ n
  pub alive : (a : ℕ) → m.kernel.tasks.remove a ≡ false
  pub routed : Routed m.idt
  pub keyboard : Between m.keyboard

which_line : (irq : ℕ) → irq < 16 → (irq ≡ 0) ⊎ ((irq ≡ 1) ⊎ (routine_of (irq + 32) ≡ none))
which_line zero h = inl refl
which_line (suc zero) h = inr (inl refl)
which_line (suc (suc n)) h = inr (inr (ground arith))

timer-Steady :
    (fuel n : ℕ) (m : Machine) (c : ℕ) (qs : List ℕ)
    → Steady (suc n) m
    → Runs m.kernel.tasks c qs
    → length qs ≡ suc n
    → n < fuel
    → Returns (Steady (suc n)) (irq_handler fuel 32 m)
timer-Steady fuel n m c [] s r e h = absurd (omega (arith, e))
timer-Steady fuel n m c (q ∷ qs) s r e h =
    Returns-mono (Preempts m c q qs) (Steady (suc n)) (irq_handler fuel 32 m)
      (irq_handler-Preempts fuel m c q qs s.routed r (omega (arith, e, h)) (s.alive c))
      λ m' p. record {
        current = q;
        waiting = qs ++ c ∷ [];
        runs = p.switches.runs;
        size = length-append qs (c ∷ []) ∙ omega (arith, e);
        alive = λ a. ap (λ (remove : ℕ → Bool). remove a) p.switches.same_remove ∙ s.alive a;
        routed = subst (λ (m' : Machine). Routed m'.idt) (sym p.rest) s.routed;
        keyboard =
            subst (λ (m' : Machine). Between m'.keyboard) (sym p.rest)
              (with_ports-Between (send_eoi 0 m.keyboard.ports) m.keyboard s.keyboard);
      }

with_keyboard-Steady :
    (n : ℕ) (m : Machine) (k : Keyboard)
    → Steady n m
    → Between k
    → Steady n (record m { keyboard = k })
with_keyboard-Steady n m k s b = record {
  current = s.current;
  waiting = s.waiting;
  runs = s.runs;
  size = s.size;
  alive = s.alive;
  routed = s.routed;
  keyboard = b;
}

irq_handler-Steady :
    (fuel n irq : ℕ) (m : Machine)
    → irq < 16
    → n < fuel
    → Steady (suc n) m
    → Returns (Steady (suc n)) (irq_handler fuel (irq + 32) m)
unfolding call_routine
irq_handler-Steady fuel n irq m l h s =
    let acked =
      λ (irq : ℕ). with_ports-Between (send_eoi irq m.keyboard.ports) m.keyboard s.keyboard in
    elim (which_line irq l) [
      | inl e ↦
          subst (λ irq. Returns (Steady (suc n)) (irq_handler fuel (irq + 32) m)) (sym e)
            (timer-Steady fuel n m s.current s.waiting s s.runs s.size h)
      | inr (inl e) ↦
          subst (λ irq. Returns (Steady (suc n)) (irq_handler fuel (irq + 32) m)) (sym e)
            (subst (Returns (Steady (suc n)))
              (sym (irq_handler-routine fuel 1 m s.routed (omega arith)))
              (Returns->>= Between (Steady (suc n))
                (handle_keyboard_event (acknowledged 1 m).keyboard)
                (λ keyboard. ok (record (acknowledged 1 m) { keyboard = keyboard }))
                (handle_keyboard_event-Between (acknowledged 1 m).keyboard (acked 1))
                λ k b. with_keyboard-Steady (suc n) m k s b))
      | inr (inr e) ↦
          subst (Returns (Steady (suc n)))
            (sym (
              irq_handler-routine fuel irq m s.routed l
              ∙ ap (λ routine. call_routine fuel routine (acknowledged irq m)) e))
            (with_keyboard-Steady (suc n) m (acknowledged irq m).keyboard s (acked irq))
    ]

-- Whatever interrupts the hardware sends, in any order, each of them returns while no thread has
-- ended and one is ready; a thread runs then, as many others are ready, and the keyboard works.
pub irqs-Steady :
    (fuel n : ℕ) (lines : List ℕ) (m : Machine)
    → Lines lines
    → n < fuel
    → Steady (suc n) m
    → Returns (Steady (suc n)) (irqs fuel lines m)
unfolding irqs
irqs-Steady fuel n [] m l h s = s
irqs-Steady fuel n (irq ∷ lines) m l h s =
    Returns->>= (Steady (suc n)) (Steady (suc n)) (irq_handler fuel (irq + 32) m) (irqs fuel lines)
      (irq_handler-Steady fuel n irq m l.0 h s) λ m' s'. irqs-Steady fuel n lines m' l.1 h s'
