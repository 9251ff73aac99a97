-- ===== src/Timer/Ended.antt =====
-- code/TaskManager.cpp: the timer interrupt after the running thread has ended.
use hobby_kernel.Common.{
  ℕ, ◌≡◌, ◌≢◌, refl, subst, true, false, arith, Bool-cases, inl, inr, ◌==◌, Outcome, ok, halt,
  fault, stuck, ◌>>=◌,
}
use hobby_kernel.Common.Chain.{null}
use hobby_kernel.TaskManager.{TaskManager, remove_thread}
use hobby_kernel.Ipc.{Kernel, clear_messages}
use hobby_kernel.Timer.{handle_timer_event, switch_to_head, retire}

-- If the run returns a value, `P` holds of it.
abbrev pub IfReturns {ℓ} : {A : Type ℓ} → (A → Type 0) → Outcome A → Type 0
IfReturns P (ok a) = P a
IfReturns P halt = Unit {0}
IfReturns P fault = Unit {0}
IfReturns P stuck = Unit {0}

pub IfReturns->>= {ℓ κ} :
    {A : Type ℓ} {B : Type κ} (P : A → Type 0) (Q : B → Type 0) (r : Outcome A) (f : A → Outcome B)
    → IfReturns P r
    → ((a : A) → P a → IfReturns Q (f a))
    → IfReturns Q (r >>= f)
IfReturns->>= P Q (ok a) f h next = next a h
IfReturns->>= P Q halt f h next = tt
IfReturns->>= P Q fault f h next = tt
IfReturns->>= P Q stuck f h next = tt

IfReturns-any {ℓ} : {A : Type ℓ} (r : Outcome A) → IfReturns (λ a. Unit {0}) r
IfReturns-any (ok a) = tt
IfReturns-any halt = tt
IfReturns-any fault = tt
IfReturns-any stuck = tt

-- `retire` sets `current_thread` to NULL.
retire-null :
    (fuel : ℕ) (k : Kernel) → IfReturns (λ k'. k'.tasks.current_thread ≡ null) (retire fuel k)
unfolding retire
retire-null fuel k =
    IfReturns->>= (λ k'. Unit {0}) (λ k'. k'.tasks.current_thread ≡ null)
      (clear_messages fuel (k.tasks.threads (k.tasks.thread k.tasks.current_thread)).id k) _
      (IfReturns-any _)
      λ k' u.
        IfReturns->>= (λ s. Unit {0}) (λ k'. k'.tasks.current_thread ≡ null)
          (remove_thread fuel (k.tasks.thread k.tasks.current_thread) _) _ (IfReturns-any _)
          λ s w. refl

switch_to_head-fault : (s : TaskManager) → s.current_thread ≡ null → switch_to_head s ≡ fault
unfolding switch_to_head
switch_to_head-fault s e =
    let none : (s.current_thread == null) ≡ true = ground arith in rw none (ground arith)

pub stops :
    (fuel : ℕ) (k : Kernel)
    → k.tasks.ready_queue ≢ null
    → k.tasks.remove k.tasks.current_thread ≡ true
    → IfReturns (λ k'. ⊥) (handle_timer_event fuel k)
unfolding handle_timer_event
stops fuel k ready ended =
    let some_ready : (k.tasks.ready_queue == null) ≡ false = ground arith in
    elim (Bool-cases (k.tasks.current_thread == null)) [
      | inl none ↦ rw (some_ready, none) tt
      | inr runs ↦
          rw (some_ready, runs, ended)
            (IfReturns->>= (λ k'. k'.tasks.current_thread ≡ null) (λ k'. ⊥) (retire fuel k) _
              (retire-null fuel k) λ k' n. rw (switch_to_head-fault k'.tasks n) tt)
    ]

-- When the running thread has ended and another is ready, the timer interrupt does not return in order:
-- if nothing before goes wrong, it uses `current_thread`, which it has just set to NULL.
pub handle_timer_event-ended :
    (fuel : ℕ) (k k' : Kernel)
    → k.tasks.ready_queue ≢ null
    → k.tasks.remove k.tasks.current_thread ≡ true
    → handle_timer_event fuel k ≢ ok k'
handle_timer_event-ended fuel k k' ready ended e =
    subst (IfReturns (λ k''. ⊥)) e (stops fuel k ready ended)
