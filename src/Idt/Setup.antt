-- ===== src/Idt/Setup.antt =====
-- code/IDT.cpp: the tables behind `setupHandlers` and `load`, and the timer's divisor.
use hobby_kernel.Common.{
  ℕ, ◌+◌, ◌-◌, ◌*◌, ◌/◌, ◌%◌, ◌^◌, ◌≤◌, ◌<◌, ◌≡◌, ◌↔◌, refl, Option, none, some, ◌==◌, ltb, leb,
  if◌then◌else◌, ◌∷◌, ok, Returns, arith, sym, subst,
}
use native.Mathlib.Nat.{div-lt_iff_lt-mul}
use hobby_kernel.Ports.{Ports, outb}
use hobby_kernel.Idt.{
  Gate, Idt, Routine, page_fault, timer_event, keyboard_event, init_timer, int_0,
}

-- The address that the processor goes to by a gate.
abbrev pub target : Gate → ℕ
target g = g.high_offset * 2 ^ 16 + g.low_offset

-- An interrupt gate of ring 0 for an address, on the processor's code segment.
abbrev pub kernel_gate : (cs address : ℕ) → Gate
kernel_gate cs address = record {
  low_offset = address % 2 ^ 16;
  selector = cs;
  settings = int_0;
  high_offset = address / 2 ^ 16;
}

-- Where the processor goes on an interrupt: it reads the eight bytes of the gate, if they lie within
-- the limit.
abbrev pub entry_of : ℕ → Idt → Option ℕ
entry_of v s = if leb (8 * v + 7) s.limit then some (target (s.gates v)) else none

-- The routine that an interrupt leads to.
abbrev pub routine_of : ℕ → Option Routine
routine_of v =
    if v == 14
    then some page_fault
    else if v == 32
    then some timer_event
    else if v == 33
    then some keyboard_event
    else none

abbrev pub Routed : Idt → Type 0
Routed s = (v : ℕ) → v < 256 → s.handlers v ≡ routine_of v

-- The tables at work: exceptions and interrupts go to their entry points, with the three routines
-- behind them, and the code sets no other gate.
pub record Installed (isr irq : ℕ → ℕ) (s s' : Idt) : Type 0 where
  pub exception : (v : ℕ) → v < 20 → entry_of v s' ≡ some (isr v)
  pub reserved : (v : ℕ) → 20 ≤ v → v < 32 → entry_of v s' ≡ some 0
  pub interrupt : (n : ℕ) → n < 16 → entry_of (n + 32) s' ≡ some (irq n)
  pub others : (v : ℕ) → 48 ≤ v → s'.gates v ≡ s.gates v
  pub out_of_reach : (v : ℕ) → 224 ≤ v → entry_of v s' ≡ none
  pub routines : Routed s'

-- The address for a vector below 48.
abbrev stub : (isr irq : ℕ → ℕ) → ℕ → ℕ
stub isr irq v = if ltb v 20 then isr v else if ltb v 32 then 0 else irq (v - 32)

-- The first `n` gates are set, and the rest is as in `s`.
record Filled (f : ℕ → ℕ) (n : ℕ) (s s' : Idt) : Type 0 where
  gates : (v : ℕ) → s'.gates v ≡ (if ltb v n then kernel_gate s.cs (f v) else s.gates v)
  cs : s'.cs ≡ s.cs

-- What the timer chip is sent: the command byte, then two bytes, the low one first. They make up
-- the divisor of its clock if and only if the frequency is at least 19.
pub record Programmed (frequency : ℕ) (s s' : Ports) : Type 0 where
  pub low : ℕ
  pub high : ℕ
  pub sent : s'.sent ≡ (0x40, high) ∷ (0x40, low) ∷ (0x43, 0x36) ∷ s.sent
  pub divides : (high * 2 ^ 8 + low ≡ 1193180 / frequency) ↔ (19 ≤ frequency)

below_2_16 : (frequency : ℕ) → 0 < frequency → (1193180 / frequency < 65536) ↔ (19 ≤ frequency)
below_2_16 frequency h =
    let l = div-lt_iff_lt-mul {k = frequency} {x = 1193180} {y = 65536} h in
    ((λ a. omega (arith, l.0 a)), λ b. l.1 (omega arith))

abbrev programmed : (divisor : ℕ) → Ports → Ports
programmed divisor s =
    outb 0x40 (divisor / 2 ^ 8 % 2 ^ 8) (outb 0x40 (divisor % 2 ^ 8) (outb 0x43 0x36 s))

init_timer-ok :
    (frequency : ℕ) (s : Ports)
    → 0 < frequency
    → init_timer frequency s ≡ ok (programmed (1193180 / frequency) s)
unfolding init_timer
init_timer-ok frequency s h = ground arith

-- For every frequency but 0 `init_timer` returns with the timer chip programmed.
pub init_timer-Programmed :
    (frequency : ℕ) (s : Ports)
    → 0 < frequency
    → Returns (Programmed frequency s) (init_timer frequency s)
init_timer-Programmed frequency s h =
    let sent = programmed (1193180 / frequency) s in
    let p : Programmed frequency s sent = record {
      low = 1193180 / frequency % 2 ^ 8 % 2 ^ 8;
      high = 1193180 / frequency / 2 ^ 8 % 2 ^ 8 % 2 ^ 8;
      sent = refl;
      divides = (
        (λ e. (below_2_16 frequency h).0 (omega (arith, e))),
        λ l. omega (arith, (below_2_16 frequency h).1 l),
      );
    } in
    subst (Returns (Programmed frequency s)) (sym (init_timer-ok frequency s h)) p
