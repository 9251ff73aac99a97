-- ===== src/Idt.antt =====
-- code/IDT.cpp: the interrupt table, the table of routines and the timer chip.
pub mod Setup
use hobby_kernel.Common.{
  ℕ, zero, suc, ◌+◌, ◌-◌, ◌*◌, ◌/◌, ◌%◌, ◌^◌, Option, none, some, ◌==◌, ltb, leb, if◌then◌else◌,
  Outcome, ok, fault, ◌>>=◌,
}
use hobby_kernel.Common.Chain.{write}
use hobby_kernel.Ports.{Ports, outb}

pub record Gate : Type 0 where
  pub low_offset : ℕ
  pub selector : ℕ
  pub settings : ℕ
  pub high_offset : ℕ

-- The routines that `a_Handlers` points at: `page_fault`, `TaskManager::handleTimerEvent` and
-- `Keyboard::handleKeyboardEvent`.
pub data Routine : Type 0 where
  page_fault : Routine
  timer_event : Routine
  keyboard_event : Routine

-- `a_IDT`, `a_Handlers`, the two fields of `IDTR`, the code segment register, and what a local that
-- is not set holds.
pub record Idt : Type 0 where
  pub gates : ℕ → Gate
  pub handlers : ℕ → Option Routine
  pub limit : ℕ
  pub base : ℕ
  pub cs : ℕ
  pub not_set : ℕ

abbrev pub int_0 : ℕ
int_0 = 0x8E00

abbrev pub int_3 : ℕ
int_3 = 0xEE00

abbrev sizeof_interrupt : ℕ
sizeof_interrupt = 8

-- `a_idt` is the address of `a_IDT`.
pub load : ℕ → Idt → Idt
load a_idt s = record s { limit = 256 * (sizeof_interrupt - 1) % 2 ^ 16; base = a_idt }

-- `handler` is an address.
pub set_handler : (int_id handler ring : ℕ) → Idt → Idt
set_handler int_id handler ring s =
    let settings = if ring == 0 then int_0 else if leb ring 3 then int_3 else s.not_set in
    record s {
      gates = write s.gates int_id (record {
        low_offset = handler % 2 ^ 16;
        selector = s.cs;
        settings = settings;
        high_offset = handler / 2 ^ 16;
      });
    }

abbrev pub set_routine : ℕ → Routine → Idt → Idt
set_routine int_id r s = record s { handlers = write s.handlers int_id (some r) }

-- A division by zero is a processor fault.
pub init_timer : ℕ → Ports → Outcome Ports
init_timer frequency s =
    let divisor = 1193180 / frequency in
    if frequency == 0
    then fault
    else ok (outb 0x40 (divisor / 2 ^ 8 % 2 ^ 8) (outb 0x40 (divisor % 2 ^ 8) (outb 0x43 0x36 s)))

-- `setHandler` for `n` vectors in a row.
set_in_row : (n first : ℕ) → (ℕ → ℕ) → Idt → Idt
unfolding set_handler
set_in_row zero first handler s = s
set_in_row (suc n) first handler s =
    set_in_row n (first + 1) handler (set_handler first (handler first) 0 s)

-- The first loop clears the 256 routines.
clear_routines : Idt → Idt
clear_routines s = record s { handlers = λ i. if ltb i 256 then none else s.handlers i }

-- The calls of `setHandler`, and the stores into `a_Handlers` between them.
set_handlers : (isr irq : ℕ → ℕ) → Idt → Idt
unfolding set_in_row clear_routines
set_handlers isr irq s =
    let irq_of = λ (v : ℕ). irq (v - 32) in
    let s1 = set_routine 14 page_fault (set_in_row 15 0 isr (clear_routines s)) in
    let s2 = set_in_row 12 20 (λ v. 0) (set_in_row 5 15 isr s1) in
    let s3 = set_routine 32 timer_event (set_in_row 1 32 irq_of s2) in
    let s4 = set_routine 33 keyboard_event (set_in_row 1 33 irq_of s3) in set_in_row 14 34 irq_of s4

-- `isr n` and `irq n` are the addresses of the entry points of Interrupts.s.
pub setup_handlers : (isr irq : ℕ → ℕ) → Idt × Ports → Outcome (Idt × Ports)
unfolding set_handlers init_timer
setup_handlers isr irq (s, ports) =
    init_timer 500 ports >>= λ ports'. ok (set_handlers isr irq s, ports')
