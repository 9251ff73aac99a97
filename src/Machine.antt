-- ===== src/Machine.antt =====
-- code/IDT.cpp, `irq_handler` and `isr_handler`: how an interrupt reaches the scheduler and the
-- keyboard; and code/mem/vmm.c, `page_fault`, with code/mem/common.c, `panic`.
pub mod Dispatch
pub mod Interrupts
pub mod Exceptions
pub mod Ended
use hobby_kernel.Common.{
  ℕ, ◌+◌, Option, none, some, List, [], ◌∷◌, leb, if◌then◌else◌, Outcome, ok, halt, ◌>>=◌,
}
use hobby_kernel.Ports.{Ports, outb}
use hobby_kernel.Idt.{Idt, Routine, page_fault, timer_event, keyboard_event}
use hobby_kernel.Console.{Screen, kprint, kprintln, kprint_hex_int}
use hobby_kernel.Ipc.{Kernel}
use hobby_kernel.Timer.{handle_timer_event}
use hobby_kernel.Keyboard.{Keyboard, handle_keyboard_event}

-- The parts that an interrupt can reach. The screen and the ports are those of the keyboard's state.
-- `cr2` is the processor's register with the address of a page fault.
pub record Machine : Type 0 where
  pub idt : Idt
  pub kernel : Kernel
  pub keyboard : Keyboard
  pub cr2 : ℕ

-- "PANIC("
abbrev pub panic_text : List ℕ
panic_text = 80 ∷ 65 ∷ 78 ∷ 73 ∷ 67 ∷ 40 ∷ []

-- It ends in an endless loop with the interrupts off.
pub panic : ℕ → List ℕ → Screen → Outcome Screen
panic fuel message s =
    kprint fuel panic_text s
    >>= kprint fuel message
    >>= kprint fuel (41 ∷ [])
    >>= kprintln fuel []
    >>= λ s'. halt

-- "PAGE FAULT : cr2="
abbrev pub page_fault_text : List ℕ
page_fault_text =
    80 ∷ 65 ∷ 71 ∷ 69 ∷ 32 ∷ 70 ∷ 65 ∷ 85 ∷ 76 ∷ 84 ∷ 32 ∷ 58 ∷ 32 ∷ 99 ∷ 114 ∷ 50 ∷ 61 ∷ []

pub handle_page_fault : (fuel cr2 : ℕ) → Screen → Outcome Screen
unfolding panic
handle_page_fault fuel cr2 s =
    kprint fuel page_fault_text s >>= kprint_hex_int fuel cr2 >>= kprintln fuel [] >>= panic fuel []

-- The call of an entry of `a_Handlers`, if it is set.
pub call_routine : ℕ → Option Routine → Machine → Outcome Machine
unfolding handle_page_fault
call_routine fuel none m = ok m
call_routine fuel (some page_fault) m = handle_page_fault fuel m.cr2 m.keyboard.screen >>= λ screen.
    ok (record m { keyboard = record m.keyboard { screen = screen } })
call_routine fuel (some timer_event) m =
    handle_timer_event fuel m.kernel >>= λ kernel. ok (record m { kernel = kernel })
call_routine fuel (some keyboard_event) m =
    handle_keyboard_event m.keyboard >>= λ keyboard. ok (record m { keyboard = keyboard })

-- The signals for the end of the interrupt.
pub acknowledge : ℕ → Ports → Ports
acknowledge int_no s = let s' = if leb 40 int_no then outb 0xA0 0x20 s else s in outb 0x20 0x20 s'

abbrev pub with_ports : Ports → Machine → Machine
with_ports p m = record m { keyboard = record m.keyboard { ports = p } }

-- `regs.int_no` is the vector that the entry point has pushed.
pub irq_handler : (fuel int_no : ℕ) → Machine → Outcome Machine
unfolding acknowledge call_routine
irq_handler fuel int_no m =
    call_routine fuel (m.idt.handlers int_no) (with_ports (acknowledge int_no m.keyboard.ports) m)

pub isr_handler : (fuel int_no : ℕ) → Machine → Outcome Machine
unfolding call_routine
isr_handler fuel int_no m = call_routine fuel (m.idt.handlers int_no) m
