-- ===== src/Tests/Devices.antt =====
-- Runs of the theorems on the interrupts, the keyboard and the controllers.
use hobby_kernel.Common.{
  ◌≡◌, ◌≢◌, refl, true, false, [], ◌∷◌, ◌++◌, arith, Returns, ok, halt, ◌==◌, if◌then◌else◌,
}
use hobby_kernel.Ports.{Ports}
use hobby_kernel.Idt.{Idt}
use hobby_kernel.Keyboard.{Keyboard, handle_keyboard_event}
use hobby_kernel.Keyboard.Safe.{Between, handle_keyboard_event-Between}
use hobby_kernel.Keyboard.Codes.{Stroke, feed}
use hobby_kernel.Keyboard.History.{Decodes, all_codes, AllPlain, feed-Decodes}
use hobby_kernel.Keyboard.PrintScreen.{Stuck, feed-Stuck, down_codes, up_codes}
use hobby_kernel.Keyboard.Setup.{Fresh}
use hobby_kernel.Machine.{irq_handler, isr_handler}
use hobby_kernel.Machine.Dispatch.{Preempts, irq_handler-Preempts}
use hobby_kernel.Machine.Exceptions.{isr_handler-exceptions}
use hobby_kernel.Machine.Ended.{exit_and_tick, exit_and_tick-no_return}
use hobby_kernel.Machine.Interrupts.{Steady, irqs, irqs-Steady}
use hobby_kernel.Samples.{
  keyboard, keyboard-Between, keyboard-Idle, machine, machine-Steady, running, tasks-Runs,
  screen-OnScreen,
}

-- The timer twice, a key, the timer, and a line without a routine.
irqs-Steady_example : Returns (Steady 2) (irqs 2 (0 ∷ 0 ∷ 1 ∷ 0 ∷ 7 ∷ []) machine)
irqs-Steady_example =
    irqs-Steady 2 1 (0 ∷ 0 ∷ 1 ∷ 0 ∷ 7 ∷ []) machine (ground arith) (omega arith) machine-Steady

irq_handler-Preempts_example :
    Returns (Preempts machine running 0x200200 (0x200300 ∷ [])) (irq_handler 2 32 machine)
irq_handler-Preempts_example =
    irq_handler-Preempts 2 machine running 0x200200 (0x200300 ∷ []) (λ v h. refl) tasks-Runs
      (omega arith) refl

isr_handler-exceptions_example : isr_handler 40 14 machine ≡ (if 14 == 14 then halt else ok machine)
isr_handler-exceptions_example =
    isr_handler-exceptions 40 14 machine (λ v h. refl) screen-OnScreen (omega arith) (omega arith)

handle_keyboard_event-Between_example : Returns Between (handle_keyboard_event keyboard)
handle_keyboard_event-Between_example = handle_keyboard_event-Between keyboard keyboard-Between

-- The key A, and the right control key, which is extended.
abbrev a_down : Stroke
a_down = record { extended = false; pressed = true; code = 0x1C }

abbrev control_up : Stroke
control_up = record { extended = true; pressed = false; code = 0x14 }

plain : AllPlain (a_down ∷ control_up ∷ [])
plain = (
  record {
    known = λ z. omega (arith, z);
    not_printscreen = λ h. absurd (ground (arith, h.0));
    not_released = λ h. absurd (ground (arith, h.0));
  },
  (
    record {
      known = λ z. omega (arith, z);
      not_printscreen = λ h. absurd (ground (arith, h.1));
      not_released = λ h. absurd (ground (arith, h.2));
    },
    tt,
  ),
)

feed-Decodes_example :
    Returns
      (Decodes (a_down ∷ control_up ∷ []) keyboard)
      (feed (all_codes (a_down ∷ control_up ∷ [])) keyboard)
feed-Decodes_example = feed-Decodes (a_down ∷ control_up ∷ []) keyboard plain keyboard-Idle refl

feed-Stuck_example : Returns (Stuck keyboard) (feed (down_codes ++ up_codes) keyboard)
feed-Stuck_example = feed-Stuck keyboard keyboard-Idle refl

abbrev fresh : Keyboard
fresh = record keyboard { lb_len = 0; scancode_to_key = λ c. 0; callback = false }

fresh-Fresh : Fresh fresh
fresh-Fresh = record {
  line = refl;
  on_screen = screen-OnScreen;
  table = λ key. refl;
  keys = λ c. refl;
  is_settled = refl;
}

exit_and_tick-no_return_example : exit_and_tick 3 machine ≢ ok machine
exit_and_tick-no_return_example =
    exit_and_tick-no_return 3 machine machine (λ v h. refl) (ground arith)
