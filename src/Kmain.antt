-- ===== src/Kmain.antt =====
-- kmain.cpp: the start of the kernel, the launcher, and the program that draws what it is sent.
pub mod Start
pub mod Lookup
pub mod Drawing
pub mod Boot
use hobby_kernel.Common.{
  ℕ, zero, suc, ◌+◌, ◌*◌, ◌%◌, ◌^◌, ◌&&◌, not, List, [], ◌∷◌, Option, none, some, ◌==◌,
  if◌then◌else◌, Outcome, ok, fault, stuck, ◌>>=◌,
}
use hobby_kernel.Common.Chain.{write}
use hobby_kernel.Console.{Screen, color_white, kclear_screen, kprintln}
use hobby_kernel.Pic.{remap}
use hobby_kernel.Idt.{load, setup_handlers}
use hobby_kernel.Keyboard.{Keyboard, setup}
use hobby_kernel.Machine.{Machine}
use hobby_kernel.TaskManager.{TaskManager, create_thread_here}

-- `strcmp` returns the difference of the two characters where it stops; these are given here.
pub strcmp : (fuel s1 s2 : ℕ) → (ℕ → ℕ) → Outcome (ℕ × ℕ)
strcmp zero s1 s2 m = stuck
strcmp (suc fuel) s1 s2 m =
    let rest = strcmp fuel (s1 + 1) (s2 + 1) m in
    if not (m s1 == 0) && (m s1 == m s2) then rest else ok (m s1, m s2)

-- The class `Launcher`: `m_programs`, by the addresses of the programs, and `m_current`.
pub record Launcher : Type 0 where
  pub programs : ℕ → ℕ
  pub current : ℕ

-- The constructor.
abbrev pub empty_launcher : (ℕ → ℕ) → Launcher
empty_launcher programs = record { programs = programs; current = 0 }

pub add : ℕ → Launcher → Launcher
add program l = record {
  programs = write l.programs l.current program;
  current = (l.current + 1) % 10;
}

-- The loop of `lineEntered`: `n` programs are left, and the next one is `i`. `name` is what `getName`
-- returns for a program.
pub find : (fuel n i line : ℕ) → (name : ℕ → ℕ) → (ℕ → ℕ) → Launcher → Outcome (Option ℕ)
unfolding strcmp
find fuel zero i line name m l = ok none
find fuel (suc n) i line name m l =
    let rest = find fuel n (i + 1) line name m l in
    strcmp fuel (name (l.programs i)) line m >>= λ (a, b).
    if a == b then ok (some (l.programs i)) else rest

-- "Couldn't find it."
abbrev not_found : List ℕ
not_found =
    67 ∷ 111 ∷ 117 ∷ 108 ∷ 100 ∷ 110 ∷ 39 ∷ 116 ∷ 32 ∷ 102 ∷ 105 ∷ 110 ∷ 100 ∷ 32 ∷ 105 ∷ 116 ∷ 46
    ∷ []

-- `thread_exit`, `thread_start` and `new` are as in `create_thread_here`.
pub start_program :
    (fuel thread_exit thread_start : ℕ) (new : Outcome ℕ)
    → Option ℕ
    → TaskManager × Screen
    → Outcome (TaskManager × Screen)
start_program fuel thread_exit thread_start new none (tasks, s) =
    kprintln fuel not_found s >>= λ s'. ok (tasks, s')
start_program fuel thread_exit thread_start new (some program) (tasks, s) =
    create_thread_here fuel program thread_exit thread_start new tasks >>= λ tasks'. ok (tasks', s)

pub line_entered :
    (fuel line thread_exit thread_start : ℕ) (new : Outcome ℕ) (name : ℕ → ℕ) (m : ℕ → ℕ)
    → Launcher
    → TaskManager × Screen
    → Outcome (TaskManager × Screen)
unfolding find start_program
line_entered fuel line thread_exit thread_start new name m l (tasks, s) =
    kprintln fuel [] s >>= λ s'. find fuel l.current 0 line name m l >>= λ program.
    start_program fuel thread_exit thread_start new program (tasks, s')

-- The end of `kmain`: the next seed, and the message that is sent for a seed.
abbrev pub next_seed : ℕ → ℕ
next_seed seed = (seed * 1103515245 + 12345) % 2 ^ 32

pub drawing_message : ℕ → List ℕ
drawing_message seed = seed % 80 ∷ seed % 25 ∷ 90 ∷ []

-- What `Program1::launch` does with a message: it reads three bytes, below 0x80, without a look at the
-- length. A read behind the end is a fault.
pub draw : List ℕ → Screen → Outcome Screen
draw (cursor_x ∷ cursor_y ∷ c ∷ rest) s =
    let pos = 2 * (cursor_y * 80 + cursor_x) in
    ok (record s { videoram = write (write s.videoram pos c) (pos + 1) color_white })
draw _ s = fault

-- "Error"
abbrev error_text : List ℕ
error_text = 69 ∷ 114 ∷ 114 ∷ 111 ∷ 114 ∷ []

-- The part of `kmain` up to `Keyboard::setup`, or none if it returns before. `isr`, `irq` and `a_idt`
-- are the addresses that `setup_handlers` and `load` need.
pub start : (fuel magic a_idt : ℕ) (isr irq : ℕ → ℕ) → Machine → Outcome (Option Machine)
start fuel magic a_idt isr irq m = kclear_screen fuel m.keyboard.screen >>= λ screen.
    if not (magic == 0x2BADB002)
    then (kprintln fuel error_text screen >>= λ screen'. ok none)
    else (setup_handlers isr irq (m.idt, remap 0x20 0x28 m.keyboard.ports) >>= λ (idt, ports).
        setup fuel (record m.keyboard { screen = screen; ports = ports }) >>= λ keyboard.
        ok (some (record m { idt = load a_idt idt; keyboard = keyboard })))
