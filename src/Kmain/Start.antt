-- ===== src/Kmain/Start.antt =====
-- kmain.cpp: the machine at the end of the start.
use hobby_kernel.Common.{ℕ, ◌≡◌, ◌≢◌, Option, none, some}
use hobby_kernel.Ports.{Ports}
use hobby_kernel.Idt.{Idt}
use hobby_kernel.Idt.Setup.{Installed}
use hobby_kernel.Keyboard.{Keyboard}
use hobby_kernel.Keyboard.Strokes.{Idle}
use hobby_kernel.Machine.{Machine}

-- The tables lead to the entry points and the routines, and the keyboard waits for its first stroke.
pub record Started (isr irq : ℕ → ℕ) (m m' : Machine) : Type 0 where
  pub tables : Installed isr irq m.idt m'.idt
  pub keyboard : Idle m'.keyboard
  pub kernel : m'.kernel ≡ m.kernel

-- With the wrong magic number the start ends early, otherwise it ends with the machine started.
abbrev pub StartsWith : (magic : ℕ) (isr irq : ℕ → ℕ) (m : Machine) → Option Machine → Type 0
StartsWith magic isr irq m none = magic ≢ 0x2BADB002
StartsWith magic isr irq m (some m') = (magic ≡ 0x2BADB002) × Started isr irq m m'
