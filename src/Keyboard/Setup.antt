-- ===== src/Keyboard/Setup.antt =====
-- code/Keyboard.cpp: the keyboard at the start.
use hobby_kernel.Common.{
  ℕ, ltb, if_cases, ◌≤◌, ◌<◌, bit_and, ◌≡◌, refl, sym, ap, ◌∙◌, false, if◌then◌else◌, ok, Returns,
  Returns->>=, arith,
}
use hobby_kernel.Ports.{outb, inb}
use hobby_kernel.Console.{Screen, kprintln}
use hobby_kernel.Console.Print.{OnScreen, Prints, kprintln-Prints}
use hobby_kernel.Keyboard.{Keyboard, setup, setup_key_map, setup_text}
use hobby_kernel.Keyboard.Codes.{key_of, key_of-beyond, settled}
use hobby_kernel.Keyboard.Strokes.{Idle}

-- As the program is loaded: an empty line, no key pressed, and nothing in the table of keys.
pub record Fresh (k : Keyboard) : Type 0 where
  pub line : k.lb_len ≡ 0
  pub on_screen : OnScreen k.screen
  pub table : (key : ℕ) → k.is_pressed key ≡ false
  pub keys : (c : ℕ) → k.scancode_to_key c ≡ 0
  pub is_settled : k ≡ settled k

at_least : (a b : ℕ) → ltb a b ≡ false → b ≤ a
at_least a b e = ground arith

key_of-table : (c old : ℕ) → old ≡ 0 → (if ltb c 132 then key_of c else old) ≡ key_of c
key_of-table c old e =
    if_cases (λ key. key ≡ key_of c) (ltb c 132) (key_of c) old (λ t. refl)
      λ t. e ∙ sym (key_of-beyond c (at_least c 132 t))

-- `setup` returns, and the keyboard waits for the first stroke.
pub setup-Idle : (fuel : ℕ) (k : Keyboard) → Fresh k → 28 < fuel → Returns Idle (setup fuel k)
unfolding setup setup_key_map
setup-Idle fuel k f h =
    let (_, p1) = inb 0x60 (outb 0x64 0xAD k.ports) in
    let (control, p2) = inb 0x60 (outb 0x64 0x20 p1) in
    let p3 = outb 0x64 0xAE (outb 0x60 (bit_and control 0xBF) (outb 0x64 0x60 p2)) in
    let started = λ (screen : Screen) (k : Keyboard). record (setup_key_map k) {
      callback = false;
      ports = p3;
      screen = screen;
    } in
    Returns->>= (Prints k.screen) Idle (kprintln fuel setup_text k.screen)
      (λ screen. ok (started screen k))
      (kprintln-Prints fuel setup_text k.screen f.on_screen h (omega arith))
      λ screen p. record {
        ready = record {
          room = omega (arith, f.line);
          on_screen = p.on_screen;
          key_0 = f.table 0;
          key_1 = f.table 1;
        };
        keys = λ c. key_of-table c (k.scancode_to_key c) (f.keys c);
        is_settled = ap (started screen) f.is_settled;
      }
