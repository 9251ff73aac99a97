-- ===== src/Machine/Exceptions.antt =====
-- code/IDT.cpp: exceptions, and code/mem/vmm.c: page faults.
use hobby_kernel.Common.{
  ℕ, ◌*◌, ◌<◌, ◌≡◌, refl, ap, ◌∙◌, false, if◌then◌else◌, if_cases, ◌==◌, ==_iff, none, Outcome, ok,
  halt, fault, stuck, ◌>>=◌, Returns, arith, List, [], ◌∷◌, length,
}
use hobby_kernel.Console.{Screen, kprint, kprintln, kprint_hex_int}
use hobby_kernel.Console.Print.{
  OnScreen, Prints, kprint-Prints, kprintln-Prints, kprint_hex_int-Prints, Prints->>=,
}
use hobby_kernel.Idt.Setup.{Routed, routine_of}
use hobby_kernel.Machine.{
  Machine, call_routine, isr_handler, handle_page_fault, page_fault_text, panic, panic_text,
}

-- A run that returns, with a halt behind it.
halts {ℓ κ} :
    {A : Type ℓ} {B : Type κ} (P : A → Type 0) (r : Outcome A) (f : A → Outcome B)
    → Returns P r
    → ((a : A) → P a → f a ≡ halt)
    → (r >>= f) ≡ halt
halts P (ok a) f h next = next a h
halts P halt f h next = refl
halts P fault f h next = absurd h
halts P stuck f h next = absurd h

panic-halts :
    (fuel : ℕ) (message : List ℕ) (s : Screen)
    → OnScreen s
    → 12 < fuel
    → 2 * length message < fuel
    → panic fuel message s ≡ halt
unfolding panic
panic-halts fuel message s v h l =
    let p1 = kprint-Prints fuel panic_text s v (omega arith) in
    let p2 =
      Prints->>= s (kprint fuel panic_text s) (kprint fuel message) p1
        λ s' v'. kprint-Prints fuel message s' v' l in
    let p3 =
      Prints->>= s (kprint fuel panic_text s >>= kprint fuel message) (kprint fuel (41 ∷ [])) p2
        λ s' v'. kprint-Prints fuel (41 ∷ []) s' v' (omega arith) in
    let p4 =
      Prints->>= s (kprint fuel panic_text s >>= kprint fuel message >>= kprint fuel (41 ∷ []))
        (kprintln fuel []) p3 λ s' v'. kprintln-Prints fuel [] s' v' (omega arith) (omega arith) in
    halts (Prints s)
      (kprint fuel panic_text s
        >>= kprint fuel message
        >>= kprint fuel (41 ∷ [])
        >>= kprintln fuel [])
      (λ s'. halt) p4 λ s' p. refl

page_fault-halts :
    (fuel cr2 : ℕ) (s : Screen) → OnScreen s → 34 < fuel → handle_page_fault fuel cr2 s ≡ halt
unfolding handle_page_fault
page_fault-halts fuel cr2 s v h =
    let p1 = kprint-Prints fuel page_fault_text s v (omega arith) in
    let p2 =
      Prints->>= s (kprint fuel page_fault_text s) (kprint_hex_int fuel cr2) p1
        λ s' v'. kprint_hex_int-Prints fuel cr2 s' v' (omega arith) in
    let p3 =
      Prints->>= s (kprint fuel page_fault_text s >>= kprint_hex_int fuel cr2) (kprintln fuel []) p2
        λ s' v'. kprintln-Prints fuel [] s' v' (omega arith) (omega arith) in
    halts (Prints s)
      (kprint fuel page_fault_text s >>= kprint_hex_int fuel cr2 >>= kprintln fuel [])
      (panic fuel []) p3 λ s' p. panic-halts fuel [] s' p.on_screen (omega arith) (omega arith)

not_called : (v : ℕ) → v < 32 → (v == 14) ≡ false → routine_of v ≡ none
not_called v h e = ground arith

-- With the cursor on the screen, a page fault ends in the halt of `panic`; every other exception returns
-- with nothing changed.
pub isr_handler-exceptions :
    (fuel v : ℕ) (m : Machine)
    → Routed m.idt
    → OnScreen m.keyboard.screen
    → 34 < fuel
    → v < 32
    → isr_handler fuel v m ≡ (if v == 14 then halt else ok m)
unfolding isr_handler call_routine
isr_handler-exceptions fuel v m r s h l =
    if_cases (λ (x : Outcome Machine). isr_handler fuel v m ≡ x) (v == 14) halt (ok m)
      (λ e.
        ap (λ v. call_routine fuel (m.idt.handlers v) m) ((==_iff v 14).0 e)
        ∙ ap (λ routine. call_routine fuel routine m) (r 14 (omega arith))
        ∙ ap
            (λ o.
              o >>= λ screen. ok (record m { keyboard = record m.keyboard { screen = screen } }))
            (page_fault-halts fuel m.cr2 m.keyboard.screen s h))
      λ e. ap (λ routine. call_routine fuel routine m) (r v (omega (arith, l)) ∙ not_called v l e)
