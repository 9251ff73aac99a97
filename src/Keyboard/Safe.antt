-- ===== src/Keyboard/Safe.antt =====
-- code/Keyboard.cpp: keyboard interrupts return, and keep the line and the cursor in bounds.
use hobby_kernel.Common.{
  ℕ, ◌+◌, ◌-◌, ◌%◌, ◌≡◌, ◌≢◌, refl, sym, subst, Bool, true, false, not, ◌&&◌, ◌||◌, ◌==◌,
  if◌then◌else◌, ok, ◌>>=◌, Returns, Returns->>=, if_cases, arith,
}
use hobby_kernel.Ports.{Ports, inb}
use hobby_kernel.Keyboard.{
  Keyboard, vk_pause, vk_printscreen, char_undefined, set_pressed, pause, decode_code, decode,
  take_scancode, report, handle_keyboard_event,
}
use hobby_kernel.Keyboard.Typed.{Ready}
use hobby_kernel.Keyboard.Pressed.{Presses, set_pressed-Presses}

pub Presses-Ready :
    (key : ℕ) (pressed : Bool) (k k' : Keyboard)
    → Ready k
    → key ≢ 0
    → key ≢ 1
    → Presses key pressed k k'
    → Ready k'
Presses-Ready key pressed k k' r n0 n1 p = subst Ready (sym p.result) (record {
  room = p.room;
  on_screen = p.on_screen;
  key_0 = ground (arith, r.key_0, n0);
  key_1 = ground (arith, r.key_1, n1);
})

-- Between two interrupts: no key waits to be reported, and no scan code stands for key 1.
pub record Between (k : Keyboard) : Type 0 where
  pub ready : Ready k
  pub reported : k.handled ≡ false
  pub keys : (c : ℕ) → k.scancode_to_key c ≢ 1

-- Before the end of the handler.
record Pending (k : Keyboard) : Type 0 where
  ready : Ready k
  keys : (c : ℕ) → k.scancode_to_key c ≢ 1
  key : k.handled ≡ true → (k.key ≢ 0) × (k.key ≢ 1)

report-Between : (k : Keyboard) → Pending k → Returns Between (report k)
unfolding report
report-Between k p =
    let sent = λ (k' : Keyboard). record k' { length = 0; pressed = true; handled = false } in
    if_cases (Returns Between) k.handled (set_pressed k.key k.pressed k >>= λ k'. ok (sent k'))
      (ok k)
      (λ e.
        let (n0, n1) = p.key e in
        Returns->>= (Presses k.key k.pressed k) Between (set_pressed k.key k.pressed k)
          (λ k'. ok (sent k')) (set_pressed-Presses k.key k.pressed k p.ready n0 n1)
          λ k' q.
            let r = Presses-Ready k.key k.pressed k k' p.ready n0 n1 q in
            record {
              ready = record {
                room = r.room;
                on_screen = r.on_screen;
                key_0 = r.key_0;
                key_1 = r.key_1;
              };
              reported = refl;
              keys = subst (λ k'. (c : ℕ) → k'.scancode_to_key c ≢ 1) (sym q.result) p.keys;
            })
      λ e. record { ready = p.ready; reported = e; keys = p.keys }

-- Changes to the state of the decoder only.
with_state-Pending :
    (times key : ℕ) (pressed handled : Bool) (k : Keyboard)
    → Between k
    → (handled ≡ true → (key ≢ 0) × (key ≢ 1))
    → Pending
        (record k { times_to_ignore = times; key = key; pressed = pressed; handled = handled })
with_state-Pending times key pressed handled k b h = record {
  ready = record {
    room = b.ready.room;
    on_screen = b.ready.on_screen;
    key_0 = b.ready.key_0;
    key_1 = b.ready.key_1;
  };
  keys = b.keys;
  key = h;
}

decode_code-Pending : (c : ℕ) (k : Keyboard) → Between k → Pending (decode_code c k)
unfolding decode_code
decode_code-Pending c k b =
    let key = k.scancode_to_key c in
    let found = record k { key = key; handled = true } in
    let looked = if (c == 0xE0) || (key == char_undefined) then k else found in
    let broken = if c == 0xF0 then record k { pressed = false } else looked in
    let up = record k { times_to_ignore = 3; key = vk_printscreen; handled = true } in
    let down = record k { times_to_ignore = 2; key = vk_printscreen; handled = true } in
    let is_up = (k.length == 2) && (c == 0x7C) && not k.pressed in
    let is_down = (k.length == 1) && (c == 0x12) && k.pressed in
    let second = if is_up then up else broken in
    let printscreen = λ (times : ℕ).
      with_state-Pending times vk_printscreen k.pressed true k b
        λ e. ((λ z. omega (arith, z)), λ z. omega (arith, z)) in
    let unreported : k.handled ≡ true → (k.key ≢ 0) × (k.key ≢ 1) =
      λ e. absurd (ground (arith, e, b.reported)) in
    if_cases Pending is_down down second (λ e. printscreen 2)
      λ e.
        if_cases Pending is_up up broken (λ e. printscreen 3)
          λ e.
            if_cases Pending (c == 0xF0) (record k { pressed = false }) looked
              (λ e. with_state-Pending k.times_to_ignore k.key false k.handled k b unreported)
              λ e.
                if_cases Pending ((c == 0xE0) || (key == char_undefined)) k found
                  (λ e.
                    with_state-Pending k.times_to_ignore k.key k.pressed k.handled k b unreported)
                  λ e.
                    with_state-Pending k.times_to_ignore key k.pressed true k b
                      λ t. ((λ z. ground (arith, z, e)), b.keys c)

pause-Pending : (k : Keyboard) → Between k → Returns Pending (pause k)
unfolding pause
pause-Pending k b =
    let k0 = record k { times_to_ignore = 7; key = vk_pause } in
    let sent = λ (k' : Keyboard). record k' { pressed = false; handled = true } in
    let r0 : Ready k0 = record {
      room = b.ready.room;
      on_screen = b.ready.on_screen;
      key_0 = b.ready.key_0;
      key_1 = b.ready.key_1;
    } in
    Returns->>= (Presses vk_pause true k0) Pending (set_pressed vk_pause true k0)
      (λ k'. ok (sent k'))
      (set_pressed-Presses vk_pause true k0 r0 (λ z. omega (arith, z)) (λ z. omega (arith, z)))
      λ k' q.
        subst (λ k'. Pending (sent k')) (sym q.result)
          (record {
            ready = record {
              room = q.room;
              on_screen = q.on_screen;
              key_0 = ground (arith, b.ready.key_0);
              key_1 = ground (arith, b.ready.key_1);
            };
            keys = b.keys;
            key = λ e. ((λ z. omega (arith, z)), λ z. omega (arith, z));
          })

decode-Pending : (c : ℕ) (k : Keyboard) → Between k → Returns Pending (decode c k)
unfolding decode
decode-Pending c k b =
    if_cases (Returns Pending) ((k.length == 0) && (c == 0xE1)) (pause k) (ok (decode_code c k))
      (λ e. pause-Pending k b) λ e. decode_code-Pending c k b

-- Only the count of the codes differs.
with_length-Pending : (n : ℕ) (k : Keyboard) → Pending k → Pending (record k { length = n })
with_length-Pending n k p = record {
  ready = record {
    room = p.ready.room;
    on_screen = p.ready.on_screen;
    key_0 = p.ready.key_0;
    key_1 = p.ready.key_1;
  };
  keys = p.keys;
  key = p.key;
}

take_scancode-Pending : (c : ℕ) (k : Keyboard) → Between k → Returns Pending (take_scancode c k)
unfolding take_scancode
take_scancode-Pending c k b =
    if_cases (Returns Pending) (k.times_to_ignore == 0)
      (decode c k >>= λ k'. ok (record k' { length = k'.length + 1 }))
      (ok (record k { times_to_ignore = k.times_to_ignore - 1; length = k.length + 1 }))
      (λ e.
        Returns->>= Pending Pending (decode c k) (λ k'. ok (record k' { length = k'.length + 1 }))
          (decode-Pending c k b) λ k' p. with_length-Pending (k'.length + 1) k' p)
      λ e.
        with_length-Pending (k.length + 1) (record k { times_to_ignore = k.times_to_ignore - 1 })
          (with_state-Pending (k.times_to_ignore - 1) k.key k.pressed k.handled k b
            λ h. absurd (ground (arith, h, b.reported)))

pub with_ports-Between : (p : Ports) (k : Keyboard) → Between k → Between (record k { ports = p })
with_ports-Between p k b = record {
  ready = record {
    room = b.ready.room;
    on_screen = b.ready.on_screen;
    key_0 = b.ready.key_0;
    key_1 = b.ready.key_1;
  };
  reported = b.reported;
  keys = b.keys;
}

-- Whatever the controller answers, a keyboard interrupt returns, and the line and the cursor stay in
-- bounds.
pub handle_keyboard_event-Between :
    (k : Keyboard) → Between k → Returns Between (handle_keyboard_event k)
unfolding handle_keyboard_event
handle_keyboard_event-Between k b =
    let (status, p) = inb 0x64 k.ports in
    let (scancode, p') = inb 0x60 p in
    let k1 = record k { ports = p } in
    let k2 = record k { ports = p' } in
    let b1 = with_ports-Between p k b in
    let b2 = with_ports-Between p' k b in
    let accept = take_scancode scancode k2 >>= report in
    let is_answer = (scancode == 0xFA) || (scancode == 0xFE) in
    if_cases (Returns Between) (status % 2 == 0) (report k1) (if is_answer then ok k2 else accept)
      (λ e. report-Between k1 (
        with_state-Pending k.times_to_ignore k.key k.pressed k.handled k1 b1
          λ h. absurd (ground (arith, h, b.reported))))
      λ e.
        if_cases (Returns Between) is_answer (ok k2) accept (λ e. b2)
          λ e.
            Returns->>= Pending Between (take_scancode scancode k2) report
              (take_scancode-Pending scancode k2 b2) report-Between
