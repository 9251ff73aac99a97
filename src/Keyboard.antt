-- ===== src/Keyboard.antt =====
-- code/Keyboard.cpp and code/KeyEvent.cpp: scan codes, the table of pressed keys and the line.
pub mod KeyMap
pub mod Typed
pub mod Pressed
pub mod Safe
pub mod Codes
pub mod Report
pub mod Strokes
pub mod History
pub mod PrintScreen
pub mod Setup
use hobby_kernel.Common.{
  ℕ, zero, suc, ◌+◌, ◌-◌, ◌/◌, ◌%◌, ◌^◌, Bool, true, false, not, ◌&&◌, ◌||◌, List, [], ◌∷◌, ◌==◌,
  ltb, leb, if◌then◌else◌, Outcome, ok, fault, ◌>>=◌, set, get_or, replicate, bit_and,
}
use hobby_kernel.Common.Chain.{write}
use hobby_kernel.Ports.{Ports, outb, inb}
use hobby_kernel.Console.{Screen, kprint, kprintln}
use hobby_kernel.Keyboard.KeyMap.{key_map}

abbrev pub vk_shift : ℕ
vk_shift = 0x10

abbrev pub vk_control : ℕ
vk_control = 0x11

abbrev pub vk_alt : ℕ
vk_alt = 0xB8

abbrev pub vk_enter : ℕ
vk_enter = 0x0D

abbrev pub vk_pause : ℕ
vk_pause = 0x13

abbrev pub vk_printscreen : ℕ
vk_printscreen = 0x2C

abbrev pub char_undefined : ℕ
char_undefined = 0x00

-- A call of the listener.
pub data Event : Type 0 where
  key_pressed : ℕ → Event
  key_released : ℕ → Event
  line_entered : List ℕ → Event

-- The static members of the class, with `is_pressed` for KEY_PRESS_TABLE. `callback` says whether
-- there is a listener, and `events` are the calls of it so far, the last one first. The counters do
-- not wrap around.
pub record Keyboard : Type 0 where
  pub line_buffer : List ℕ
  pub lb_len : ℕ
  pub is_pressed : ℕ → Bool
  pub scancode_to_key : ℕ → ℕ
  pub callback : Bool
  pub events : List Event
  pub length : ℕ
  pub pressed : Bool
  pub handled : Bool
  pub times_to_ignore : ℕ
  pub key : ℕ
  pub screen : Screen
  pub ports : Ports

pub setup_key_map : Keyboard → Keyboard
setup_key_map k = record k {
  scancode_to_key = λ i. if ltb i 132 then get_or key_map i char_undefined else k.scancode_to_key i;
}

-- "Keyboard setup"
abbrev pub setup_text : List ℕ
setup_text = 75 ∷ 101 ∷ 121 ∷ 98 ∷ 111 ∷ 97 ∷ 114 ∷ 100 ∷ 32 ∷ 115 ∷ 101 ∷ 116 ∷ 117 ∷ 112 ∷ []

pub setup : ℕ → Keyboard → Outcome Keyboard
unfolding setup_key_map
setup fuel k =
    let (_, p1) = inb 0x60 (outb 0x64 0xAD k.ports) in
    let (control, p2) = inb 0x60 (outb 0x64 0x20 p1) in
    let p3 = outb 0x64 0xAE (outb 0x60 (bit_and control 0xBF) (outb 0x64 0x60 p2)) in
    kprintln fuel setup_text k.screen >>= λ screen.
    ok (record (setup_key_map k) { callback = false; ports = p3; screen = screen })

abbrev pub set_listener : Bool → Keyboard → Keyboard
set_listener clb k = record k { callback = clb }

-- Prints a character, which takes three rounds at most, and puts it into the line. A write outside
-- the line is a fault.
type_char : ℕ → Keyboard → Outcome Keyboard
type_char c k = kprint 3 (c ∷ []) k.screen >>= λ screen.
    if ltb k.lb_len 78
    then ok (record k {
      screen = screen;
      line_buffer = set k.line_buffer k.lb_len c;
      lb_len = k.lb_len + 1;
    })
    else fault

-- What a key that is pressed adds to the line. The index in the last test is the value of
-- `key != VK_CONTROL`.
pub type_key : ℕ → Keyboard → Outcome Keyboard
unfolding type_char
type_key key k =
    if ltb 64 key && ltb key 94 && not (k.is_pressed vk_shift)
    then type_char (key + 32) k
    else if ltb 48 key && ltb key 58 && k.is_pressed vk_shift
    then type_char (key - 16) k
    else if not (key == vk_shift)
        && not (key == vk_alt)
        && not (k.is_pressed (if key == vk_control then 0 else 1))
    then type_char key k
    else ok k

call : Event → Keyboard → Keyboard
call e k = record k { events = if k.callback then e ∷ k.events else k.events }

-- `lineBuffer[lbLen - 1] = 0`
end_line : Keyboard → Outcome Keyboard
end_line k =
    if k.lb_len == 0
    then fault
    else ok (record k { line_buffer = set k.line_buffer (k.lb_len - 1) 0 })

-- A full line, or one that is ended, goes to the listener and is cleared.
flush : ℕ → Keyboard → Outcome Keyboard
unfolding call end_line
flush key k = do
  k' ← if k.callback && (key == vk_enter) then end_line k else ok k
  ok (record (call (line_entered k'.line_buffer) k') { line_buffer = replicate 78 0; lb_len = 0 })

pub set_pressed : (key : ℕ) (pressed : Bool) → Keyboard → Outcome Keyboard
unfolding type_key call flush
set_pressed key pressed k =
    let k0 = record k { is_pressed = write k.is_pressed key pressed } in
    (if pressed then type_key key k0 else ok k0) >>= λ k1.
    let k2 = call (if pressed then key_pressed key else key_released key) k1 in
    if ((key == vk_enter) || (k2.lb_len == 78)) && pressed then flush key k2 else ok k2

-- The first branch on a scan code that is not ignored.
pause : Keyboard → Outcome Keyboard
unfolding set_pressed
pause k = set_pressed vk_pause true (record k { times_to_ignore = 7; key = vk_pause }) >>= λ k'.
    ok (record k' { pressed = false; handled = true })

-- The other branches.
pub decode_code : ℕ → Keyboard → Keyboard
decode_code scancode k =
    let key = k.scancode_to_key scancode in
    if (k.length == 1) && (scancode == 0x12) && k.pressed
    then record k { times_to_ignore = 2; key = vk_printscreen; handled = true }
    else if (k.length == 2) && (scancode == 0x7C) && not k.pressed
    then record k { times_to_ignore = 3; key = vk_printscreen; handled = true }
    else if scancode == 0xF0
    then record k { pressed = false }
    else if (scancode == 0xE0) || (key == char_undefined)
    then k
    else record k { key = key; handled = true }

decode : ℕ → Keyboard → Outcome Keyboard
unfolding pause decode_code
decode scancode k =
    if (k.length == 0) && (scancode == 0xE1) then pause k else ok (decode_code scancode k)

-- A scan code, up to `length++`.
pub take_scancode : ℕ → Keyboard → Outcome Keyboard
unfolding decode
take_scancode scancode k =
    if k.times_to_ignore == 0
    then (decode scancode k >>= λ k'. ok (record k' { length = k'.length + 1 }))
    else ok (record k { times_to_ignore = k.times_to_ignore - 1; length = k.length + 1 })

-- The end of the handler.
pub report : Keyboard → Outcome Keyboard
unfolding set_pressed
report k =
    if k.handled
    then (set_pressed k.key k.pressed k >>= λ k'.
        ok (record k' { length = 0; pressed = true; handled = false }))
    else ok k

pub handle_keyboard_event : Keyboard → Outcome Keyboard
unfolding take_scancode report
handle_keyboard_event k =
    let (status, p) = inb 0x64 k.ports in
    let (scancode, p') = inb 0x60 p in
    if status % 2 == 0
    then report (record k { ports = p })
    else if (scancode == 0xFA) || (scancode == 0xFE)
    then ok (record k { ports = p' })
    else (take_scancode scancode (record k { ports = p' }) >>= report)
