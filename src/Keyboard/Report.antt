-- ===== src/Keyboard/Report.antt =====
-- code/Keyboard.cpp: the end of the handler, when a key is reported.
use hobby_kernel.Common.{
  ℕ, ◌≡◌, ◌≢◌, refl, sym, subst, ap, ◌∙◌, Bool, true, false, if◌then◌else◌, ok, Returns,
  Returns->>=, ◌∷◌,
}
use hobby_kernel.Common.Chain.{write}
use hobby_kernel.Ports.{Ports}
use hobby_kernel.Keyboard.{Keyboard, set_pressed, report}
use hobby_kernel.Keyboard.Typed.{Ready}
use hobby_kernel.Keyboard.Pressed.{Presses, set_pressed-Presses, key_event, key_events}
use hobby_kernel.Keyboard.Safe.{Presses-Ready}
use hobby_kernel.Keyboard.Codes.{key_of}

-- A key has been reported, and the decoder is in a given state.
pub record Told (key : ℕ) (pressed : Bool) (times : ℕ) (k k' : Keyboard) : Type 0 where
  pub ready : Ready k'
  pub keys : (c : ℕ) → k'.scancode_to_key c ≡ key_of c
  pub state :
      k' ≡ record k' { length = 0; pressed = true; handled = false; times_to_ignore = times }
  pub table : k'.is_pressed ≡ write k.is_pressed key pressed
  pub callback : k'.callback ≡ k.callback
  pub told :
      key_events k'.events
      ≡ (if k.callback then key_event key pressed ∷ key_events k.events else key_events k.events)

pub report-Told :
    (key : ℕ) (pressed : Bool) (times n : ℕ) (ports : Ports) (k : Keyboard)
    → key ≢ 0
    → key ≢ 1
    → Ready k
    → ((c : ℕ) → k.scancode_to_key c ≡ key_of c)
    → Returns (Told key pressed times k) (
        report (record k {
          key = key;
          pressed = pressed;
          handled = true;
          length = n;
          times_to_ignore = times;
          ports = ports;
        }))
unfolding report
report-Told key pressed times n ports k n0 n1 r keys =
    let k1 = record k {
      key = key;
      pressed = pressed;
      handled = true;
      length = n;
      times_to_ignore = times;
      ports = ports;
    } in
    let r1 : Ready k1 = record {
      room = r.room;
      on_screen = r.on_screen;
      key_0 = r.key_0;
      key_1 = r.key_1;
    } in
    let sent = λ (k' : Keyboard). record k' { length = 0; pressed = true; handled = false } in
    Returns->>= (Presses key pressed k1) (Told key pressed times k) (set_pressed key pressed k1)
      (λ k'. ok (sent k')) (set_pressed-Presses key pressed k1 r1 n0 n1)
      λ k' q.
        let r' = Presses-Ready key pressed k1 k' r1 n0 n1 q in
        record {
          ready = record {
            room = r'.room;
            on_screen = r'.on_screen;
            key_0 = r'.key_0;
            key_1 = r'.key_1;
          };
          keys = subst (λ k'. (c : ℕ) → k'.scancode_to_key c ≡ key_of c) (sym q.result) keys;
          state =
              subst (λ k'. sent k' ≡ record (sent k') { times_to_ignore = times }) (sym q.result)
                refl;
          table = ap (λ (k' : Keyboard). k'.is_pressed) q.result;
          callback = ap (λ (k' : Keyboard). k'.callback) q.result;
          told = ap (λ (k' : Keyboard). key_events k'.events) q.result ∙ q.told;
        }
