-- ===== src/Keyboard/Strokes.antt =====
-- code/Keyboard.cpp: what the listener hears when keys are pressed and released.
use hobby_kernel.Common.{
  ℕ, ◌+◌, ◌≡◌, refl, sym, subst, ap, ◌∙◌, Bool, true, false, if◌then◌else◌, Outcome, ◌>>=◌, Returns,
  Returns->>=, Returns-mono, arith, [], ◌∷◌,
}
use hobby_kernel.Common.Chain.{write}
use hobby_kernel.Ports.{Ports}
use hobby_kernel.Keyboard.{
  Keyboard, take_scancode, report, decode, decode_code, handle_keyboard_event,
}
use hobby_kernel.Keyboard.Typed.{Ready}
use hobby_kernel.Keyboard.Pressed.{key_event, key_events}
use hobby_kernel.Keyboard.Report.{Told, report-Told}
use hobby_kernel.Keyboard.Codes.{
  key_of, key_of-known, key_of-ne_1, settled, offered, feed, handle_offered, Stroke, codes, IsPlain,
  prefixed, prefixes, take_scancode-found,
}

-- The keyboard is set up, and no stroke has been begun.
pub record Idle (k : Keyboard) : Type 0 where
  pub ready : Ready k
  pub keys : (c : ℕ) → k.scancode_to_key c ≡ key_of c
  pub is_settled : k ≡ settled k

-- The listener has been told of the stroke, the table has the key's new state and no other, and the
-- decoder waits for the next stroke.
pub record Reports (s : Stroke) (k k' : Keyboard) : Type 0 where
  pub idle : Idle k'
  pub table : k'.is_pressed ≡ write k.is_pressed (key_of s.code) s.pressed
  pub callback : k'.callback ≡ k.callback
  pub told : key_events k'.events ≡ (
      if k.callback
      then key_event (key_of s.code) s.pressed ∷ key_events k.events
      else key_events k.events)

-- The ports behind the prefixes.
abbrev seen : (extended pressed : Bool) → Keyboard → Ports
seen true true k = offered 0xE0 k
seen true false k = offered 0xF0 (record k { ports = offered 0xE0 k })
seen false true k = k.ports
seen false false k = offered 0xF0 k

feed-prefixes :
    (extended pressed : Bool) (c : ℕ) (k : Keyboard)
    → feed (codes (record { extended = extended; pressed = pressed; code = c })) (settled k)
      ≡ feed (c ∷ []) (
          prefixed
            (prefixes extended pressed)
            pressed
            (record k { ports = seen extended pressed k }))
unfolding feed handle_keyboard_event take_scancode decode decode_code report
feed-prefixes true true c k = refl
feed-prefixes true false c k = refl
feed-prefixes false true c k = refl
feed-prefixes false false c k = refl

-- The end of the handler with the key of a stroke.
Told-Reports :
    (s : Stroke) (k k' : Keyboard) → Told (key_of s.code) s.pressed 0 k k' → Reports s k k'
Told-Reports s k k' t = record {
  idle = record { ready = t.ready; keys = t.keys; is_settled = t.state };
  table = t.table;
  callback = t.callback;
  told = t.told;
}

pub feed-Reports :
    (s : Stroke) (k : Keyboard) → IsPlain s → Idle k → Returns (Reports s k) (feed (codes s) k)
unfolding feed
feed-Reports s k p i =
    let n = prefixes s.extended s.pressed in
    let q = seen s.extended s.pressed k in
    let k1 = prefixed n s.pressed (record k { ports = q }) in
    let ports = offered s.code k1 in
    let done = record (prefixed n s.pressed (record k { ports = ports })) {
      key = key_of s.code;
      handled = true;
      length = n + 1;
    } in
    let l = key_of-known s.code p.known in
    let finish = λ (r : Outcome Keyboard). r >>= report >>= feed [] in
    let e =
      ap (feed (codes s)) i.is_settled
      ∙ feed-prefixes s.extended s.pressed s.code k
      ∙ ap (λ (r : Outcome Keyboard). r >>= feed [])
          (handle_offered s.code k1 (omega (arith, l)) (λ z. omega (arith, l, z))
            (λ z. omega (arith, l, z)))
      ∙ ap finish (take_scancode-found s (record k { ports = ports }) p i.keys) in
    subst (Returns (Reports s k)) (sym e) (
      Returns->>= (Reports s k) (Reports s k) (report done) (feed [])
        (Returns-mono (Told (key_of s.code) s.pressed 0 k) (Reports s k) (report done)
          (report-Told (key_of s.code) s.pressed 0 (n + 1) ports k p.known (key_of-ne_1 s.code)
            i.ready i.keys)
          λ k' t. Told-Reports s k k' t)
        λ k' q. q)
