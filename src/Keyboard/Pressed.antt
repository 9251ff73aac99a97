-- ===== src/Keyboard/Pressed.antt =====
-- code/Keyboard.cpp: what `setPressed` does.
use hobby_kernel.Common.{
  ℕ, ◌-◌, ◌<◌, ◌≡◌, ◌≢◌, refl, sym, subst, ◌∙◌, Bool, true, false, ◌&&◌, ◌||◌, List, [], ◌∷◌, ◌==◌,
  if◌then◌else◌, ok, fault, Returns, Returns->>=, if_cases, arith, set, replicate,
}
use hobby_kernel.Common.Chain.{write}
use hobby_kernel.Console.{Screen}
use hobby_kernel.Console.Print.{OnScreen}
use hobby_kernel.Keyboard.{
  Keyboard, Event, key_pressed, key_released, line_entered, vk_enter, type_key, call, end_line,
  flush, set_pressed,
}
use hobby_kernel.Keyboard.Typed.{Ready, Types, type_pressed-Types}

abbrev pub is_key : Event → Bool
is_key (key_pressed key) = true
is_key (key_released key) = true
is_key (line_entered line) = false

-- The calls of the listener that are about keys.
abbrev pub key_events : List Event → List Event
key_events [] = []
key_events (e ∷ es) = if is_key e then e ∷ key_events es else key_events es

abbrev pub key_event : (key : ℕ) (pressed : Bool) → Event
key_event key pressed = if pressed then key_pressed key else key_released key

-- The table has the key's new state and the listener has been told of it; the screen, the line and
-- calls with a line are all else that changes.
pub record Presses (key : ℕ) (pressed : Bool) (k k' : Keyboard) : Type 0 where
  pub screen : Screen
  pub line_buffer : List ℕ
  pub lb_len : ℕ
  pub events : List Event
  pub result : k' ≡ record k {
    is_pressed = write k.is_pressed key pressed;
    screen = screen;
    line_buffer = line_buffer;
    lb_len = lb_len;
    events = events;
  }
  pub on_screen : OnScreen screen
  pub room : lb_len < 78
  pub told :
      key_events events
      ≡ (if k.callback then key_event key pressed ∷ key_events k.events else key_events k.events)

-- `k` with a key's state and with a screen, a line and calls of the listener.
abbrev with_key :
    (key : ℕ) (pressed : Bool) (screen : Screen) (line : List ℕ) (len : ℕ) (events : List Event)
    → Keyboard
    → Keyboard
with_key key pressed screen line len events k = record k {
  is_pressed = write k.is_pressed key pressed;
  screen = screen;
  line_buffer = line;
  lb_len = len;
  events = events;
}

-- The terminating null, when there is one, is all that the line gets.
record Ends (k k' : Keyboard) : Type 0 where
  line_buffer : List ℕ
  result : k' ≡ record k { line_buffer = line_buffer }

end_line-Ends : (k : Keyboard) → 0 < k.lb_len → Returns (Ends k) (end_line k)
unfolding end_line
end_line-Ends k h =
    if_cases (Returns (Ends k)) (k.lb_len == 0) fault
      (ok (record k { line_buffer = set k.line_buffer (k.lb_len - 1) 0 }))
      (λ e. absurd (ground (arith, h)))
      λ e. record { line_buffer = set k.line_buffer (k.lb_len - 1) 0; result = refl }

key_events-line :
    (line : List ℕ) (callback : Bool) (events : List Event)
    → key_events (if callback then line_entered line ∷ events else events) ≡ key_events events
key_events-line line true events = refl
key_events-line line false events = refl

flush-Presses :
    (key : ℕ) (pressed : Bool) (screen : Screen) (line : List ℕ) (len : ℕ) (events : List Event)
    (k : Keyboard)
    → OnScreen screen
    → (key ≡ vk_enter → 0 < len)
    → (key_events events
        ≡ (if k.callback then key_event key pressed ∷ key_events k.events else key_events k.events))
    → Returns (Presses key pressed k) (flush key (with_key key pressed screen line len events k))
unfolding flush call
flush-Presses key pressed screen line len events k v h t =
    let k2 = with_key key pressed screen line len events k in
    let ends = k.callback && (key == vk_enter) in
    let sent = λ (k' : Keyboard). record (call (line_entered k'.line_buffer) k') {
      line_buffer = replicate 78 0;
      lb_len = 0;
    } in
    Returns->>= (Ends k2) (Presses key pressed k) (if ends then end_line k2 else ok k2)
      (λ k'. ok (sent k'))
      (if_cases (Returns (Ends k2)) ends (end_line k2) (ok k2)
        (λ e. end_line-Ends k2 (h (ground (arith, e))))
        λ e. record { line_buffer = line; result = refl })
      λ k' p.
        subst (λ k'. Presses key pressed k (sent k')) (sym p.result)
          (record {
            screen = screen;
            line_buffer = replicate 78 0;
            lb_len = 0;
            events = if k.callback then line_entered p.line_buffer ∷ events else events;
            result = refl;
            on_screen = v;
            room = omega arith;
            told = key_events-line p.line_buffer k.callback events ∙ t;
          })

key_events-key :
    (key : ℕ) (pressed callback : Bool) (events : List Event)
    → key_events (if callback then key_event key pressed ∷ events else events)
      ≡ (if callback then key_event key pressed ∷ key_events events else key_events events)
key_events-key key true true events = refl
key_events-key key false true events = refl
key_events-key key true false events = refl
key_events-key key false false events = refl

-- A key goes into the table, is printed and put into the line when it is pressed, and is reported; a
-- full line and one that is ended are handed on.
pub set_pressed-Presses :
    (key : ℕ) (pressed : Bool) (k : Keyboard)
    → Ready k
    → key ≢ 0
    → key ≢ 1
    → Returns (Presses key pressed k) (set_pressed key pressed k)
unfolding set_pressed call
set_pressed-Presses key pressed k r n0 n1 =
    let k0 = record k { is_pressed = write k.is_pressed key pressed } in
    let r0 : Ready k0 = record {
      room = r.room;
      on_screen = r.on_screen;
      key_0 = ground (arith, r.key_0, n0);
      key_1 = ground (arith, r.key_1, n1);
    } in
    let events = if k.callback then key_event key pressed ∷ k.events else k.events in
    let told = λ (k1 : Keyboard). call (key_event key pressed) k1 in
    let full = λ (k1 : Keyboard). ((key == vk_enter) || (k1.lb_len == 78)) && pressed in
    let next = λ (k1 : Keyboard). if full k1 then flush key (told k1) else ok (told k1) in
    Returns->>= (Types key pressed k0) (Presses key pressed k)
      (if pressed then type_key key k0 else ok k0) next (type_pressed-Types key pressed k0 r0)
      λ k1 t.
        subst (λ k1. Returns (Presses key pressed k) (next k1)) (sym t.result)
          (if_cases (Returns (Presses key pressed k))
            ((key == vk_enter || (t.lb_len == 78)) && pressed)
            (flush key (with_key key pressed t.screen t.line_buffer t.lb_len events k))
            (ok (with_key key pressed t.screen t.line_buffer t.lb_len events k))
            (λ e.
              flush-Presses key pressed t.screen t.line_buffer t.lb_len events k t.on_screen
                (t.enter (ground (arith, e))) (key_events-key key pressed k.callback k.events))
            λ e. record {
              screen = t.screen;
              line_buffer = t.line_buffer;
              lb_len = t.lb_len;
              events = events;
              result = refl;
              on_screen = t.on_screen;
              room = ground (arith, t.bound, t.released, e);
              told = key_events-key key pressed k.callback k.events;
            })
