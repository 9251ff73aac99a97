-- ===== src/Keyboard/PrintScreen.antt =====
-- code/Keyboard.cpp: the PrintScreen key.
use hobby_kernel.Common.{
  ℕ, ◌≡◌, refl, sym, subst, ap, ◌∙◌, Bool, true, false, if◌then◌else◌, if_true, Outcome, ok, ◌>>=◌,
  Returns, Returns->>=, Returns-mono, arith, List, [], ◌∷◌, ◌++◌,
}
use hobby_kernel.Common.Chain.{write}
use hobby_kernel.Keyboard.{
  Keyboard, key_pressed, key_released, vk_printscreen, vk_shift, take_scancode, report, decode,
  decode_code, handle_keyboard_event,
}
use hobby_kernel.Keyboard.Typed.{Ready}
use hobby_kernel.Keyboard.Pressed.{key_events}
use hobby_kernel.Keyboard.Codes.{key_of, settled, offer, offered, feed, handle_offered, prefixed}
use hobby_kernel.Keyboard.Report.{Told, report-Told}
use hobby_kernel.Keyboard.Codes.{take_found, decode_code-found, known_test, Stroke, IsPlain, codes}
use hobby_kernel.Keyboard.Strokes.{Idle, Reports, feed-Reports}
use hobby_kernel.Keyboard.History.{feed-append}

-- The codes of the key when it is pressed, and when it is released.
abbrev pub down_codes : List ℕ
down_codes = 0xE0 ∷ 0x12 ∷ 0xE0 ∷ 0x7C ∷ []

abbrev pub up_codes : List ℕ
up_codes = 0xE0 ∷ 0xF0 ∷ 0x7C ∷ 0xE0 ∷ 0xF0 ∷ 0x12 ∷ []

-- The first half of the codes reports the key; the rest of them is ignored, but counted.
feed-down :
    (k : Keyboard)
    → feed down_codes (settled k) ≡ (
        report (record k {
          key = vk_printscreen;
          pressed = true;
          handled = true;
          length = 2;
          times_to_ignore = 2;
          ports = offered 0x12 (record k { ports = offered 0xE0 k });
        })
        >>= feed (0xE0 ∷ 0x7C ∷ []))
unfolding feed handle_keyboard_event take_scancode decode decode_code report
feed-down k = refl

feed-ignored :
    (k : Keyboard)
    → feed
        (0xE0 ∷ 0x7C ∷ [])
        (record k { length = 0; pressed = true; handled = false; times_to_ignore = 2 })
      ≡ ok (
          prefixed 2 true (record k { ports = offered 0x7C (record k { ports = offered 0xE0 k }) }))
unfolding feed handle_keyboard_event take_scancode decode decode_code report
feed-ignored k = refl

-- With two codes counted, the prefixes do not lead to the branch for the key.
feed-up :
    (k : Keyboard)
    → let q = offered 0xF0 (record k { ports = offered 0xE0 k }) in
      feed up_codes (prefixed 2 true k) ≡ (
        handle_keyboard_event (offer 0x7C (prefixed 4 false (record k { ports = q })))
        >>= feed (0xE0 ∷ 0xF0 ∷ 0x12 ∷ []))
unfolding feed handle_keyboard_event take_scancode decode decode_code report
feed-up k = refl

-- The key has been reported as pressed, and the decoder has counted two codes more.
record Down (k k' : Keyboard) : Type 0 where
  ready : Ready k'
  keys : (c : ℕ) → k'.scancode_to_key c ≡ key_of c
  late : k' ≡ prefixed 2 true k'
  table : k'.is_pressed ≡ write k.is_pressed vk_printscreen true
  callback : k'.callback ≡ k.callback
  told : key_events k'.events ≡ (
      if k.callback then key_pressed vk_printscreen ∷ key_events k.events else key_events k.events)

Told-ignored :
    (k k' : Keyboard)
    → Told vk_printscreen true 2 k k'
    → Returns (Down k) (feed (0xE0 ∷ 0x7C ∷ []) k')
Told-ignored k k' t =
    subst (Returns (Down k)) (sym (ap (feed (0xE0 ∷ 0x7C ∷ [])) t.state ∙ feed-ignored k'))
      (record {
        ready = record {
          room = t.ready.room;
          on_screen = t.ready.on_screen;
          key_0 = t.ready.key_0;
          key_1 = t.ready.key_1;
        };
        keys = t.keys;
        late = refl;
        table = t.table;
        callback = t.callback;
        told = t.told;
      })

feed-Down : (k : Keyboard) → Idle k → Returns (Down k) (feed down_codes k)
feed-Down k i =
    let ports = offered 0x12 (record k { ports = offered 0xE0 k }) in
    let reported = report (record k {
      key = vk_printscreen;
      pressed = true;
      handled = true;
      length = 2;
      times_to_ignore = 2;
      ports = ports;
    }) in
    subst (Returns (Down k)) (sym (ap (feed down_codes) i.is_settled ∙ feed-down k)) (
      Returns->>= (Told vk_printscreen true 2 k) (Down k) reported (feed (0xE0 ∷ 0x7C ∷ []))
        (report-Told vk_printscreen true 2 2 ports k (λ z. omega (arith, z)) (λ z. omega (arith, z))
          i.ready i.keys)
        (Told-ignored k))

-- The release, as it is decoded: the multiply key and the shift key.
released_shift : Stroke
released_shift = record { extended = true; pressed = false; code = 0x12 }

released_shift-IsPlain : IsPlain released_shift
unfolding released_shift
released_shift-IsPlain = record {
  known = λ z. omega (arith, z);
  not_printscreen = λ h. absurd (ground (arith, h.1));
  not_released = λ h. absurd (ground (arith, h.2));
}

take_multiply :
    (k : Keyboard)
    → ((c : ℕ) → k.scancode_to_key c ≡ key_of c)
    → take_scancode 0x7C (prefixed 4 false k)
      ≡ ok (record (prefixed 4 false k) { key = 0x6A; handled = true; length = 5 })
take_multiply k keys = take_found 4 0x7C false k (omega arith) (
    decode_code-found 0x7C (prefixed 4 false k) refl refl refl
      (known_test 0x7C (k.scancode_to_key 0x7C) (omega arith) (λ z. omega (arith, keys 0x7C, z)))
    ∙ ap (λ key. record (prefixed 4 false k) { key = key; handled = true }) (keys 0x7C))

-- The codes of the release, behind those of the press.
record Up (k k' : Keyboard) : Type 0 where
  idle : Idle k'
  table : k'.is_pressed ≡ write (write k.is_pressed 0x6A false) vk_shift false
  told : key_events k'.events ≡ key_released vk_shift ∷ key_released 0x6A ∷ key_events k.events

Told-shift :
    (k k1 : Keyboard)
    → k.callback ≡ true
    → Told 0x6A false 0 k k1
    → Returns (Up k) (feed (codes released_shift) k1)
unfolding released_shift
Told-shift k k1 c t =
    Returns-mono (Reports released_shift k1) (Up k) (feed (codes released_shift) k1)
      (feed-Reports released_shift k1 released_shift-IsPlain
        (record { ready = t.ready; keys = t.keys; is_settled = t.state }))
      λ k2 r. record {
        idle = r.idle;
        table = r.table ∙ ap (λ table. write table vk_shift false) t.table;
        told =
            r.told
            ∙ if_true k1.callback (key_released vk_shift ∷ key_events k1.events)
                (key_events k1.events) (t.callback ∙ c)
            ∙ ap (λ es. key_released vk_shift ∷ es)
                (t.told
                  ∙ if_true k.callback (key_released 0x6A ∷ key_events k.events)
                      (key_events k.events) c);
      }

feed-Up :
    (k : Keyboard)
    → Ready k
    → ((c : ℕ) → k.scancode_to_key c ≡ key_of c)
    → k ≡ prefixed 2 true k
    → k.callback ≡ true
    → Returns (Up k) (feed up_codes k)
unfolding released_shift
feed-Up k r keys late c =
    let q = offered 0xF0 (record k { ports = offered 0xE0 k }) in
    let k1 = prefixed 4 false (record k { ports = q }) in
    let ports = offered 0x7C k1 in
    let rest = feed (codes released_shift) in
    let reported = report (record k {
      key = 0x6A;
      pressed = false;
      handled = true;
      length = 5;
      times_to_ignore = 0;
      ports = ports;
    }) in
    let e =
      ap (feed up_codes) late
      ∙ feed-up k
      ∙ ap (λ (r : Outcome Keyboard). r >>= rest)
          (handle_offered 0x7C k1 (omega arith) (λ z. omega (arith, z)) (λ z. omega (arith, z)))
      ∙ ap (λ (r : Outcome Keyboard). r >>= report >>= rest)
          (take_multiply (record k { ports = ports }) keys) in
    subst (Returns (Up k)) (sym e) (
      Returns->>= (Told 0x6A false 0 k) (Up k) reported rest
        (report-Told 0x6A false 0 5 ports k (λ z. omega (arith, z)) (λ z. omega (arith, z)) r keys)
        (λ k1 t. Told-shift k k1 c t))

-- PrintScreen has been pressed and released, and is still pressed for the kernel.
pub record Stuck (k k' : Keyboard) : Type 0 where
  pub idle : Idle k'
  pub still_pressed : k'.is_pressed vk_printscreen ≡ true
  pub told :
      key_events k'.events
      ≡ key_released vk_shift ∷ key_released 0x6A ∷ key_pressed vk_printscreen ∷ key_events k.events

-- When PrintScreen is pressed and then released, the listener hears that it is pressed, and that the
-- multiply key and the shift key are released; the table keeps it as pressed.
pub feed-Stuck :
    (k : Keyboard)
    → Idle k
    → k.callback ≡ true
    → Returns (Stuck k) (feed (down_codes ++ up_codes) k)
feed-Stuck k i c = subst (Returns (Stuck k)) (sym (feed-append down_codes up_codes k)) (
    Returns->>= (Down k) (Stuck k) (feed down_codes k) (feed up_codes) (feed-Down k i) λ k1 d.
      Returns-mono (Up k1) (Stuck k) (feed up_codes k1)
        (feed-Up k1 d.ready d.keys d.late (d.callback ∙ c))
        λ k2 u. record {
          idle = u.idle;
          still_pressed =
              ap (λ (table : ℕ → Bool). table vk_printscreen)
                (u.table ∙ ap (λ table. write (write table 0x6A false) vk_shift false) d.table);
          told =
              u.told
              ∙ ap (λ es. key_released vk_shift ∷ key_released 0x6A ∷ es)
                  (d.told
                    ∙ if_true k.callback (key_pressed vk_printscreen ∷ key_events k.events)
                        (key_events k.events) c);
        })
