-- ===== src/Keyboard/Codes.antt =====
-- code/Keyboard.cpp: the scan codes of the table, and one scan code in the decoder.
use hobby_kernel.Common.{
  ℕ, ◌+◌, ◌%◌, ◌^◌, ◌≤◌, ◌<◌, ◌≡◌, ◌≢◌, refl, sym, ap, ◌∙◌, Bool, true, false, not, ◌&&◌, ◌||◌,
  ◌==◌, if◌then◌else◌, if_false, Outcome, ok, ◌>>=◌, arith, List, [], ◌∷◌, get_or, get_or-beyond,
}
use hobby_kernel.Common.Tables.{holds_below, holds_below_lem}
use hobby_kernel.Ports.{Ports}
use hobby_kernel.Keyboard.{
  Keyboard, vk_printscreen, take_scancode, decode, decode_code, pause, report,
  handle_keyboard_event,
}
use hobby_kernel.Keyboard.KeyMap.{key_map}

-- The key that `setupKeyMap` gives a scan code.
abbrev pub key_of : ℕ → ℕ
key_of c = get_or key_map c 0

pub key_of-beyond : (c : ℕ) → 132 ≤ c → key_of c ≡ 0
key_of-beyond c h = get_or-beyond key_map c 0 h

pub key_of-known : (c : ℕ) → key_of c ≢ 0 → c < 132
key_of-known c h = ground (arith, h, key_of-beyond c)

not_1 : ℕ → Bool
not_1 c = not (key_of c == 1)

not_1-below : holds_below 132 not_1 ≡ true
unfolding not_1 holds_below
not_1-below = refl

pub key_of-ne_1 : (c : ℕ) → key_of c ≢ 1
unfolding not_1 holds_below
key_of-ne_1 c e =
    let l : c < 132 = key_of-known c (λ z. omega (arith, e, z)) in
    absurd (ground (arith, e, holds_below_lem 132 not_1 c l not_1-below))

-- Nothing of a key's codes has been seen.
abbrev pub settled : Keyboard → Keyboard
settled k = record k { length = 0; pressed = true; handled = false; times_to_ignore = 0 }

-- The controller has a byte for the kernel.
abbrev pub offer : ℕ → Keyboard → Keyboard
offer c k = record k { ports = record k.ports { answer = λ port n. if port == 0x64 then 1 else c } }

-- The controller sends bytes, each with an interrupt.
unfoldable pub feed : List ℕ → Keyboard → Outcome Keyboard
feed [] k = ok k
feed (c ∷ cs) k = handle_keyboard_event (offer c k) >>= feed cs

-- Behind the reads of a byte that is offered.
abbrev pub offered : ℕ → Keyboard → Ports
offered c k = record (offer c k).ports { reads = k.ports.reads + 1 + 1 }

pub handle_offered :
    (c : ℕ) (k : Keyboard)
    → c < 256
    → c ≢ 0xFA
    → c ≢ 0xFE
    → handle_keyboard_event (offer c k)
      ≡ (take_scancode c (record k { ports = offered c k }) >>= report)
unfolding handle_keyboard_event
handle_offered c k h a b =
    let k' = record k { ports = offered c k } in
    let out =
      λ (d : ℕ). if (d == 0xFA) || (d == 0xFE) then ok k' else (take_scancode d k' >>= report) in
    let small : c % 2 ^ 8 ≡ c = omega (arith, h) in ap out small ∙ ground (arith, a, b)

-- The codes of a key: a prefix for an extended key, a prefix if it is released, and its own code.
pub record Stroke : Type 0 where
  pub extended : Bool
  pub pressed : Bool
  pub code : ℕ

abbrev pub codes : Stroke → List ℕ
codes s =
    let rest = if s.pressed then s.code ∷ [] else 0xF0 ∷ s.code ∷ [] in
    if s.extended then 0xE0 ∷ rest else rest

-- A key of the table. The two strokes that are left out are parts of those of the PrintScreen key.
pub record IsPlain (s : Stroke) : Type 0 where
  pub known : key_of s.code ≢ 0
  pub not_printscreen : ¬ ((s.extended ≡ true) × (s.pressed ≡ true) × (s.code ≡ 0x12))
  pub not_released : ¬ ((s.extended ≡ true) × (s.pressed ≡ false) × (s.code ≡ 0x7C))

-- The decoder behind the prefixes of a stroke.
abbrev pub prefixed : (n : ℕ) (pressed : Bool) → Keyboard → Keyboard
prefixed n pressed k = record (settled k) { length = n; pressed = pressed }

-- The last branch of the decoder.
pub decode_code-found :
    (c : ℕ) (k : Keyboard)
    → ((k.length == 1) && (c == 0x12) && k.pressed) ≡ false
    → ((k.length == 2) && (c == 0x7C) && not k.pressed) ≡ false
    → (c == 0xF0) ≡ false
    → ((c == 0xE0) || (k.scancode_to_key c == 0)) ≡ false
    → decode_code c k ≡ record k { key = k.scancode_to_key c; handled = true }
unfolding decode_code
decode_code-found c k down up released prefix =
    let found = record k { key = k.scancode_to_key c; handled = true } in
    let looked = if (c == 0xE0) || (k.scancode_to_key c == 0) then k else found in
    let broken = if c == 0xF0 then record k { pressed = false } else looked in
    let printscreen =
      λ (times : ℕ). record k { times_to_ignore = times; key = vk_printscreen; handled = true } in
    let is_up = (k.length == 2) && (c == 0x7C) && not k.pressed in
    let is_down = (k.length == 1) && (c == 0x12) && k.pressed in
    if_false is_down (printscreen 2) (if is_up then printscreen 3 else broken) down
    ∙ if_false is_up (printscreen 3) broken up
    ∙ if_false (c == 0xF0) (record k { pressed = false }) looked released
    ∙ if_false ((c == 0xE0) || (k.scancode_to_key c == 0)) k found prefix

pause_test : (n c : ℕ) → c < 132 → ((n == 0) && (c == 0xE1)) ≡ false
pause_test n c h = ground arith

-- The number of prefixes.
abbrev pub prefixes : (extended pressed : Bool) → ℕ
prefixes extended pressed = (if extended then 1 else 0) + (if pressed then 0 else 1)

down_test :
    (extended pressed : Bool) (c : ℕ)
    → ¬ ((extended ≡ true) × (pressed ≡ true) × (c ≡ 0x12))
    → ((prefixes extended pressed == 1) && (c == 0x12) && pressed) ≡ false
down_test true true c h = ground (arith, h)
down_test true false c h = refl
down_test false true c h = refl
down_test false false c h = ground arith

up_test :
    (extended pressed : Bool) (c : ℕ)
    → ¬ ((extended ≡ true) × (pressed ≡ false) × (c ≡ 0x7C))
    → ((prefixes extended pressed == 2) && (c == 0x7C) && not pressed) ≡ false
up_test true true c h = refl
up_test true false c h = ground (arith, h)
up_test false true c h = refl
up_test false false c h = refl

pub known_test : (c key : ℕ) → c < 132 → key ≢ 0 → ((c == 0xE0) || (key == 0)) ≡ false
known_test c key h n = ground arith

released_test : (c : ℕ) → c < 132 → (c == 0xF0) ≡ false
released_test c h = ground arith

pub take_found :
    (n c : ℕ) (pressed : Bool) (k : Keyboard)
    → c < 132
    → decode_code c (prefixed n pressed k)
      ≡ record (prefixed n pressed k) { key = key_of c; handled = true }
    → take_scancode c (prefixed n pressed k)
      ≡ ok (record (prefixed n pressed k) { key = key_of c; handled = true; length = n + 1 })
unfolding take_scancode decode
take_found n c pressed k l e =
    let k' = prefixed n pressed k in
    let count = λ (r : Outcome Keyboard). r >>= λ k'. ok (record k' { length = k'.length + 1 }) in
    ap count (
      if_false ((n == 0) && (c == 0xE1)) (pause k') (ok (decode_code c k')) (pause_test n c l)
      ∙ ap ok e)

-- The own code of a key that is in the table completes the stroke.
pub take_scancode-found :
    (s : Stroke) (k : Keyboard)
    → IsPlain s
    → ((c : ℕ) → k.scancode_to_key c ≡ key_of c)
    → let n = prefixes s.extended s.pressed in
      take_scancode s.code (prefixed n s.pressed k)
      ≡ ok (record (prefixed n s.pressed k) { key = key_of s.code; handled = true; length = n + 1 })
take_scancode-found s k p keys =
    let n = prefixes s.extended s.pressed in
    let k' = prefixed n s.pressed k in
    let l = key_of-known s.code p.known in
    take_found n s.code s.pressed k l (
      decode_code-found s.code k' (down_test s.extended s.pressed s.code p.not_printscreen)
        (up_test s.extended s.pressed s.code p.not_released) (released_test s.code l)
        (known_test s.code (k.scancode_to_key s.code) l (λ z. p.known (sym (keys s.code) ∙ z)))
      ∙ ap (λ key. record k' { key = key; handled = true }) (keys s.code))
