-- ===== src/Keyboard/Typed.antt =====
-- code/Keyboard.cpp: how `setPressed` prints a key and puts it into the line.
use hobby_kernel.Common.{
  ℕ, ◌+◌, ◌-◌, ◌≤◌, ◌<◌, ◌≡◌, refl, Bool, true, false, not, ◌&&◌, List, [], ◌∷◌, ◌==◌, ltb,
  if◌then◌else◌, ok, fault, Returns, Returns->>=, if_cases, arith, set,
}
use hobby_kernel.Console.{Screen, kprint}
use hobby_kernel.Console.Print.{OnScreen, Prints, kprint-Prints}
use hobby_kernel.Keyboard.{Keyboard, vk_enter, vk_shift, vk_alt, vk_control, type_char, type_key}

-- The line has room for a character, the cursor is on the screen, and the two keys whose state
-- `setPressed` reads in place of the control key's are not pressed.
pub record Ready (k : Keyboard) : Type 0 where
  pub room : k.lb_len < 78
  pub on_screen : OnScreen k.screen
  pub key_0 : k.is_pressed 0 ≡ false
  pub key_1 : k.is_pressed 1 ≡ false

-- A key has been printed and put into the line, if it is one that is and it has been pressed.
pub record Types (key : ℕ) (pressed : Bool) (k k' : Keyboard) : Type 0 where
  pub screen : Screen
  pub line_buffer : List ℕ
  pub lb_len : ℕ
  pub result : k' ≡ record k { screen = screen; line_buffer = line_buffer; lb_len = lb_len }
  pub on_screen : OnScreen screen
  pub bound : lb_len ≤ 78
  pub enter : pressed ≡ true → key ≡ vk_enter → 0 < lb_len
  pub released : pressed ≡ false → lb_len < 78

type_char-Types : (key c : ℕ) (k : Keyboard) → Ready k → Returns (Types key true k) (type_char c k)
unfolding type_char
type_char-Types key c k r =
    Returns->>= (Prints k.screen) (Types key true k) (kprint 3 (c ∷ []) k.screen)
      (λ screen.
        if ltb k.lb_len 78
        then ok (record k {
          screen = screen;
          line_buffer = set k.line_buffer k.lb_len c;
          lb_len = k.lb_len + 1;
        })
        else fault)
      (kprint-Prints 3 (c ∷ []) k.screen r.on_screen (omega arith))
      λ screen p.
        if_cases (Returns (Types key true k)) (ltb k.lb_len 78) _ fault
          (λ e. record {
            screen = screen;
            line_buffer = set k.line_buffer k.lb_len c;
            lb_len = k.lb_len + 1;
            result = refl;
            on_screen = p.on_screen;
            bound = omega (arith, r.room);
            enter = λ q h. omega arith;
            released = λ e. absurd (ground (arith, e));
          })
          λ e. absurd (ground (arith, r.room))

enter-plain :
    (key : ℕ) (k : Keyboard)
    → key ≡ vk_enter
    → k.is_pressed 1 ≡ false
    → ¬ (
        (not (key == vk_shift)
          && not (key == vk_alt)
          && not (k.is_pressed (if key == vk_control then 0 else 1)))
        ≡ false)
enter-plain key k h e f = ground arith

type_key-Types : (key : ℕ) (k : Keyboard) → Ready k → Returns (Types key true k) (type_key key k)
unfolding type_key
type_key-Types key k r =
    let t = λ (c : ℕ). type_char-Types key c k r in
    let plain =
      not (key == vk_shift)
      && not (key == vk_alt)
      && not (k.is_pressed (if key == vk_control then 0 else 1)) in
    let digit = ltb 48 key && ltb key 58 && k.is_pressed vk_shift in
    let letter = ltb 64 key && ltb key 94 && not (k.is_pressed vk_shift) in
    let third = if plain then type_char key k else ok k in
    let second = if digit then type_char (key - 16) k else third in
    if_cases (Returns (Types key true k)) letter (type_char (key + 32) k) second (λ e. t (key + 32))
      λ e.
        if_cases (Returns (Types key true k)) digit (type_char (key - 16) k) third
          (λ e. t (key - 16))
          λ e.
            if_cases (Returns (Types key true k)) plain (type_char key k) (ok k) (λ e. t key)
              λ e. record {
                screen = k.screen;
                line_buffer = k.line_buffer;
                lb_len = k.lb_len;
                result = refl;
                on_screen = r.on_screen;
                bound = omega (arith, r.room);
                enter = λ q h. absurd (enter-plain key k h r.key_1 e);
                released = λ q. absurd (ground (arith, q));
              }

-- A key that is released is not.
pub type_pressed-Types :
    (key : ℕ) (pressed : Bool) (k : Keyboard)
    → Ready k
    → Returns (Types key pressed k) (if pressed then type_key key k else ok k)
type_pressed-Types key true k r = type_key-Types key k r
type_pressed-Types key false k r = record {
  screen = k.screen;
  line_buffer = k.line_buffer;
  lb_len = k.lb_len;
  result = refl;
  on_screen = r.on_screen;
  bound = omega (arith, r.room);
  enter = λ q h. absurd (ground (arith, q));
  released = λ q. r.room;
}
