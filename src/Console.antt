-- ===== src/Console.antt =====
-- code/Console.cpp, code/Console.h and code/colors.h: text on the screen.
pub mod Scroll
pub mod Print
pub mod Number
use hobby_kernel.Common.{
  ℕ, zero, suc, ◌+◌, ◌-◌, ◌*◌, ◌/◌, ◌%◌, ◌^◌, Bool, true, false, List, [], ◌∷◌, ◌++◌, ◌==◌, ltb,
  leb, if◌then◌else◌, Outcome, ok, fault, stuck, ◌>>=◌, bit_and,
}
use hobby_kernel.Common.Chain.{write}

abbrev pub screen_width : ℕ
screen_width = 80

abbrev pub screen_height : ℕ
screen_height = 25

abbrev pub color_black : ℕ
color_black = 0x00

abbrev pub color_white : ℕ
color_white = 0x0F

-- `videoram` holds the bytes from COLOR_TEXT_MODE on. `kprint` keeps the cursor from 0 on, so that
-- the numbers need no sign.
pub record Screen : Type 0 where
  pub videoram : ℕ → ℕ
  pub cursor_x : ℕ
  pub cursor_y : ℕ

-- `for (i = 0; i < n; i++) body`
abbrev pub loop {ℓ} : {A : Type ℓ} → ℕ → (ℕ → A → A) → A → A
loop zero body a = a
loop (suc n) body a = body n (loop n body a)

-- A character and its colour.
abbrev pub put : (pos char color : ℕ) → (ℕ → ℕ) → ℕ → ℕ
put pos char color v = write (write v pos char) (pos + 1) color

-- The cell of a column and a row.
abbrev pub cell : ℕ → ℕ → ℕ
cell i j = 2 * (i + j * screen_width)

-- The first loop of `kscroll`, whose `j` starts at 1: `n` columns of row `j` are copied upwards.
copy_columns : (n j : ℕ) → (ℕ → ℕ) → ℕ → ℕ
copy_columns n j = loop n λ i v. put (cell i (j - 1)) (v (cell i j)) (v (cell i j + 1)) v

copy_rows : ℕ → (ℕ → ℕ) → ℕ → ℕ
unfolding copy_columns
copy_rows n = loop n λ j. copy_columns screen_width (j + 1)

-- The second loop of `kscroll`, and the inner one of `kclearScreen`: `n` columns of a row are cleared.
pub clear_columns : (n j : ℕ) → (ℕ → ℕ) → ℕ → ℕ
clear_columns n j = loop n λ i. put (cell i j) 0 color_black

-- It is called with the cursor below the screen only, so that `cursorY--` does not go below 0.
pub kscroll : Screen → Screen
unfolding copy_rows clear_columns
kscroll s = record s {
  videoram =
      clear_columns screen_width (screen_height - 1) (copy_rows (screen_height - 1) s.videoram);
  cursor_y = s.cursor_y - 1;
}

-- What is done with a character once the cursor is on the screen.
pub print_char : ℕ → Screen → Screen
print_char c s =
    let back =
      if ltb 0 s.cursor_x
      then record s { cursor_x = s.cursor_x - 1 }
      else if ltb 0 s.cursor_y
      then record s { cursor_y = s.cursor_y - 1; cursor_x = screen_width - 1 }
      else s in
    if c == 10
    then record s { cursor_y = s.cursor_y + 1; cursor_x = 0 }
    else if c == 13
    then record s { cursor_x = 0 }
    else if c == 8
    then record back {
      videoram = put (cell back.cursor_x back.cursor_y) 0 color_white back.videoram;
    }
    else record s {
      videoram = put (cell s.cursor_x s.cursor_y) c color_white s.videoram;
      cursor_x = s.cursor_x + 1;
    }

pub scroll_at_end : Screen → Screen
unfolding kscroll
scroll_at_end s = if s.cursor_y == screen_height then kscroll (kscroll (kscroll s)) else s

-- `kprint(const char *)`, on fuel: a round at the end of a line does not use up a character.
pub kprint : ℕ → List ℕ → Screen → Outcome Screen
unfolding scroll_at_end print_char
kprint zero msg s = stuck
kprint (suc fuel) [] s = ok s
kprint (suc fuel) (c ∷ msg) s =
    let s' = scroll_at_end s in
    let (left, next) =
      if s'.cursor_x == screen_width
      then (c ∷ msg, record s' { cursor_y = s'.cursor_y + 1; cursor_x = 0 })
      else (msg, print_char c s') in
    kprint fuel left next

pub kprint_cursor : ℕ → Screen → Outcome Screen
unfolding kprint
kprint_cursor fuel = kprint fuel (62 ∷ [])

pub kprintln : ℕ → List ℕ → Screen → Outcome Screen
unfolding kprint kprint_cursor
kprintln fuel msg s = kprint fuel msg s >>= kprint fuel (13 ∷ 10 ∷ []) >>= kprint_cursor fuel

pub kclear_screen : ℕ → Screen → Outcome Screen
unfolding clear_columns kprint_cursor
kclear_screen fuel s = kprint_cursor fuel (record {
  videoram = loop screen_height (λ j. clear_columns screen_width j) s.videoram;
  cursor_x = 0;
  cursor_y = 0;
})

-- The loop of `kprint(unsigned int)`: `left` is the index of `ptr` in the array, and `ats` are the
-- characters from there on. A write in front of the array is a fault.
digits_loop : (fuel c left : ℕ) → List ℕ → Outcome (List ℕ)
digits_loop zero c left ats = stuck
digits_loop (suc fuel) c zero ats = if c == 0 then ok ats else fault
digits_loop (suc fuel) c (suc left) ats =
    let rest = digits_loop fuel (c / 10) left ((c % 10 + 0x30) ∷ ats) in
    if c == 0 then ok ats else rest

-- The characters that `kprint(unsigned int)` hands to `kprint`.
pub digits : (fuel c : ℕ) → Outcome (List ℕ)
unfolding digits_loop
digits fuel c = if c == 0 then ok (0x30 ∷ []) else digits_loop fuel c 9 []

pub kprint_unsigned : (fuel c : ℕ) → Screen → Outcome Screen
unfolding digits kprint
kprint_unsigned fuel c s = digits fuel c >>= λ ptr. kprint fuel ptr s

abbrev pub hex_digit : ℕ → ℕ
hex_digit n = if leb 10 n then n + 55 else n + 48

-- The characters that `kprinthex(unsigned char)` hands to `kprint`.
pub hex : ℕ → List ℕ
hex c = hex_digit (c / 2 ^ 4) ∷ hex_digit (bit_and c 0x0F) ∷ []

pub kprint_hex : (fuel c : ℕ) → Screen → Outcome Screen
unfolding hex kprint
kprint_hex fuel c = kprint fuel (hex c)

-- `kprinthex(int)`, which prints the bytes of the number in the order that they have in memory.
pub kprint_hex_int : (fuel c : ℕ) → Screen → Outcome Screen
unfolding kprint_hex
kprint_hex_int fuel c s =
    kprint_hex fuel (c % 2 ^ 8) s
    >>= kprint_hex fuel (c / 2 ^ 8 % 2 ^ 8)
    >>= kprint_hex fuel (c / 2 ^ 16 % 2 ^ 8)
    >>= kprint_hex fuel (c / 2 ^ 24)
