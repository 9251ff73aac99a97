-- ===== src/Kmain/Drawing.antt =====
-- kmain.cpp: what is drawn.
use hobby_kernel.Common.{ℕ, ◌+◌, ◌*◌, ◌%◌, ◌<◌, ◌≡◌, ◌≢◌, arith, Returns}
use hobby_kernel.Console.{Screen, color_white}
use hobby_kernel.Kmain.{drawing_message, draw}

-- The letter Z stands in the cell of a column and a row, and all else is as before.
pub record Draws (x y : ℕ) (s s' : Screen) : Type 0 where
  pub on_screen : (x < 80) × (y < 25)
  pub letter : s'.videoram (2 * (y * 80 + x)) ≡ 90
  pub color : s'.videoram (2 * (y * 80 + x) + 1) ≡ color_white
  pub others :
      (a : ℕ) → a ≢ 2 * (y * 80 + x) → a ≢ 2 * (y * 80 + x) + 1 → s'.videoram a ≡ s.videoram a

-- Whatever the seed, the message that is sent for it draws one letter on the screen.
pub draw-Draws :
    (seed : ℕ) (s : Screen)
    → Returns (Draws (seed % 80) (seed % 25) s) (draw (drawing_message seed) s)
unfolding draw drawing_message
draw-Draws seed s = record {
  on_screen = (omega arith, omega arith);
  letter = ground arith;
  color = ground arith;
  others = λ a h h'. ground (arith, h, h');
}
