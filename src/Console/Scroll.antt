-- ===== src/Console/Scroll.antt =====
-- code/Console.cpp: `kscroll` as a move of whole rows.
use hobby_kernel.Common.{
  ℕ, zero, suc, ◌+◌, ◌-◌, ◌*◌, ◌≤◌, ◌≡◌, refl, ◌∙◌, arith, ltb, leb, if◌then◌else◌, ◌&&◌,
}
use hobby_kernel.Console.{Screen, copy_columns, copy_rows, clear_columns, kscroll, cell, loop}

copy_columns_lem :
    (n j a : ℕ) (v : ℕ → ℕ)
    → n ≤ 80
    → copy_columns n (j + 1) v a
      ≡ (if leb (160 * j) a && ltb a (160 * j + 2 * n) then v (a + 160) else v a)
unfolding copy_columns
copy_columns_lem zero j a v h = ground arith
copy_columns_lem (suc n) j a v h = ground (
  arith,
  copy_columns_lem n j a v,
  copy_columns_lem n j (cell n (j + 1)) v,
  copy_columns_lem n j (cell n (j + 1) + 1) v,
)

-- One more row moved.
one_more_row :
    (n a r₁ r₀ v₀ v₁ v₂ : ℕ)
    → r₁ ≡ (if ltb (a + 160) (160 * n) then v₂ else v₁)
    → r₀ ≡ (if ltb a (160 * n) then v₁ else v₀)
    → (if leb (160 * n) a && ltb a (160 * n + 160) then r₁ else r₀)
      ≡ (if ltb a (160 * suc n) then v₁ else v₀)
one_more_row n a r₁ r₀ v₀ v₁ v₂ e₁ e₀ = ground arith

copy_rows_lem :
    (n a : ℕ) (v : ℕ → ℕ)
    → n ≤ 24
    → copy_rows n v a ≡ (if ltb a (160 * n) then v (a + 160) else v a)
unfolding copy_rows
copy_rows_lem zero a v h = ground arith
copy_rows_lem (suc n) a v h =
    copy_columns_lem 80 n a (copy_rows n v) (omega arith)
    ∙ one_more_row n a (copy_rows n v (a + 160)) (copy_rows n v a) (v a) (v (a + 160))
        (v (a + 160 + 160)) (copy_rows_lem n (a + 160) v (omega (arith, h)))
        (copy_rows_lem n a v (omega (arith, h)))

pub clear_columns_lem :
    (n j a : ℕ) (v : ℕ → ℕ)
    → n ≤ 80
    → clear_columns n j v a ≡ (if leb (160 * j) a && ltb a (160 * j + 2 * n) then 0 else v a)
unfolding clear_columns
clear_columns_lem zero j a v h = ground arith
clear_columns_lem (suc n) j a v h = ground (arith, clear_columns_lem n j a v)

last_row :
    (a r v w : ℕ)
    → r ≡ (if ltb a (160 * 24) then w else v)
    → (if leb (160 * 24) a && ltb a (160 * 24 + 2 * 80) then 0 else r)
      ≡ (if ltb a 3840 then w else if ltb a 4000 then 0 else v)
last_row a r v w e = ground arith

-- `kscroll` moves each row of the screen up by one and clears the last row. It writes nothing behind
-- the 4000 bytes of the screen, and the cursor goes up by one row.
pub kscroll_lem :
    (s : Screen) (a : ℕ)
    → ((kscroll s).videoram a
        ≡ (if ltb a 3840 then s.videoram (a + 160) else if ltb a 4000 then 0 else s.videoram a))
      × ((kscroll s).cursor_x ≡ s.cursor_x)
      × ((kscroll s).cursor_y ≡ s.cursor_y - 1)
unfolding kscroll
kscroll_lem s a = (
  clear_columns_lem 80 24 a (copy_rows 24 s.videoram) (omega arith)
      ∙ last_row a (copy_rows 24 s.videoram a) (s.videoram a) (s.videoram (a + 160))
          (copy_rows_lem 24 a s.videoram (omega arith)),
  refl,
  refl,
)

-- The loops of `kclearScreen` on `n` rows.
clear_rows_lem :
    (n a : ℕ) (v : ℕ → ℕ)
    → loop n (λ j. clear_columns 80 j) v a ≡ (if ltb a (160 * n) then 0 else v a)
clear_rows_lem zero a v = ground arith
clear_rows_lem (suc n) a v =
    clear_columns_lem 80 n a (loop n (λ j. clear_columns 80 j) v) (omega arith)
    ∙ ground (arith, clear_rows_lem n a v)

-- The screen that `kclearScreen` prints its prompt on is empty.
pub clear_screen_lem :
    (a : ℕ) (v : ℕ → ℕ) → loop 25 (λ j. clear_columns 80 j) v a ≡ (if ltb a 4000 then 0 else v a)
clear_screen_lem a v = clear_rows_lem 25 a v
