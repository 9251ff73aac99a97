-- ===== src/Console/Print.antt =====
-- code/Console.cpp: `kprint` of a text.
use hobby_kernel.Common.{
  ℕ, zero, suc, ◌+◌, ◌-◌, ◌*◌, ◌≤◌, ◌<◌, ◌≡◌, refl, ◌∙◌, sym, subst, false, arith, List, [], ◌∷◌,
  length, ◌==◌, if◌then◌else◌, Bool-cases, inl, inr, Returns, Returns-mono, Outcome, ◌>>=◌,
  Returns->>=, bit_and, ◌/◌, ◌%◌, ◌^◌,
}
use hobby_kernel.Console.{
  loop, clear_columns, kclear_screen, Screen, kscroll, scroll_at_end, print_char, kprint, kprintln,
  kprint_cursor, kprint_hex, kprint_hex_int, hex, hex_digit,
}
use hobby_kernel.Console.Scroll.{kscroll_lem, clear_screen_lem}

-- The cursor is on the screen, or just behind the end of a line or of the screen.
pub record OnScreen (s : Screen) : Type 0 where
  pub column : s.cursor_x ≤ 80
  pub row : s.cursor_y ≤ 25

-- What printing has done: the cursor is on the screen, and nothing outside it is written.
pub record Prints (s s' : Screen) : Type 0 where
  pub on_screen : OnScreen s'
  pub outside : (a : ℕ) → 4000 ≤ a → s'.videoram a ≡ s.videoram a

kscroll-outside : (s : Screen) (a : ℕ) → 4000 ≤ a → (kscroll s).videoram a ≡ s.videoram a
kscroll-outside s a h = (kscroll_lem s a).0 ∙ ground arith

three_up : (y y₁ y₂ y₃ : ℕ) → y ≤ 25 → y₁ ≡ y - 1 → y₂ ≡ y₁ - 1 → y₃ ≡ y₂ - 1 → y₃ < 25
three_up y y₁ y₂ y₃ h e₁ e₂ e₃ = omega arith

lower : (y : ℕ) → y ≤ 25 → (y == 25) ≡ false → y < 25
lower y h e = ground arith

-- There is room for a character or for the end of a line, and the rest is as in `s`.
abbrev HasRow : Screen → Screen → Type 0
HasRow s t =
    (t.cursor_x ≡ s.cursor_x)
    × (t.cursor_y < 25)
    × ((a : ℕ) → 4000 ≤ a → t.videoram a ≡ s.videoram a)

kscroll_thrice : (s : Screen) → s.cursor_y ≤ 25 → HasRow s (kscroll (kscroll (kscroll s)))
kscroll_thrice s h =
    let s1 = kscroll s in
    let s2 = kscroll s1 in
    (
      (kscroll_lem s2 0).1 ∙ (kscroll_lem s1 0).1 ∙ (kscroll_lem s 0).1,
      three_up s.cursor_y s1.cursor_y s2.cursor_y (kscroll s2).cursor_y h (kscroll_lem s 0).2
          (kscroll_lem s1 0).2 (kscroll_lem s2 0).2,
      (λ a h. kscroll-outside s2 a h ∙ kscroll-outside s1 a h ∙ kscroll-outside s a h),
    )

scroll_at_end-HasRow : (s : Screen) → s.cursor_y ≤ 25 → HasRow s (scroll_at_end s)
unfolding scroll_at_end
scroll_at_end-HasRow s h = elim (Bool-cases (s.cursor_y == 25)) [
  | inl low ↦
      subst (λ b. HasRow s (if b then kscroll (kscroll (kscroll s)) else s)) (sym low)
        (kscroll_thrice s h)
  | inr above ↦
      subst (λ b. HasRow s (if b then kscroll (kscroll (kscroll s)) else s)) (sym above)
        (refl, lower s.cursor_y h above, λ a h. refl)
]

print_char-Prints :
    (c : ℕ) (s : Screen) → s.cursor_x < 80 → s.cursor_y < 25 → Prints s (print_char c s)
unfolding print_char
print_char-Prints c s x y = record {
  on_screen = record { column = ground arith; row = ground arith };
  outside = λ a h. ground arith;
}

-- The characters left and the screen after a round of the loop, from the screen `t` on.
abbrev round : ℕ → List ℕ → Screen → List ℕ × Screen
round c msg t =
    if t.cursor_x == 80
    then (c ∷ msg, record t { cursor_y = t.cursor_y + 1; cursor_x = 0 })
    else (msg, print_char c t)

-- The rounds that the loop still needs, from a column on.
abbrev rounds : ℕ → List ℕ → ℕ
rounds x msg = if x == 80 then 2 * length msg else 2 * length msg - 1

-- What a round leaves.
abbrev Goes : ℕ → Screen → List ℕ × Screen → Type 0
Goes f s r = Prints s r.1 × (rounds r.1.cursor_x r.0 < f)

round-Goes :
    (f c : ℕ) (msg : List ℕ) (s t : Screen)
    → s.cursor_x ≤ 80
    → HasRow s t
    → rounds s.cursor_x (c ∷ msg) < suc f
    → Goes f s (round c msg t)
round-Goes f c msg s t x row h = elim (Bool-cases (t.cursor_x == 80)) [
  | inl full ↦ rw full (
    record {
      on_screen = record { column = omega arith; row = omega (arith, row.1) };
      outside = row.2;
    },
    ground (arith, row.0),
  )
  | inr more ↦
      let here : t.cursor_x < 80 = ground (arith, row.0) in
      let p = print_char-Prints c t here row.1 in
      rw more (
        record { on_screen = p.on_screen; outside = λ a h. p.outside a h ∙ row.2 a h },
        ground (arith, row.0, p.on_screen.column),
      )
]

kprint_from :
    (fuel : ℕ) (msg : List ℕ) (s : Screen)
    → OnScreen s
    → rounds s.cursor_x msg < fuel
    → Returns (Prints s) (kprint fuel msg s)
unfolding kprint
kprint_from zero msg s v h = absurd (omega arith)
kprint_from (suc f) [] s v h = record { on_screen = v; outside = λ a h. refl }
kprint_from (suc f) (c ∷ msg) s v h =
    let t = scroll_at_end s in
    let r = round c msg t in
    let g = round-Goes f c msg s t v.column (scroll_at_end-HasRow s v.row) h in
    Returns-mono (Prints r.1) (Prints s) (kprint f r.0 r.1)
      (kprint_from f r.0 r.1 g.0.on_screen g.1)
      λ s' p. record { on_screen = p.on_screen; outside = λ a h. p.outside a h ∙ g.0.outside a h }

-- `kprint` returns when it has two rounds for each character, keeps the cursor on the screen, and
-- writes nothing outside the 4000 bytes of the screen.
pub kprint-Prints :
    (fuel : ℕ) (msg : List ℕ) (s : Screen)
    → OnScreen s
    → 2 * length msg < fuel
    → Returns (Prints s) (kprint fuel msg s)
kprint-Prints fuel msg s v h = kprint_from fuel msg s v (ground (arith, h))

Prints-trans : (s s' s'' : Screen) → Prints s s' → Prints s' s'' → Prints s s''
Prints-trans s s' s'' a b = record {
  on_screen = b.on_screen;
  outside = λ p h. b.outside p h ∙ a.outside p h;
}

-- Two pieces of printing, one behind the other.
pub Prints->>= :
    (s : Screen) (r : Outcome Screen) (f : Screen → Outcome Screen)
    → Returns (Prints s) r
    → ((s' : Screen) → OnScreen s' → Returns (Prints s') (f s'))
    → Returns (Prints s) (r >>= f)
Prints->>= s r f h next = Returns->>= (Prints s) (Prints s) r f h λ s' p.
    Returns-mono (Prints s') (Prints s) (f s') (next s' p.on_screen)
      λ s'' q. Prints-trans s s' s'' p q

-- `kprintln` of a text returns with the cursor on the screen and nothing written outside it.
pub kprintln-Prints :
    (fuel : ℕ) (msg : List ℕ) (s : Screen)
    → OnScreen s
    → 2 * length msg < fuel
    → 4 < fuel
    → Returns (Prints s) (kprintln fuel msg s)
unfolding kprintln kprint_cursor
kprintln-Prints fuel msg s v h l =
    Prints->>= s (kprint fuel msg s >>= kprint fuel (13 ∷ 10 ∷ [])) (kprint fuel (62 ∷ []))
      (Prints->>= s (kprint fuel msg s) (kprint fuel (13 ∷ 10 ∷ [])) (kprint-Prints fuel msg s v h)
        λ s' v'. kprint-Prints fuel (13 ∷ 10 ∷ []) s' v' (omega arith))
      λ s' v'. kprint-Prints fuel (62 ∷ []) s' v' (omega arith)

kprint_hex-Prints :
    (fuel c : ℕ) (s : Screen) → OnScreen s → 4 < fuel → Returns (Prints s) (kprint_hex fuel c s)
unfolding kprint_hex hex
kprint_hex-Prints fuel c s v l =
    kprint-Prints fuel (hex_digit (c / 2 ^ 4) ∷ hex_digit (bit_and c 0x0F) ∷ []) s v (omega arith)

-- So does `kprinthex` of an `int`.
pub kprint_hex_int-Prints :
    (fuel c : ℕ) (s : Screen) → OnScreen s → 4 < fuel → Returns (Prints s) (kprint_hex_int fuel c s)
unfolding kprint_hex_int
kprint_hex_int-Prints fuel c s v l =
    Prints->>= s _ (kprint_hex fuel (c / 2 ^ 24))
      (Prints->>= s _ (kprint_hex fuel (c / 2 ^ 16 % 2 ^ 8))
        (Prints->>= s (kprint_hex fuel (c % 2 ^ 8) s) (kprint_hex fuel (c / 2 ^ 8 % 2 ^ 8))
          (kprint_hex-Prints fuel (c % 2 ^ 8) s v l)
          λ s' v'. kprint_hex-Prints fuel (c / 2 ^ 8 % 2 ^ 8) s' v' l)
        λ s' v'. kprint_hex-Prints fuel (c / 2 ^ 16 % 2 ^ 8) s' v' l)
      λ s' v'. kprint_hex-Prints fuel (c / 2 ^ 24) s' v' l

-- `kclearScreen` returns with the cursor on the screen and nothing written outside it.
pub kclear_screen-Prints :
    (fuel : ℕ) (s : Screen) → 4 < fuel → Returns (Prints s) (kclear_screen fuel s)
unfolding kclear_screen kprint_cursor
kclear_screen-Prints fuel s l =
    let cleared : Screen = record {
      videoram = loop 25 (λ j. clear_columns 80 j) s.videoram;
      cursor_x = 0;
      cursor_y = 0;
    } in
    Returns-mono (Prints cleared) (Prints s) (kprint fuel (62 ∷ []) cleared)
      (kprint-Prints fuel (62 ∷ []) cleared (record { column = omega arith; row = omega arith })
        (omega arith))
      λ s' p. record {
        on_screen = p.on_screen;
        outside = λ a h. p.outside a h ∙ clear_screen_lem a s.videoram ∙ ground arith;
      }
