-- ===== src/Keyboard/History.antt =====
-- code/Keyboard.cpp: what the listener hears of many keys.
use hobby_kernel.Common.{
  ℕ, ◌≡◌, refl, sym, subst, ap, ◌∙◌, Bool, true, if◌then◌else◌, ◌>>=◌, Returns, Returns->>=,
  Returns-mono, bind_assoc, List, [], ◌∷◌, ◌++◌,
}
use hobby_kernel.Common.Chain.{write}
use hobby_kernel.Keyboard.{Keyboard, Event, handle_keyboard_event}
use hobby_kernel.Keyboard.Pressed.{key_event, key_events}
use hobby_kernel.Keyboard.Codes.{key_of, offer, feed, Stroke, codes, IsPlain}
use hobby_kernel.Keyboard.Strokes.{Idle, Reports, feed-Reports}

-- Several strokes, one after the other.
abbrev pub AllPlain : List Stroke → Type 0
AllPlain [] = Unit
AllPlain (s ∷ ss) = IsPlain s × AllPlain ss

abbrev pub all_codes : List Stroke → List ℕ
all_codes [] = []
all_codes (s ∷ ss) = codes s ++ all_codes ss

-- The events of the strokes in front of others, the last one first.
abbrev pub tell : List Stroke → List Event → List Event
tell [] es = es
tell (s ∷ ss) es = tell ss (key_event (key_of s.code) s.pressed ∷ es)

-- The table after the strokes.
abbrev pub press_all : List Stroke → (ℕ → Bool) → ℕ → Bool
press_all [] table = table
press_all (s ∷ ss) table = press_all ss (write table (key_of s.code) s.pressed)

-- After strokes that a listener has been told of, in order.
pub record Decodes (ss : List Stroke) (k k' : Keyboard) : Type 0 where
  pub idle : Idle k'
  pub table : k'.is_pressed ≡ press_all ss k.is_pressed
  pub told : key_events k'.events ≡ tell ss (key_events k.events)

pub feed-append : (xs ys : List ℕ) (k : Keyboard) → feed (xs ++ ys) k ≡ (feed xs k >>= feed ys)
unfolding feed
feed-append [] ys k = refl
feed-append (x ∷ xs) ys k =
    bind_assoc (handle_keyboard_event (offer x k)) (feed (xs ++ ys)) (feed xs) (feed ys)
      (feed-append xs ys)

-- A listener is told of exactly the keys that are pressed and released, in their order, whatever
-- their codes; the table of pressed keys has their states, and no part of a stroke is left over.
pub feed-Decodes :
    (ss : List Stroke) (k : Keyboard)
    → AllPlain ss
    → Idle k
    → k.callback ≡ true
    → Returns (Decodes ss k) (feed (all_codes ss) k)
unfolding feed
feed-Decodes [] k p i c = record { idle = i; table = refl; told = refl }
feed-Decodes (s ∷ ss) k p i c =
    subst (Returns (Decodes (s ∷ ss) k)) (sym (feed-append (codes s) (all_codes ss) k)) (
      Returns->>= (Reports s k) (Decodes (s ∷ ss) k) (feed (codes s) k) (feed (all_codes ss))
        (feed-Reports s k p.0 i)
        λ k1 r.
          Returns-mono (Decodes ss k1) (Decodes (s ∷ ss) k) (feed (all_codes ss) k1)
            (feed-Decodes ss k1 p.1 r.idle (r.callback ∙ c))
            λ k2 d. record {
              idle = d.idle;
              table = d.table ∙ ap (press_all ss) r.table;
              told =
                  d.told
                  ∙ ap (tell ss) (
                      r.told
                      ∙ ap
                          (λ b.
                            if b
                            then key_event (key_of s.code) s.pressed ∷ key_events k.events
                            else key_events k.events)
                          c);
            })
