-- ===== src/Kmain/Lookup.antt =====
-- kmain.cpp: how the launcher finds a program by its name.
use hobby_kernel.Common.{
  ℕ, zero, suc, Bool, true, false, ◌+◌, ◌%◌, ◌≤◌, ◌<◌, ◌≡◌, ◌≢◌, refl, sym, subst, ap, ◌∙◌, not,
  ◌&&◌, ◌==◌, if◌then◌else◌, if_cases, if_false, ◌⊎◌, inl, inr, Option, none, some, ok, Returns,
  Returns-mono, Returns->>=, arith, ◌∷◌, [], List, length,
}
use hobby_kernel.Strings.Layout.{IsString}
use hobby_kernel.Strings.Compare.{same}
use hobby_kernel.Kmain.{strcmp, Launcher, add, find}

-- The two characters are the same if and only if the strings are.
abbrev pub Compares : (xs ys : List ℕ) → ℕ × ℕ → Type 0
Compares xs ys r = (r.0 == r.1) ≡ same xs ys

same_ends :
    (a b x y : ℕ) (e : Bool)
    → a ≡ x
    → b ≡ y
    → x ≢ 0
    → (not (a == 0) && (a == b)) ≡ false
    → (a == b) ≡ ((x == y) && e)
same_ends a b x y e ha hb n h = ground (arith, ha, hb, n, h)

same_goes : (a b x y : ℕ) → a ≡ x → b ≡ y → (not (a == 0) && (a == b)) ≡ true → (x == y) ≡ true
same_goes a b x y ha hb h = ground (arith, ha, hb, h)

strcmp_ends :
    (s1 s2 : ℕ) (m : ℕ → ℕ) (xs ys : List ℕ)
    → IsString m s1 xs
    → IsString m s2 ys
    → (not (m s1 == 0) && (m s1 == m s2)) ≡ false
    → (m s1 == m s2) ≡ same xs ys
strcmp_ends s1 s2 m [] [] h1 h2 e = ground (arith, h1, h2)
strcmp_ends s1 s2 m [] (y ∷ ys) h1 h2 e = ground (arith, h1, h2.0, h2.1)
strcmp_ends s1 s2 m (x ∷ xs) [] h1 h2 e = ground (arith, h1.0, h1.1, h2)
strcmp_ends s1 s2 m (x ∷ xs) (y ∷ ys) h1 h2 e =
    same_ends (m s1) (m s2) x y (same xs ys) h1.0 h2.0 h1.1 e

-- At the end of one of the strings the loop stops.
stops_at_end :
    (s1 s2 x : ℕ) (m : ℕ → ℕ)
    → (m s1 ≡ 0) ⊎ ((m s1 ≡ x) × (x ≢ 0) × (m s2 ≡ 0))
    → (not (m s1 == 0) && (m s1 == m s2)) ≡ false
stops_at_end s1 s2 x m (inl h) = ground (arith, h)
stops_at_end s1 s2 x m (inr h) = ground (arith, h.0, h.1, h.2)

pub strcmp-Compares :
    (fuel s1 s2 : ℕ) (m : ℕ → ℕ) (xs ys : List ℕ)
    → IsString m s1 xs
    → IsString m s2 ys
    → length xs < fuel
    → Returns (Compares xs ys) (strcmp fuel s1 s2 m)
unfolding strcmp
strcmp-Compares zero s1 s2 m xs ys h1 h2 l = absurd (omega arith)
strcmp-Compares (suc fuel) s1 s2 m [] ys h1 h2 l =
    let goes = not (m s1 == 0) && (m s1 == m s2) in
    let e = stops_at_end s1 s2 0 m (inl h1) in
    subst (Returns (Compares [] ys))
      (sym (if_false goes (strcmp fuel (s1 + 1) (s2 + 1) m) (ok (m s1, m s2)) e))
      (strcmp_ends s1 s2 m [] ys h1 h2 e)
strcmp-Compares (suc fuel) s1 s2 m (x ∷ xs) [] h1 h2 l =
    let goes = not (m s1 == 0) && (m s1 == m s2) in
    let e = stops_at_end s1 s2 x m (inr (h1.0, h1.1, h2)) in
    subst (Returns (Compares (x ∷ xs) []))
      (sym (if_false goes (strcmp fuel (s1 + 1) (s2 + 1) m) (ok (m s1, m s2)) e))
      (strcmp_ends s1 s2 m (x ∷ xs) [] h1 h2 e)
strcmp-Compares (suc fuel) s1 s2 m (x ∷ xs) (y ∷ ys) h1 h2 l =
    let rest = strcmp fuel (s1 + 1) (s2 + 1) m in
    if_cases (Returns (Compares (x ∷ xs) (y ∷ ys))) (not (m s1 == 0) && (m s1 == m s2)) rest
      (ok (m s1, m s2))
      (λ e.
        Returns-mono (Compares xs ys) (Compares (x ∷ xs) (y ∷ ys)) rest
          (strcmp-Compares fuel (s1 + 1) (s2 + 1) m xs ys h1.2 h2.2 (omega (arith, l)))
          λ r c. c ∙ ap (λ b. b && same xs ys) (sym (same_goes (m s1) (m s2) x y h1.0 h2.0 e)))
      λ e. strcmp_ends s1 s2 m (x ∷ xs) (y ∷ ys) h1 h2 e

-- The program is the first one whose name is the line, from `i` on and in front of `n`.
pub record First (i n : ℕ) (names : ℕ → List ℕ) (line : List ℕ) (programs : ℕ → ℕ) (program : ℕ)
    : Type 0 where
  pub index : ℕ
  pub at_least : i ≤ index
  pub below : index < n
  pub result : program ≡ programs index
  pub named : same (names index) line ≡ true
  pub earlier : (j : ℕ) → i ≤ j → j < index → same (names j) line ≡ false

abbrev pub Finds : (i n : ℕ) (names : ℕ → List ℕ) (line : List ℕ) (l : Launcher) → Option ℕ → Type 0
Finds i n names line l none = (j : ℕ) → i ≤ j → j < n → same (names j) line ≡ false
Finds i n names line l (some program) = First i n names line l.programs program

earlier_too :
    (i j : ℕ) (b : ℕ → Bool) → b i ≡ false → (i + 1 ≤ j → b j ≡ false) → i ≤ j → b j ≡ false
earlier_too i j b h rest le = ground (arith, h, rest, le)

Finds-step :
    (i n : ℕ) (names : ℕ → List ℕ) (line : List ℕ) (l : Launcher) (o : Option ℕ)
    → same (names i) line ≡ false
    → Finds (i + 1) n names line l o
    → Finds i n names line l o
Finds-step i n names line l none h f =
    λ j a b. earlier_too i j (λ j. same (names j) line) h (λ c. f j c b) a
Finds-step i n names line l (some p) h f = record {
  index = f.index;
  at_least = omega (arith, f.at_least);
  below = f.below;
  result = f.result;
  named = f.named;
  earlier = λ j a b. earlier_too i j (λ j. same (names j) line) h (λ c. f.earlier j c b) a;
}

-- When the names and the line are strings in memory, the search of `lineEntered` returns, with the
-- first program that has the line as its name, or with none if there is no such program.
pub find-Finds :
    (fuel n i line : ℕ) (name : ℕ → ℕ) (m : ℕ → ℕ) (l : Launcher) (names : ℕ → List ℕ)
    (text : List ℕ)
    → ((j : ℕ) → i ≤ j → j < i + n → IsString m (name (l.programs j)) (names j))
    → ((j : ℕ) → i ≤ j → j < i + n → length (names j) < fuel)
    → IsString m line text
    → Returns (Finds i (i + n) names text l) (find fuel n i line name m l)
unfolding find
find-Finds fuel zero i line name m l names text h b t = λ j a c. absurd (omega (arith, a, c))
find-Finds fuel (suc n) i line name m l names text h b t =
    let rest = find fuel n (i + 1) line name m l in
    let next = λ (r : ℕ × ℕ). if r.0 == r.1 then ok (some (l.programs i)) else rest in
    let P = Finds i (i + suc n) names text l in
    Returns->>= (Compares (names i) text) P (strcmp fuel (name (l.programs i)) line m) next
      (strcmp-Compares fuel (name (l.programs i)) line m (names i) text
        (h i (omega arith) (omega arith)) t (b i (omega arith) (omega arith)))
      λ r c.
        if_cases (Returns P) (r.0 == r.1) (ok (some (l.programs i))) rest
          (λ e. record {
            index = i;
            at_least = omega arith;
            below = omega arith;
            result = refl;
            named = sym c ∙ e;
            earlier = λ j a d. absurd (omega (arith, a, d));
          })
          λ e.
            Returns-mono (Finds (i + 1) (i + 1 + n) names text l) P rest
              (find-Finds fuel n (i + 1) line name m l names text
                (λ j a d. h j (omega (arith, a)) (omega (arith, d)))
                (λ j a d. b j (omega (arith, a)) (omega (arith, d))) t)
              λ o f.
                Finds-step i (i + suc n) names text l o (sym c ∙ e)
                  (subst (λ z. Finds (i + 1) z names text l o) (omega arith) f)

-- Programs that are added one after the other.
pub add_all : List ℕ → Launcher → Launcher
unfolding add
add_all [] l = l
add_all (p ∷ ps) l = add_all ps (add p l)

add_all-current :
    (ps : List ℕ) (l : Launcher) → (add_all ps l).current % 10 ≡ (l.current + length ps) % 10
unfolding add_all add
add_all-current [] l = ap (λ n. n % 10) (omega arith)
add_all-current (p ∷ ps) l = add_all-current ps (add p l) ∙ omega arith

add_all-below : (ps : List ℕ) (l : Launcher) → l.current < 10 → (add_all ps l).current < 10
unfolding add_all add
add_all-below [] l h = h
add_all-below (p ∷ ps) l h = add_all-below ps (add p l) (omega arith)

-- The tenth program that is added to an empty launcher hides all of them: whatever the line, none is
-- found.
pub find-add_all :
    (fuel line : ℕ) (name : ℕ → ℕ) (m : ℕ → ℕ) (ps : List ℕ) (l : Launcher)
    → l.current ≡ 0
    → length ps ≡ 10
    → find fuel (add_all ps l).current 0 line name m (add_all ps l) ≡ ok none
unfolding find
find-add_all fuel line name m ps l z t =
    let c = add_all-current ps l in
    let b = add_all-below ps l (omega (arith, z)) in
    let e : (add_all ps l).current ≡ 0 = omega (arith, c, b, z, t) in
    ap (λ n. find fuel n 0 line name m (add_all ps l)) e
