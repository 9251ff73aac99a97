-- ===== src/Heap/Place.antt =====
-- code/mem/heap.c: `place_nonstandart_node`, which nothing calls.
use hobby_kernel.Common.{
  ℕ, zero, suc, ◌+◌, ◌-◌, ◌%◌, ◌^◌, ◌<◌, ◌≡◌, ◌≢◌, ◌⊎◌, inl, refl, sym, subst, true, false, ◌||◌,
  Option, none, some, List, [], ◌∷◌, ◌==◌, ltb, leb, length, if◌then◌else◌, if_cases, Outcome, ok,
  fault, stuck, ◌>>=◌, Returns, Returns->>=, arith,
}
use hobby_kernel.Common.Chain.{null, write, Chain}
use hobby_kernel.Heap.{Heap, sizeof_header}

-- The loop that merges. Each node counts with the length of the hole, `own`, and not with its own.
gather : (fuel own len temp accum : ℕ) → Heap → Outcome (ℕ × ℕ)
gather zero own len temp accum h = stuck
gather (suc fuel) own len temp accum h =
    let rest = gather fuel own len (h.next temp) ((accum + own) % 2 ^ 32) h in
    if temp == null || (h.allocated temp || leb len accum) then ok (temp, accum) else rest

-- The first `if`: the heap with the hole that has become long enough, or none.
widen : (fuel hole len : ℕ) → Heap → Outcome (Option Heap)
unfolding gather
widen fuel hole len h =
    if ltb (h.length hole) len
    then (gather fuel (h.length hole) len hole 0 h >>= λ (temp, accum). ok (
        if ltb accum len
        then none
        else some (record h {
          length = write h.length hole (accum % 2 ^ 31);
          next = write h.next hole temp;
        })))
    else ok (some h)

-- The second `if`. What is left over is put behind the whole of the hole.
fill : (hole node len : ℕ) → Heap → ℕ × Heap
fill hole node len h =
    let leftovers = (hole + h.length hole) % 2 ^ 32 in
    if ltb len (h.length hole)
    then (if ltb sizeof_header (h.length hole - len)
        then (
          hole + sizeof_header,
          record h {
            next = write (write h.next leftovers (h.next hole)) hole leftovers;
            allocated = write h.allocated leftovers false;
            length = write (write h.length leftovers (h.length hole - len)) hole len;
          },
        )
        else (null + sizeof_header, h))
    else (node + sizeof_header, record h { allocated = write h.allocated node true })

fill_option : (hole node len : ℕ) → Heap → Option Heap → ℕ × Heap
unfolding fill
fill_option hole node len h none = (null, h)
fill_option hole node len h (some h') = fill hole node len h'

pub place_nonstandart_node : (fuel hole node len : ℕ) → Heap → Outcome (ℕ × Heap)
unfolding widen fill_option
place_nonstandart_node fuel hole node len h =
    if hole == null || (node == null)
    then fault
    else (widen fuel hole len h >>= λ wider. ok (fill_option hole node len h wider))

-- A heap in which the hole is free, and shorter than 2 GB.
pub record IsHole (hole : ℕ) (h : Heap) : Type 0 where
  pub free : h.allocated hole ≡ false
  pub short : h.length hole < 2 ^ 31

-- What comes back is null, the memory behind the hole, address 8, or the memory behind the first node;
-- and the hole is still marked as free.
pub record Unmarked (hole node : ℕ) (r : ℕ × Heap) : Type 0 where
  pub pointer :
      (r.0 ≡ null)
      ⊎ (r.0 ≡ hole + sizeof_header)
      ⊎ (r.0 ≡ sizeof_header)
      ⊎ (r.0 ≡ node + sizeof_header)
  pub free : r.1.allocated hole ≡ false

gather-Returns :
    (fuel own len temp accum : ℕ) (h : Heap) (ns : List ℕ)
    → Chain h.next temp ns
    → length ns < fuel
    → Returns (λ r. Unit {0}) (gather fuel own len temp accum h)
unfolding gather
gather-Returns zero own len temp accum h ns c l = absurd (omega arith)
gather-Returns (suc fuel) own len temp accum h [] c l =
    if_cases (Returns λ r. Unit {0}) (temp == null || (h.allocated temp || leb len accum))
      (ok (temp, accum)) (gather fuel own len (h.next temp) ((accum + own) % 2 ^ 32) h) (λ e. tt)
      λ e. absurd (ground (arith, c, e))
gather-Returns (suc fuel) own len temp accum h (x ∷ ns) c l =
    let rest : Chain h.next (h.next temp) ns =
      subst (λ a. Chain h.next (h.next a) ns) (sym c.0) c.2 in
    if_cases (Returns λ r. Unit {0}) (temp == null || (h.allocated temp || leb len accum))
      (ok (temp, accum)) (gather fuel own len (h.next temp) ((accum + own) % 2 ^ 32) h) (λ e. tt)
      λ e.
        gather-Returns fuel own len (h.next temp) ((accum + own) % 2 ^ 32) h ns rest
          (omega (arith, l))

fill-Unmarked :
    (hole node len : ℕ) (h : Heap)
    → hole < 2 ^ 32
    → hole ≢ node
    → IsHole hole h
    → Unmarked hole node (fill hole node len h)
unfolding fill
fill-Unmarked hole node len h word ne i = record {
  pointer = ground arith;
  free = ground (arith, i.free, i.short);
}

-- What the first `if` hands on is still a hole, or nothing.
abbrev HoleOrNone : ℕ → Option Heap → Type 0
HoleOrNone hole none = Unit {0}
HoleOrNone hole (some h) = IsHole hole h

module _ (fuel hole node len : ℕ) (h : Heap) (ns : List ℕ) (c : Chain h.next hole ns)
    (l : length ns < fuel) (word : hole < 2 ^ 32) (ne : hole ≢ node) (some_hole : hole ≢ null)
    (some_node : node ≢ null) (i : IsHole hole h) where
  widen-HoleOrNone : Returns (HoleOrNone hole) (widen fuel hole len h)
  unfolding widen
  widen-HoleOrNone =
      let wide = λ (r : ℕ × ℕ). record h {
        length = write h.length hole (r.1 % 2 ^ 31);
        next = write h.next hole r.0;
      } in
      let finish : ℕ × ℕ → Outcome (Option Heap) =
        λ r. ok (if ltb r.1 len then none else some (wide r)) in
      let gathered = gather fuel (h.length hole) len hole 0 h in
      if_cases (Returns (HoleOrNone hole)) (ltb (h.length hole) len) (gathered >>= finish)
        (ok (some h))
        (λ e.
          Returns->>= (λ r. Unit {0}) (HoleOrNone hole) gathered finish
            (gather-Returns fuel (h.length hole) len hole 0 h ns c l)
            λ r u.
              if_cases (HoleOrNone hole) (ltb r.1 len) none (some (wide r)) (λ t. tt)
                λ t. record { free = i.free; short = ground arith })
        λ e. i

  fill_option-Unmarked :
      (wider : Option Heap)
      → HoleOrNone hole wider
      → Unmarked hole node (fill_option hole node len h wider)
  unfolding fill_option
  fill_option-Unmarked none w = record { pointer = inl refl; free = i.free }
  fill_option-Unmarked (some h') w = fill-Unmarked hole node len h' word ne w

  -- On a hole behind the first node, the function returns, with more fuel than there are nodes from the
  -- hole on. Whatever it returns, it leaves the hole marked as free.
  pub place_nonstandart_node-Unmarked :
      Returns (Unmarked hole node) (place_nonstandart_node fuel hole node len h)
  unfolding place_nonstandart_node
  place_nonstandart_node-Unmarked =
      let finish : Option Heap → Outcome (ℕ × Heap) =
        λ wider. ok (fill_option hole node len h wider) in
      if_cases (Returns (Unmarked hole node)) (hole == null || (node == null)) fault
        (widen fuel hole len h >>= finish) (λ e. absurd (ground (arith, e, some_hole, some_node)))
        λ e.
          Returns->>= (HoleOrNone hole) (Unmarked hole node) (widen fuel hole len h) finish
            widen-HoleOrNone fill_option-Unmarked
