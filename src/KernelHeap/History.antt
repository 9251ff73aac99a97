-- ===== src/KernelHeap/History.antt =====
-- code/MemoryManagement.cpp: sequences of `kernel_malloc` and `kernel_free`.
use hobby_kernel.Common.{
  ℕ, suc, ◌+◌, ◌≤◌, ◌≡◌, refl, ◌∙◌, List, [], ◌∷◌, arith, Outcome, ok, ◌>>=◌, Returns, Returns-mono,
  Returns->>=,
}
use hobby_kernel.KernelHeap.{KernelHeap, kernel_malloc, kernel_free, sizeof_memory_block}
use hobby_kernel.KernelHeap.Bump.{
  IsReady, room, Bumps, kernel_malloc-Bumps, kernel_free-IsReady, kernel_free_frame,
}

pub data Call : Type 0 where
  mallocs : ℕ → Call
  frees : ℕ → Call

-- Memory that was returned: its address and its size in bytes.
pub record Chunk : Type 0 where
  pub address : ℕ
  pub bytes : ℕ

-- The calls in order, with the chunks that were handed out.
pub run : ℕ → List Call → KernelHeap → Outcome (List Chunk × KernelHeap)
run fuel [] h = ok ([], h)
run fuel (mallocs n ∷ cs) h = do
  (a, h') ← kernel_malloc fuel n h
  (rest, h'') ← run fuel cs h'
  ok (record { address = a; bytes = n } ∷ rest, h'')
run fuel (frees p ∷ cs) h = run fuel cs (kernel_free p h)

-- What the calls take from the region: frees give nothing back.
unfoldable pub cost : List Call → ℕ
cost [] = 0
cost (mallocs n ∷ cs) = n + sizeof_memory_block + cost cs
cost (frees p ∷ cs) = cost cs

-- The chunks lie in a row between two addresses, each behind room for its header.
abbrev pub InRow : ℕ → ℕ → List Chunk → Type 0
InRow lo hi [] = lo ≤ hi
InRow lo hi (c ∷ cs) = (c.address ≡ lo + sizeof_memory_block) × InRow (c.address + c.bytes) hi cs

-- What a history that fits has left behind.
abbrev pub RanInRow : KernelHeap → List Call → List Chunk × KernelHeap → Type 0
RanInRow h cs r =
    InRow h.current_address r.1.current_address r.0
    × (r.1.current_address ≡ h.current_address + cost cs)
    × (r.1.last_valid_address ≡ h.last_valid_address)
    × IsReady r.1

-- While the requests, with a header for each, fit into the region, every call returns, and the
-- chunks lie in a row, so that they are disjoint and inside the region. What is freed in between is
-- not used again.
pub run-InRow :
    (f : ℕ) (cs : List Call) (h : KernelHeap)
    → IsReady h
    → cost cs ≤ room h
    → Returns (RanInRow h cs) (run (suc f) cs h)
unfolding run cost
run-InRow f [] h v fits = (omega arith, omega arith, refl, v)
run-InRow f (mallocs n ∷ cs) h v fits =
    Returns->>= (Bumps h n) _ (kernel_malloc (suc f) n h) _
      (kernel_malloc-Bumps f h n v (omega arith))
      λ r b.
        Returns->>= (RanInRow r.1 cs) _ (run (suc f) cs r.1) _
          (run-InRow f cs r.1 b.ready (omega (arith, b.next, b.same_end)))
          λ s o.
            let behind : r.1.current_address ≡ r.0 + n = omega (arith, b.next, b.address) in
            ((b.address, rw behind at o.0), omega (arith, o.1, b.next), o.2 ∙ b.same_end, o.3)
run-InRow f (frees p ∷ cs) h v fits =
    Returns-mono (RanInRow (kernel_free p h) cs) _ (run (suc f) cs (kernel_free p h))
      (run-InRow f cs (kernel_free p h) (kernel_free-IsReady p h v)
        (omega (arith, kernel_free_frame p h)))
      λ s o. (
        rw (kernel_free_frame p h).0 at o.0,
        omega (arith, o.1, kernel_free_frame p h),
        o.2 ∙ (kernel_free_frame p h).1,
        o.3,
      )
