-- ===== src/KernelHeap/Bump.antt =====
-- code/MemoryManagement.cpp: as long as memory lasts, blocks are handed out in a row.
use hobby_kernel.Common.{
  ℕ, suc, ◌+◌, ◌-◌, ◌%◌, ◌^◌, ◌≤◌, ◌<◌, ◌≡◌, ◌≢◌, refl, true, false, arith, leb, ◌==◌, not, ◌&&◌,
  ok, Returns,
}
use hobby_kernel.KernelHeap.{
  KernelHeap, init_kernel_malloc, take_block, search_block, kernel_malloc, kernel_free,
  sizeof_memory_block,
}

-- Behind `current_address` there is one free block, and it reaches to the end.
pub record IsReady (h : KernelHeap) : Type 0 where
  pub initialized : h.is_initialized ≡ true
  pub low : h.start_address ≤ h.current_address
  pub high : h.current_address ≤ h.last_valid_address
  pub word : h.last_valid_address < 2 ^ 32
  pub available :
      h.current_address < h.last_valid_address → (h.block h.current_address).is_available ≢ 0
  pub to_end :
      h.current_address < h.last_valid_address
      → (h.block h.current_address).size ≡ h.last_valid_address - h.current_address

-- The bytes that are left.
abbrev pub room : KernelHeap → ℕ
room h = h.last_valid_address - h.current_address

-- What an allocation has done: the memory it returns lies behind its own header, in what was
-- free, and the rest of the region stays free.
pub record Bumps (h : KernelHeap) (bytes : ℕ) (r : ℕ × KernelHeap) : Type 0 where
  pub address : r.0 ≡ h.current_address + sizeof_memory_block
  pub next : r.1.current_address ≡ h.current_address + sizeof_memory_block + bytes
  pub same_start : r.1.start_address ≡ h.start_address
  pub same_end : r.1.last_valid_address ≡ h.last_valid_address
  pub in_use : (r.1.block h.current_address).is_available ≡ 0
  pub same_below : (a : ℕ) → a < h.current_address → r.1.block a ≡ h.block a
  pub ready : IsReady r.1

pub init_kernel_malloc-IsReady : (h : KernelHeap) → IsReady (init_kernel_malloc h)
unfolding init_kernel_malloc
init_kernel_malloc-IsReady h = record {
  initialized = refl;
  low = omega arith;
  high = omega arith;
  word = omega arith;
  available = λ lt. omega arith;
  to_end = λ lt. refl;
}

take_block-Bumps :
    (h : KernelHeap) (bytes : ℕ)
    → IsReady h
    → bytes + sizeof_memory_block ≤ room h
    → Bumps h bytes (take_block bytes h.current_address h)
unfolding take_block
take_block-Bumps h bytes v fits = record {
  address = omega (arith, v.high, v.word);
  next = omega (arith, v.high, v.word);
  same_start = refl;
  same_end = refl;
  in_use = ground (arith, v.high, v.word);
  same_below = λ a lt. ground (arith, v.high, v.word);
  ready = record {
    initialized = v.initialized;
    low = omega (arith, v.low, v.high, v.word);
    high = omega (arith, v.high, v.word);
    word = v.word;
    available = λ lt. ground (arith, v.high, v.word, v.to_end);
    to_end = λ lt. ground (arith, v.high, v.word, v.to_end);
  };
}

search_block-hit :
    (f : ℕ) (h : KernelHeap) (bytes : ℕ)
    → IsReady h
    → bytes + sizeof_memory_block ≤ room h
    → search_block (suc f) bytes h.current_address h ≡ ok (take_block bytes h.current_address h)
unfolding search_block
search_block-hit f h bytes v fits = rw test
  where
    test :
        (not ((h.block h.current_address).is_available == 0)
          && leb ((bytes + sizeof_memory_block) % 2 ^ 32) (h.block h.current_address).size)
        ≡ true
    test = ground (arith, v.available, v.to_end, v.high, v.word)

pub kernel_malloc-search :
    (f : ℕ) (h : KernelHeap) (bytes : ℕ)
    → h.is_initialized ≡ true
    → kernel_malloc f bytes h ≡ search_block f bytes h.current_address h
unfolding kernel_malloc
kernel_malloc-search f h bytes e = simp e

-- The first call sets the region up and then does what it would have done in that region.
pub kernel_malloc-init :
    (f : ℕ) (h : KernelHeap) (bytes : ℕ)
    → h.is_initialized ≡ false
    → kernel_malloc f bytes h ≡ kernel_malloc f bytes (init_kernel_malloc h)
unfolding kernel_malloc
kernel_malloc-init f h bytes e = simp e

-- While the request and its header fit into what is left, `kernel_malloc` returns memory from
-- there in the first round of its loop.
pub kernel_malloc-Bumps :
    (f : ℕ) (h : KernelHeap) (bytes : ℕ)
    → IsReady h
    → bytes + sizeof_memory_block ≤ room h
    → Returns (Bumps h bytes) (kernel_malloc (suc f) bytes h)
kernel_malloc-Bumps f h bytes v fits =
    rw (kernel_malloc-search (suc f) h bytes v.initialized, search_block-hit f h bytes v fits)
      (take_block-Bumps h bytes v fits)

-- `kernel_free` keeps the free block behind `current_address`, whatever pointer it is given.
pub kernel_free-IsReady : (ptr : ℕ) (h : KernelHeap) → IsReady h → IsReady (kernel_free ptr h)
unfolding kernel_free
kernel_free-IsReady ptr h v = record {
  initialized = v.initialized;
  low = v.low;
  high = v.high;
  word = v.word;
  available = λ lt. ground (arith, v.available);
  to_end = λ lt. ground (arith, v.to_end);
}

pub kernel_free_frame :
    (ptr : ℕ) (h : KernelHeap)
    → ((kernel_free ptr h).current_address ≡ h.current_address)
      × ((kernel_free ptr h).last_valid_address ≡ h.last_valid_address)
      × ((kernel_free ptr h).start_address ≡ h.start_address)
unfolding kernel_free
kernel_free_frame ptr h = (refl, refl, refl)
