-- ===== src/KernelHeap/Exhaustion.antt =====
-- code/MemoryManagement.cpp: a request that does not fit into what is left.
use hobby_kernel.Common.{
  ℕ, zero, suc, ◌+◌, ◌*◌, ◌%◌, ◌^◌, ◌<◌, ◌≡◌, ◌≢◌, refl, ◌∙◌, false, not, ◌&&◌, arith, leb, ◌==◌,
  stuck,
}
use hobby_kernel.KernelHeap.{
  KernelHeap, next_block, search_block, kernel_malloc, sizeof_memory_block,
}
use hobby_kernel.KernelHeap.Bump.{IsReady, room, kernel_malloc-search}

-- The search stands at an address that reads as an empty header and is none of the two at which
-- the loop turns or ends.
pub record IsTrap (h : KernelHeap) (a : ℕ) : Type 0 where
  pub word : a < 2 ^ 32
  pub empty : (h.block a).size ≡ 0
  pub not_end : a ≢ h.last_valid_address
  pub not_current : a ≢ h.current_address

next_block-trap : (h : KernelHeap) (a : ℕ) → IsTrap h a → next_block a h ≡ a
unfolding next_block
next_block-trap h a t = ground (arith, t.word, t.empty, t.not_end)

search_block-trap :
    (fuel bytes a : ℕ) (h : KernelHeap)
    → IsTrap h a
    → bytes + sizeof_memory_block < 2 ^ 32
    → search_block fuel bytes a h ≡ stuck
unfolding search_block
search_block-trap zero bytes a h t small = refl
search_block-trap (suc f) bytes a h t small =
    rw (refused, next_block-trap h a t, stays) (search_block-trap f bytes a h t small)
  where
    refused :
        (not ((h.block a).is_available == 0)
          && leb ((bytes + sizeof_memory_block) % 2 ^ 32) (h.block a).size)
        ≡ false
    refused = ground (arith, t.empty)

    stays : (a == h.current_address) ≡ false
    stays = ground (arith, t.not_current)

-- Where the pointer arithmetic of `curr += curr->size` leads from the free block: eight times its
-- size ahead.
abbrev pub landing : KernelHeap → ℕ
landing h = (h.current_address + room h * sizeof_memory_block) % 2 ^ 32

next_block-landing :
    (h : KernelHeap)
    → IsReady h
    → h.current_address < h.last_valid_address
    → IsTrap h (landing h)
    → next_block h.current_address h ≡ landing h
unfolding next_block
next_block-landing h v more t = ground (arith, v.to_end, t.not_end)

search_block-zero : (bytes a : ℕ) (h : KernelHeap) → search_block zero bytes a h ≡ stuck
unfolding search_block
search_block-zero bytes a h = refl

search_block-miss :
    (f bytes : ℕ) (h : KernelHeap)
    → next_block h.current_address h ≡ landing h
    → (not ((h.block h.current_address).is_available == 0)
        && leb ((bytes + sizeof_memory_block) % 2 ^ 32) (h.block h.current_address).size)
      ≡ false
    → IsTrap h (landing h)
    → search_block (suc f) bytes h.current_address h ≡ search_block f bytes (landing h) h
unfolding search_block
search_block-miss f bytes h next refused t = rw (refused, next, away)
  where
    away : (landing h == h.current_address) ≡ false
    away = ground (arith, t.not_current)

-- A request that does not fit never returns, not even with `NULL`, when the search lands on memory
-- that reads as zero: no fuel is enough for the loop.
pub kernel_malloc-never_returns :
    (fuel bytes : ℕ) (h : KernelHeap)
    → IsReady h
    → h.current_address < h.last_valid_address
    → room h < bytes + sizeof_memory_block
    → bytes + sizeof_memory_block < 2 ^ 32
    → IsTrap h (landing h)
    → kernel_malloc fuel bytes h ≡ stuck
kernel_malloc-never_returns fuel bytes h v more big small t =
    rw (kernel_malloc-search fuel h bytes v.initialized) (first fuel)
  where
    next : next_block h.current_address h ≡ landing h
    next = next_block-landing h v more t

    refused :
        (not ((h.block h.current_address).is_available == 0)
          && leb ((bytes + sizeof_memory_block) % 2 ^ 32) (h.block h.current_address).size)
        ≡ false
    refused = ground (arith, v.to_end)

    first : (f : ℕ) → search_block f bytes h.current_address h ≡ stuck
    first zero = search_block-zero bytes h.current_address h
    first (suc f) =
        search_block-miss f bytes h next refused t ∙ search_block-trap f bytes (landing h) h t small
