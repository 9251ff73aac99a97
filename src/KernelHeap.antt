-- ===== src/KernelHeap.antt =====
-- code/MemoryManagement.cpp: the allocator of the kernel's own data.
pub mod Bump
pub mod History
pub mod Exhaustion
use hobby_kernel.Common.{
  ℕ, zero, suc, ◌+◌, ◌-◌, ◌*◌, ◌%◌, ◌^◌, Bool, true, false, not, ◌&&◌, leb, ◌==◌, if◌then◌else◌,
  Outcome, ok, stuck, ◌>>=◌,
}

-- `struct memory_block`
pub record MemoryBlock : Type 0 where
  pub is_available : ℕ
  pub size : ℕ

abbrev pub memory_block : ℕ → ℕ → MemoryBlock
memory_block a s = record { is_available = a; size = s }

-- The file's globals, and the headers by their addresses.
pub record KernelHeap : Type 0 where
  pub is_initialized : Bool
  pub start_address : ℕ
  pub last_valid_address : ℕ
  pub current_address : ℕ
  pub block : ℕ → MemoryBlock

abbrev pub sizeof_memory_block : ℕ
sizeof_memory_block = 8

abbrev pub write_block : (ℕ → MemoryBlock) → ℕ → MemoryBlock → ℕ → MemoryBlock
write_block m a b p = if p == a then b else m p

pub init_kernel_malloc : KernelHeap → KernelHeap
init_kernel_malloc h = record h {
  start_address = 0x00200000;
  last_valid_address = 0x00300000;
  current_address = 0x00200000;
  is_initialized = true;
  block = write_block h.block 0x00200000 (memory_block 1 (0x00300000 - 0x00200000));
}

-- The branch of the loop that takes block `curr`. What is returned lies behind `current_address`,
-- also when `curr` is another block.
take_block : ℕ → ℕ → KernelHeap → ℕ × KernelHeap
take_block bytes curr h =
    let curr_size = (h.block curr).size in
    let taken = (bytes + sizeof_memory_block) % 2 ^ 32 in
    let blocks = write_block h.block curr (memory_block 0 taken) in
    let ret = (h.current_address + sizeof_memory_block) % 2 ^ 32 in
    let current = (ret + bytes) % 2 ^ 32 in
    let blocks' =
      if curr_size == taken
      then blocks
      else write_block blocks current (memory_block 1 ((curr_size + 2 ^ 32 - taken) % 2 ^ 32)) in
    (ret, record h { current_address = current; block = blocks' })

-- `curr += curr->size`, which counts in headers, and the step back to the start.
next_block : ℕ → KernelHeap → ℕ
next_block curr h =
    let next = (curr + (h.block curr).size * sizeof_memory_block) % 2 ^ 32 in
    if next == h.last_valid_address then h.start_address else next

-- The `do` loop on fuel. Address 0 stands for `NULL`.
pub search_block : ℕ → (bytes curr : ℕ) → KernelHeap → Outcome (ℕ × KernelHeap)
unfolding take_block next_block
search_block zero bytes curr h = stuck
search_block (suc fuel) bytes curr h =
    let next = next_block curr h in
    let rest = search_block fuel bytes next h in
    if not ((h.block curr).is_available == 0)
      && leb ((bytes + sizeof_memory_block) % 2 ^ 32) (h.block curr).size
    then ok (take_block bytes curr h)
    else if next == h.current_address
    then ok (0, h)
    else rest

pub kernel_malloc : (fuel bytes : ℕ) → KernelHeap → Outcome (ℕ × KernelHeap)
unfolding search_block init_kernel_malloc
kernel_malloc fuel bytes h =
    let h' = if h.is_initialized then h else init_kernel_malloc h in
    search_block fuel bytes h'.current_address h'

pub kernel_free : ℕ → KernelHeap → KernelHeap
kernel_free ptr h =
    let a = (ptr + 2 ^ 32 - sizeof_memory_block) % 2 ^ 32 in
    record h { block = write_block h.block a (record (h.block a) { is_available = 1 }) }
