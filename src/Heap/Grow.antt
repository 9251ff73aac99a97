-- ===== src/Heap/Grow.antt =====
-- code/mem/heap.c: `kmalloc` when its list has no free block.
use hobby_kernel.Common.{
  ℕ, ◌+◌, ◌*◌, ◌/◌, ◌%◌, ◌^◌, ◌<◌, ◌≡◌, ◌≢◌, refl, sym, subst, true, List, [], ◌∷◌, ◌++◌, arith,
  length, Safely, Outcome, ok, halt, fault, stuck, ◌>>=◌,
}
use hobby_kernel.Common.Chain.{null, Chain, write}
use hobby_kernel.Pmm.{Pmm, alloc_page}
use hobby_kernel.Pmm.Invariant.{Inv, alloc_page-Inv}
use hobby_kernel.Vmm.{Vmm, map_page, present_write, get_mapping, mapped_to, is_present}
use hobby_kernel.Vmm.Lookup.{HasTable, Directory, map_page-with_word, get_mapping-set_word}
use hobby_kernel.Heap.{Heap, size_array, sizeof_header, add_page}

-- A page from the allocator is mapped at `va`, and only the page stack and the tables have changed.
pub record Maps (va : ℕ) (h h' : Heap) : Type 0 where
  pub page : ℕ
  pub taken : alloc_page h.vmm.pmm ≡ ok (page, h'.vmm.pmm)
  pub mapped : get_mapping va h'.vmm ≡ mapped_to (page / 0x1000 * 0x1000)
  pub inv : Inv h'.vmm.pmm
  pub same_address : h'.current_mem_addr ≡ h.current_mem_addr
  pub same_lists : h'.list_array ≡ h.list_array
  pub same_next : h'.next ≡ h.next
  pub same_allocated : h'.allocated ≡ h.allocated
  pub same_length : h'.length ≡ h.length

-- A run whose value is known, or that halts.
Safely-elim {ℓ κ} :
    {A : Type ℓ} {B : Type κ} (P : A → Type 0) (Q : B → Type 0) (r : Outcome A) (f : A → Outcome B)
    → Safely P r
    → ((a : A) → r ≡ ok a → P a → Safely Q (f a))
    → Safely Q (r >>= f)
Safely-elim P Q (ok a) f h next = next a refl h
Safely-elim P Q halt f h next = tt
Safely-elim P Q fault f h next = absurd h
Safely-elim P Q stuck f h next = absurd h

-- `va` has a page table, and is below the last 4 MB.
pub record Mappable (va : ℕ) (v : Vmm) : Type 0 where
  pub table : HasTable v va
  pub directory : Directory v
  pub low : va < 0xFFC00000

pub add_page-Maps :
    (va : ℕ) (h : Heap) → Inv h.vmm.pmm → Mappable va h.vmm → Safely (Maps va h) (add_page va h)
unfolding add_page
add_page-Maps va h v m =
    let finish : Vmm → Outcome Heap = λ w. ok (record h { vmm = w }) in
    let rest : ℕ × Pmm → Outcome Heap =
      λ r. map_page va r.0 present_write (record h.vmm { pmm = r.1 }) >>= finish in
    Safely-elim (λ r. Inv r.1) (Maps va h) (alloc_page h.vmm.pmm) rest (alloc_page-Inv h.vmm.pmm v)
      λ r e i.
        let vmm = record h.vmm { pmm = r.1 } in
        subst (λ o. Safely (Maps va h) (o >>= finish))
          (sym (
            map_page-with_word va r.0 present_write vmm m.table
              (record {
                separate = m.directory.separate;
                some_last = m.directory.some_last;
                last = m.directory.last;
              })
              m.low))
          (record {
            page = r.0;
            taken = e;
            mapped =
                get_mapping-set_word va r.0 present_write vmm m.table (omega arith) (omega arith);
            inv = i;
            same_address = refl;
            same_lists = refl;
            same_next = refl;
            same_allocated = refl;
            same_length = refl;
          })

-- The address of the page behind the one that an address lies in.
abbrev pub next_page : ℕ → ℕ
next_page a = a / 0x1000 * 0x1000 + 0x1000

-- What `kmalloc` has done when it has made a new block for list `i`: the block follows all others in
-- memory, is the last of its list, and is in use with the size of that list; the other blocks have
-- not changed. A page that was taken from the allocator is mapped behind the page of the block.
pub record Grows (i : ℕ) (h : Heap) (xs : List ℕ) (r : ℕ × Heap) : Type 0 where
  pub address : r.0 ≡ h.current_mem_addr + sizeof_header
  pub grown : r.1.current_mem_addr ≡ h.current_mem_addr + size_array i + sizeof_header
  pub listed : Chain r.1.next (r.1.list_array i) (xs ++ h.current_mem_addr ∷ [])
  pub in_use : r.1.allocated h.current_mem_addr ≡ true
  pub sized : r.1.length h.current_mem_addr ≡ size_array i
  pub same_allocated : (a : ℕ) → a ≢ h.current_mem_addr → r.1.allocated a ≡ h.allocated a
  pub same_length : (a : ℕ) → a ≢ h.current_mem_addr → r.1.length a ≡ h.length a
  pub inv : Inv r.1.vmm.pmm
  pub page : ℕ
  pub taken : alloc_page h.vmm.pmm ≡ ok (page, r.1.vmm.pmm)
  pub mapped :
      get_mapping (next_page h.current_mem_addr) r.1.vmm ≡ mapped_to (page / 0x1000 * 0x1000)

-- The heap in which `kmalloc` maps pages for the new block.
abbrev with_block : ℕ → Heap → Heap
with_block i h = record h {
  next = write h.next h.current_mem_addr null;
  allocated = write h.allocated h.current_mem_addr true;
  length = write h.length h.current_mem_addr (size_array i);
}

-- The header is in present pages, and the next page can be mapped.
pub record HasRoom (h : Heap) : Type 0 where
  pub first : is_present h.current_mem_addr h.vmm ≡ true
  pub last : is_present ((h.current_mem_addr + 7) % 2 ^ 32) h.vmm ≡ true
  pub mappable : Mappable (next_page h.current_mem_addr) h.vmm
