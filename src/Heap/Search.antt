-- ===== src/Heap/Search.antt =====
-- code/mem/heap.c: `find_nonstandart_node`, the search for a block of 512 bytes or more.
use hobby_kernel.Common.{
  ℕ, zero, suc, ◌+◌, ◌%◌, ◌^◌, ◌≤◌, ◌<◌, ◌≡◌, ◌⊎◌, inl, inr, sym, subst, ap, ◌∙◌, false, not, ◌&&◌,
  List, [], ◌∷◌, ◌==◌, leb, leb→le, ==_iff, length, if◌then◌else◌, if_cases, ok, Returns, arith,
}
use hobby_kernel.Common.Chain.{null, write, Chain, Distinct, has, Chain-write}
use hobby_kernel.Heap.{Heap, find_nonstandart_node, merge_free}

-- The node that the search has found, if any, is long enough.
abbrev pub LongEnough : ℕ → ℕ × ℕ × Heap → Type 0
LongEnough n r = (r.1 ≡ null) ⊎ (n ≤ r.2.length r.1)

-- The rest of the list behind the last node in front of it, which is not part of it.
record Rest (ns : List ℕ) (r : ℕ × Heap) : Type 0 where
  chain : Chain r.1.next (r.1.next r.0) ns
  apart : has r.0 ns ≡ false

write_self : (f : ℕ → ℕ) (a v : ℕ) → write f a v a ≡ v
write_self f a v = ground arith

merge_free-Rest :
    (last node : ℕ) (h : Heap) (ns : List ℕ)
    → Chain h.next (h.next node) ns
    → has node ns ≡ false
    → has last ns ≡ false
    → Rest ns (merge_free last node h)
unfolding merge_free
merge_free-Rest last node h ns c d n =
    let next = write h.next last (h.next node) in
    if_cases (Rest ns) (not (last == null) && not (h.allocated last))
      (
        last,
        record h {
          length = write h.length last ((h.length last + h.length node) % 2 ^ 31);
          next = next;
        },
      )
      (node, h)
      (λ e. record {
        chain =
            subst (λ a. Chain next a ns) (sym (write_self h.next last (h.next node)))
              (Chain-write h.next (h.next node) ns last (h.next node) n c);
        apart = n;
      })
      λ e. record { chain = c; apart = d }

-- The node that the loop goes on from.
visited : (last node : ℕ) → Heap → ℕ × Heap
unfolding merge_free
visited last node h = if h.allocated node then (node, h) else merge_free last node h

visited-Rest :
    (last node y : ℕ) (h : Heap) (ns : List ℕ)
    → Chain h.next node (y ∷ ns)
    → Distinct (y ∷ ns)
    → has last (y ∷ ns) ≡ false
    → Rest ns (visited last node h)
unfolding visited
visited-Rest last node y h ns c d x =
    let here : Chain h.next (h.next node) ns =
      subst (λ a. Chain h.next (h.next a) ns) (sym c.0) c.2 in
    let apart : has node ns ≡ false = ap (λ a. has a ns) c.0 ∙ d.0 in
    if_cases (Rest ns) (h.allocated node) (node, h) (merge_free last node h)
      (λ e. record { chain = here; apart = apart })
      λ e. merge_free-Rest last node h ns here apart (ground (arith, x))

search_step :
    (fuel node n last : ℕ) (h : Heap)
    → ((node == null) ≡ false
        → let r = visited last node h in
          Returns (LongEnough n) (find_nonstandart_node fuel (r.1.next r.0) n r.0 r.1))
    → Returns (LongEnough n) (find_nonstandart_node (suc fuel) node n last h)
unfolding find_nonstandart_node visited
search_step fuel node n last h next =
    let r = visited last node h in
    let rest = find_nonstandart_node fuel (r.1.next r.0) n r.0 r.1 in
    let fits = not (h.allocated node) && leb n (r.1.length r.0) in
    let found = if fits then ok (last, r.0, r.1) else rest in
    if_cases (Returns (LongEnough n)) (node == null) (ok (last, node, h)) found
      (λ e. inl ((==_iff node null).0 e))
      λ e.
        if_cases (Returns (LongEnough n)) fits (ok (last, r.0, r.1)) rest
          (λ f. inr (leb→le n (r.1.length r.0) (ground (arith, f)))) λ f. next e

-- On a list of different nodes the search returns, with more fuel than there are nodes, and the node
-- that it finds, if it finds one, is long enough, whichever blocks it has merged on its way.
pub find_nonstandart_node-LongEnough :
    (fuel node n last : ℕ) (h : Heap) (ns : List ℕ)
    → Chain h.next node ns
    → Distinct ns
    → has last ns ≡ false
    → length ns < fuel
    → Returns (LongEnough n) (find_nonstandart_node fuel node n last h)
find_nonstandart_node-LongEnough zero node n last h ns c d x l = absurd (omega arith)
find_nonstandart_node-LongEnough (suc fuel) node n last h [] c d x l =
    search_step fuel node n last h λ e. absurd (ground (arith, c, e))
find_nonstandart_node-LongEnough (suc fuel) node n last h (y ∷ ns) c d x l =
    let r = visited last node h in
    let q = visited-Rest last node y h ns c d x in
    search_step fuel node n last h λ e.
      find_nonstandart_node-LongEnough fuel (r.1.next r.0) n r.0 r.1 ns q.chain d.1 q.apart
        (omega (arith, l))
