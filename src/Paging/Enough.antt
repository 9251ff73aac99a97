-- ===== src/Paging/Enough.antt =====
-- code/mem/vmm.c: six pages are enough for a further directory.
use hobby_kernel.Common.{
  ℕ, ◌+◌, ◌%◌, ◌/◌, ◌≢◌, arith, ◌==◌, ◌||◌, if◌then◌else◌, if_cases, List, ◌∷◌, ok, fault, Outcome,
  ◌>>=◌, NoPanic, NoPanic->>=, Returns-NoPanic, Returns, Safely-NoPanic,
}
use hobby_kernel.Common.Chain.{write}
use hobby_kernel.Pmm.{Pmm, alloc_page}
use hobby_kernel.Pmm.Enough.{Stock, alloc_page-Stock}
use hobby_kernel.Vmm.{Vmm, page_table_word, page_dir_idx, edit_page, map_page, unmap_page}
use hobby_kernel.Vmm.Enough.{map_page-Stock, unmap_page-Stock}
use hobby_kernel.Paging.Opened.{Host}
use hobby_kernel.Paging.Process.{Makes, create_process_directory-Makes}
use hobby_kernel.Paging.{
  Paging, pd_window, pt_window, clear_words, identity_words, open_directory, add_identity, add_own,
  create_process_directory, create_kernel_directory, create_page_directory,
}

abbrev pub HasStock : List ℕ → Vmm → Type 0
HasStock xs v = Stock xs v.pmm

pub alloc_then {ℓ} :
    {B : Type ℓ} (x : ℕ) (xs : List ℕ) (p : Pmm) (Q : B → Type 0) (f : ℕ × Pmm → Outcome B)
    → Stock (x ∷ xs) p
    → ((r : ℕ × Pmm) → Stock xs r.1 → NoPanic Q (f r))
    → NoPanic Q (alloc_page p >>= f)
alloc_then x xs p Q f s next =
    NoPanic->>= (λ r. Stock xs r.1) Q (alloc_page p) f
      (Returns-NoPanic (λ r. Stock xs r.1) (alloc_page p) (alloc_page-Stock x xs p s)) next

module _ {ℓ} {B : Type ℓ} (xs : List ℕ) (va : ℕ) (v : Vmm) (Q : B → Type 0) (f : Vmm → Outcome B)
    (next : (v' : Vmm) → HasStock xs v' → NoPanic Q (f v')) where
  edit_then : (change : (ℕ → ℕ) → ℕ → ℕ) → HasStock xs v → NoPanic Q (edit_page va change v >>= f)
  unfolding edit_page
  edit_then change s =
      let word = page_table_word v (va / 0x1000) in
      let page = word / 0x1000 in
      let edited = record v {
        words = λ q. if q == page then change (v.words q) else v.words q;
        page_directory =
            if page == v.directory_page then change v.page_directory else v.page_directory;
      } in
      if_cases (λ o. NoPanic Q (o >>= f))
        (v.page_directory (page_dir_idx (va / 0x1000)) % 2 == 0 || (word % 2 == 0)) fault
        (ok edited) (λ e. tt) λ e. next edited s

  pub map_then : (x pa flags : ℕ) → HasStock (x ∷ xs) v → NoPanic Q (map_page va pa flags v >>= f)
  map_then x pa flags s =
      NoPanic->>= (HasStock xs) Q (map_page va pa flags v) f (map_page-Stock x xs va pa flags v s)
        next

  unmap_then : HasStock xs v → NoPanic Q (unmap_page va v >>= f)
  unmap_then s = NoPanic->>= (HasStock xs) Q (unmap_page va v) f (unmap_page-Stock xs va v s) next

open_directory-Stock :
    (x y : ℕ) (xs : List ℕ) (v : Vmm)
    → HasStock (x ∷ y ∷ xs) v
    → NoPanic (λ r. HasStock xs r.1) (open_directory v)
unfolding open_directory
open_directory-Stock x y xs v s = alloc_then x (y ∷ xs) v.pmm _ _ s λ r t.
    map_then xs pd_window (record v { pmm = r.1 }) _ _
      (λ v1 t1. edit_then xs pd_window v1 _ _ (λ v2 t2. t2) clear_words t1) y r.0 3 t

add_identity-Stock :
    (x y : ℕ) (xs : List ℕ) (v : Vmm)
    → HasStock (x ∷ y ∷ xs) v
    → NoPanic (HasStock xs) (add_identity v)
unfolding add_identity
add_identity-Stock x y xs v s = alloc_then x (y ∷ xs) v.pmm _ _ s λ r t.
    edit_then (y ∷ xs) pd_window (record v { pmm = r.1 }) _ _
      (λ v1 t1.
        map_then xs pt_window v1 _ _
          (λ v2 t2.
            edit_then xs pt_window v2 _ _ (λ v3 t3. unmap_page-Stock xs pt_window v3 t3)
              (identity_words 1024) t2)
          y r.0 3 t1)
      (λ w. write w 0 (r.0 + 3)) t

add_own-Stock :
    (x y : ℕ) (xs : List ℕ) (pd : ℕ) (v : Vmm)
    → HasStock (x ∷ y ∷ xs) v
    → NoPanic (HasStock xs) (add_own pd v)
unfolding add_own
add_own-Stock x y xs pd v s =
    let own = λ (w : ℕ → ℕ). write w 1023 (pd + 3) in
    alloc_then x (y ∷ xs) v.pmm _ _ s λ r t.
      edit_then (y ∷ xs) pd_window (record v { pmm = r.1 }) _ _
        (λ v1 t1.
          map_then xs pt_window v1 _ _
            (λ v2 t2.
              edit_then xs pt_window v2 _ _
                (λ v3 t3.
                  edit_then xs pt_window v3 _ _
                    (λ v4 t4.
                      edit_then xs pd_window v4 _ _ (λ v5 t5. unmap_page-Stock xs pt_window v5 t5)
                        own t4)
                    own t3)
                clear_words t2)
            y r.0 3 t1)
        (λ w. write w 1022 (r.0 + 3)) t

create_process_directory-Stock :
    (a b c d e f : ℕ) (xs : List ℕ) (v : Vmm)
    → HasStock (a ∷ b ∷ c ∷ d ∷ e ∷ f ∷ xs) v
    → NoPanic (λ r. HasStock xs r.1) (create_process_directory v)
unfolding create_process_directory
create_process_directory-Stock a b c d e f xs v s =
    NoPanic->>= (λ r. HasStock (c ∷ d ∷ e ∷ f ∷ xs) r.1) _ (open_directory v) _
      (open_directory-Stock a b (c ∷ d ∷ e ∷ f ∷ xs) v s)
      λ r s1.
        NoPanic->>= (HasStock (e ∷ f ∷ xs)) _ (add_identity r.1) _
          (add_identity-Stock c d (e ∷ f ∷ xs) r.1 s1)
          λ v2 s2.
            NoPanic->>= (HasStock xs) _ (add_own r.0 v2) _ (add_own-Stock e f xs r.0 v2 s2)
              λ v3 s3. unmap_then xs pd_window v3 _ _ (λ v4 s4. s4) s3

-- With a kernel directory, `create_page_directory` does not panic while six pages are left.
pub create_page_directory-Stock :
    (a b c d e f : ℕ) (xs : List ℕ) (s : Paging)
    → s.kernel_page_directory ≢ 0
    → HasStock (a ∷ b ∷ c ∷ d ∷ e ∷ f ∷ xs) s.vmm
    → NoPanic (λ r. HasStock xs r.1.vmm) (create_page_directory s)
unfolding create_page_directory
create_page_directory-Stock a b c d e f xs s some_kernel t =
    let P = λ (r : ℕ × Vmm). HasStock xs r.1 in
    NoPanic->>= P (λ r. HasStock xs r.1.vmm)
      (if s.kernel_page_directory == 0
        then create_kernel_directory s.vmm
        else create_process_directory s.vmm)
      (λ r. ok (r.0, record s { vmm = r.1 }))
      (if_cases (NoPanic P) (s.kernel_page_directory == 0) (create_kernel_directory s.vmm)
        (create_process_directory s.vmm) (λ z. absurd (ground (arith, some_kernel, z)))
        λ z. create_process_directory-Stock a b c d e f xs s.vmm t)
      λ r u. u

-- With a host for the windows and six pages left, the making of a further directory returns, and the
-- directory maps what the first one does.
pub create_process_directory-Returns :
    (base a b c d e f : ℕ) (xs : List ℕ) (v : Vmm)
    → Host base v
    → HasStock (a ∷ b ∷ c ∷ d ∷ e ∷ f ∷ xs) v
    → Returns (λ r. Makes base v r × HasStock xs r.1) (create_process_directory v)
create_process_directory-Returns base a b c d e f xs v h s =
    Safely-NoPanic (Makes base v) (λ r. HasStock xs r.1) (create_process_directory v)
      (create_process_directory-Makes base v h) (create_process_directory-Stock a b c d e f xs v s)
