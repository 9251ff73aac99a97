-- ===== src/Paging/Filled.antt =====
-- code/mem/vmm.c: the words that a further process's directory is made of.
use hobby_kernel.Common.{
  ℕ, zero, suc, ◌+◌, ◌*◌, ◌<◌, ◌≡◌, ◌≢◌, ◌∙◌, refl, sym, ap, arith, ◌==◌, ltb, if◌then◌else◌,
  if_true,
}
use hobby_kernel.Common.Chain.{write}
use hobby_kernel.Vmm.{write_word}
use hobby_kernel.Paging.{identity_words}
use hobby_kernel.Paging.Directory.{Made}
use hobby_kernel.Paging.Window.{put}
use hobby_kernel.Paging.Additions.{identity_made, own_made}

identity_words_lem :
    (n : ℕ) (w : ℕ → ℕ) (j : ℕ) → identity_words n w j ≡ (if ltb j n then j * 0x1000 + 3 else w j)
unfolding identity_words
identity_words_lem zero w j = ground arith
identity_words_lem (suc n) w j = ground (arith, identity_words_lem n w j)

own_made-other :
    (table pd last : ℕ) (words : ℕ → ℕ → ℕ) (q j : ℕ)
    → q ≢ table
    → q ≢ pd
    → q ≢ last
    → own_made table pd last words q j ≡ words q j
own_made-other table pd last words q j a b c = ground (arith, a, b, c)

put_same :
    (page : ℕ) (change : (ℕ → ℕ) → ℕ → ℕ) (words : ℕ → ℕ → ℕ) (j : ℕ)
    → put page change words page j ≡ change (words page) j
put_same page change words j =
    ap (λ (w : ℕ → ℕ). w j)
      (if_true (page == page) (change (words page)) (words page) (ground arith))

write_other :
    (page i w : ℕ) (words : ℕ → ℕ → ℕ) (q j : ℕ)
    → q ≢ page
    → write_word words page i w q j ≡ words q j
write_other page i w words q j ne = ground (arith, ne)

abbrev pub final : (table pd first last : ℕ) → (ℕ → ℕ → ℕ) → ℕ → ℕ → ℕ
final table pd first last words =
    write_word (own_made table pd last (identity_made table pd first words)) table 787 0

-- The words of the new pages at the end.
module _ (table pd first last : ℕ) (words : ℕ → ℕ → ℕ) (a1 : table ≢ pd) (a2 : table ≢ first)
    (a3 : table ≢ last) (b1 : pd ≢ first) (b2 : pd ≢ last) (b3 : first ≢ last) where
  pub final-others :
      (q j : ℕ)
      → q ≢ pd
      → q ≢ first
      → q ≢ last
      → q ≢ table
      → final table pd first last words q j ≡ words q j
  final-others q j c d e f = ground (arith, c, d, e, f)

  pub final-Made :
      ((j : ℕ) → j < 1024 → words pd j ≡ 0)
      → Made pd first last (final table pd first last words) (final table pd first last words)
  final-Made cleared = record {
    directory = λ i l. ground (arith, cleared i, l, a1, b1, b2);
    identity = λ i l.
        let w1 = put pd (λ w. write w 0 (first * 0x1000 + 3)) words in
        let w2 = write_word w1 table 788 (first * 0x1000 + 3) in
        let w3 = put first (identity_words 1024) w2 in
        write_other table 787 0 (own_made table pd last (identity_made table pd first words)) first
          i (λ e. a2 (sym e))
        ∙ own_made-other table pd last (identity_made table pd first words) first i
            (λ e. a2 (sym e)) (λ e. b1 (sym e)) b3
        ∙ write_other table 788 0 w3 first i (λ e. a2 (sym e))
        ∙ put_same first (identity_words 1024) w2 i
        ∙ identity_words_lem 1024 (w2 first) i
        ∙ ground (arith, l);
    back = ground (arith, a3, b2);
    others = λ q i c d e. refl;
  }

  pub final-closed :
      (final table pd first last words table 787 ≡ 0)
      × (final table pd first last words table 788 ≡ 0)
  final-closed = (ground arith, ground arith)
