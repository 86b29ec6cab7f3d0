-- ===== src/Kalloc/Ranges.antt =====
-- `freerange` of system/memory/kalloc.c frees every whole page of its range.
use dave.Common.{
  ℕ, zero, suc, ◌+◌, ◌*◌, ◌%◌, ◌<◌, ◌≤◌, ◌≡◌, ◌⊎◌, subst, arith, List, [], ◌∷◌, some, ok,
}
use dave.Memlayout.{pgsize, kernbase, phystop, page_round_up}
use dave.Kalloc.{Kmem, freerange_from, freerange}
use dave.Kalloc.FreeList.{Apart, IsPage, Holds, kfree_lem}

-- The `n` pages from `p` on, put before the others one after the other.
abbrev pub push_pages : ℕ → ℕ → List ℕ → List ℕ
push_pages zero p pages = pages
push_pages (suc n) p pages = push_pages n (p + pgsize) (p ∷ pages)

-- No page starts in the range.
abbrev pub Outside : ℕ → ℕ → List ℕ → Type 0
Outside lo hi [] = Unit {0}
Outside lo hi (q ∷ qs) = ((q < lo) ⊎ (hi ≤ q)) × Outside lo hi qs

Outside-Apart : (lo hi : ℕ) (pages : List ℕ) → lo < hi → Outside lo hi pages → Apart lo pages
Outside-Apart lo hi [] lt out = tt
Outside-Apart lo hi (q ∷ qs) lt out = (omega (arith, out.0), Outside-Apart lo hi qs lt out.1)

Outside-mono :
    (lo lo' hi : ℕ) (pages : List ℕ) → lo ≤ lo' → Outside lo hi pages → Outside lo' hi pages
Outside-mono lo lo' hi [] le out = tt
Outside-mono lo lo' hi (q ∷ qs) le out = (omega (arith, out.0), Outside-mono lo lo' hi qs le out.1)

module _ (kernel_end : ℕ) where
  freerange_from_lem :
      (n fuel p vend : ℕ) (k : Kmem) (pages : List ℕ)
      → n < fuel
      → p % pgsize ≡ 0
      → kernel_end ≤ p
      → kernbase ≤ p
      → p + n * pgsize ≤ vend
      → vend < p + n * pgsize + pgsize
      → vend ≤ kernbase + phystop
      → Outside p (p + n * pgsize) pages
      → Holds kernel_end k pages
      → (k' : Kmem) × (freerange_from kernel_end fuel p vend k ≡ some (ok k'))
        × Holds kernel_end k' (push_pages n p pages)
  unfolding freerange_from
  freerange_from_lem n zero p vend k pages lt al be ab le gt ph out h = absurd (omega arith)
  freerange_from_lem zero (suc fuel) p vend k pages lt al be ab le gt ph out h =
      (k, ground arith, h)
  freerange_from_lem (suc n) (suc fuel) p vend k pages lt al be ab le gt ph out h =
      let page : IsPage kernel_end p = record {
        aligned = al;
        behind = be;
        above = ab;
        physical = omega arith;
      } in
      let (k1, e1, h1) =
        kfree_lem kernel_end p k pages page
          (Outside-Apart p (p + suc n * pgsize) pages (omega arith) out) h in
      let (k2, e2, h2) =
        freerange_from_lem n fuel (p + pgsize) vend k1 (p ∷ pages) (omega arith) (omega arith)
          (omega arith) (omega arith) (omega arith) (omega arith) ph
          (
            omega arith,
            subst (λ hi. Outside (p + pgsize) hi pages) (omega arith)
                (Outside-mono p (p + pgsize) (p + suc n * pgsize) pages (omega arith) out),
          )
          h1 in
      (k2, ground (arith, e1, e2), h2)

  -- With enough fuel `freerange` ends without a panic, and the free pages are then those from
  -- before and the `n` whole pages of the range.
  pub freerange_lem :
      (n fuel vstart vend : ℕ) (k : Kmem) (pages : List ℕ)
      → let p = page_round_up vstart in
        n < fuel
        → kernel_end ≤ p
        → kernbase ≤ p
        → p + n * pgsize ≤ vend
        → vend < p + n * pgsize + pgsize
        → vend ≤ kernbase + phystop
        → Outside p (p + n * pgsize) pages
        → Holds kernel_end k pages
        → (k' : Kmem) × (freerange kernel_end fuel vstart vend k ≡ some (ok k'))
          × Holds kernel_end k' (push_pages n p pages)
  unfolding freerange
  freerange_lem n fuel vstart vend k pages lt be ab le gt ph out h =
      freerange_from_lem n fuel (page_round_up vstart) vend k pages lt (omega arith) be ab le gt ph
        out h
