-- ===== src/Kalloc/FreeList.antt =====
-- The list of free pages that the words of kalloc.c stand for, and what `kfree`, `kalloc` and
-- `freerange` do to it.
use dave.Common.{
  ℕ, ◌+◌, ◌%◌, ◌<◌, ◌≤◌, ◌≡◌, ◌≢◌, refl, sym, subst, arith, List, [], ◌∷◌, ok, update,
}
use dave.Memlayout.{pgsize, kernbase, phystop}
use dave.Kalloc.{Kmem, junk, kfree, kalloc}

-- `p` is none of the pages.
abbrev pub Apart : ℕ → List ℕ → Type 0
Apart p [] = Unit {0}
Apart p (q ∷ qs) = (p ≢ q) × Apart p qs

module _ (kernel_end : ℕ) where
  -- What `kfree` takes: a page between the kernel's end and the end of physical memory.
  pub record IsPage (p : ℕ) : Type 0 where
    pub aligned : p % pgsize ≡ 0
    pub behind : kernel_end ≤ p
    pub above : kernbase ≤ p
    pub physical : p < kernbase + phystop

  -- From `p` on, the list runs through the pages.
  abbrev pub Chain : (ℕ → ℕ) → ℕ → List ℕ → Type 0
  Chain words p [] = p ≡ 0
  Chain words p (q ∷ qs) = (p ≡ q) × IsPage q × Apart q qs × Chain words (words q) qs

  abbrev pub Holds : Kmem → List ℕ → Type 0
  Holds k pages = Chain k.words k.freelist pages

  Chain-junk :
      (words : ℕ → ℕ) (v w p : ℕ) (pages : List ℕ)
      → IsPage v
      → Apart v pages
      → Chain words p pages
      → Chain (update (junk v words) v w) p pages
  Chain-junk words v w p [] page out c = c
  Chain-junk words v w p (q ∷ qs) page out c = (
    c.0,
    c.1,
    c.2,
    subst (λ r. Chain (update (junk v words) v w) r qs) same
        (Chain-junk words v w (words q) qs page out.1 c.3),
  )
    where
      same : words q ≡ update (junk v words) v w q
      same = let pq = c.1 in ground arith

  -- `kfree` of a page that is not free puts it at the head of the list.
  pub kfree_lem :
      (v : ℕ) (k : Kmem) (pages : List ℕ)
      → IsPage v
      → Apart v pages
      → Holds k pages
      → (k' : Kmem) × (kfree kernel_end v k ≡ ok k') × Holds k' (v ∷ pages)
  unfolding kfree
  kfree_lem v k pages page out h = (
    record k { freelist = v; words = update (junk v k.words) v k.freelist },
    ground arith,
    (
      refl,
      page,
      out,
      subst (λ r. Chain (update (junk v k.words) v k.freelist) r pages) (ground arith)
          (Chain-junk k.words v k.freelist k.freelist pages page out h),
    ),
  )

  -- `kalloc` hands out the head of the list, or 0 when no page is free.
  pub kalloc_none : (k : Kmem) → Holds k [] → kalloc k ≡ (0, k)
  unfolding kalloc
  kalloc_none k h = ground arith

  pub kalloc_some :
      (k : Kmem) (q : ℕ) (qs : List ℕ)
      → Holds k (q ∷ qs)
      → (k' : Kmem) × (kalloc k ≡ (q, k')) × Holds k' qs
  unfolding kalloc
  kalloc_some k q qs h = (
    record k { freelist = k.words k.freelist },
    (let pq = h.1 in ground arith),
    subst (λ r. Chain k.words (k.words r) qs) (sym h.0) h.3,
  )
