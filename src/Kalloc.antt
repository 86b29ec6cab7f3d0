-- ===== src/Kalloc.antt =====
-- system/memory/kalloc.c, the allocator of physical pages. The free list runs through the pages
-- themselves, so the state has the memory: the word at each address. Where a lock is held for a
-- whole body the body is one step; `kernel_end` is the linker's symbol `end`.
pub mod FreeList
pub mod Ranges
pub mod Owners
pub mod Examples
use dave.Common.{
  ℕ, zero, suc, ◌+◌, ◌%◌, Bool, true, false, ◌&&◌, ◌||◌, not, Option, none, some, Result, ok, panic,
  if◌then◌else◌, ◌==◌, ltb, leb, update,
}
use dave.Memlayout.{pgsize, phystop, v2p, page_round_up}

pub record Kmem : Type 0 where
  pub use_lock : Bool
  pub freelist : ℕ
  pub words : ℕ → ℕ

-- `memset(v, 1, PGSIZE)`, by words.
abbrev pub junk : ℕ → (ℕ → ℕ) → ℕ → ℕ
junk v words a = if leb v a && ltb a (v + pgsize) then 0x01010101 else words a

module _ (kernel_end : ℕ) where
  unfoldable pub kfree : ℕ → Kmem → Result Kmem
  kfree v k =
      if not (v % pgsize == 0) || ltb v kernel_end || leb phystop (v2p v)
      then panic
      else ok (record k { freelist = v; words = update (junk v k.words) v k.freelist })

  -- The loop of `freerange`; `none` when the fuel runs out.
  unfoldable pub freerange_from : ℕ → ℕ → ℕ → Kmem → Option (Result Kmem)
  freerange_from zero p vend k = none
  freerange_from (suc fuel) p vend k = elim (leb (p + pgsize) vend) [
    | true ↦ elim (kfree p k) [
      | ok k' ↦ freerange_from fuel (p + pgsize) vend k'
      | panic ↦ some panic
    ]
    | false ↦ some (ok k)
  ]

  unfoldable pub freerange : ℕ → ℕ → ℕ → Kmem → Option (Result Kmem)
  freerange fuel vstart vend k = freerange_from fuel (page_round_up vstart) vend k

  unfoldable pub kinit1 : ℕ → ℕ → ℕ → Kmem → Option (Result Kmem)
  kinit1 fuel vstart vend k = freerange fuel vstart vend (record k { use_lock = false })

  abbrev locked : Option (Result Kmem) → Option (Result Kmem)
  locked none = none
  locked (some panic) = some panic
  locked (some (ok k)) = some (ok (record k { use_lock = true }))

  unfoldable pub kinit2 : ℕ → ℕ → ℕ → Kmem → Option (Result Kmem)
  kinit2 fuel vstart vend k = locked (freerange fuel vstart vend k)

-- The page that is handed out, or 0.
unfoldable pub kalloc : Kmem → ℕ × Kmem
kalloc k =
    if k.freelist == 0 then (0, k) else (k.freelist, record k { freelist = k.words k.freelist })
