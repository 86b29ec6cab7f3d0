-- ===== src/Kalloc/Examples.antt =====
-- Concrete runs of the page allocator: two free pages behind a kernel that ends at 0x80100000.
use dave.Common.{ℕ, ◌≡◌, refl, arith, true, false, [], ◌∷◌, update}
use dave.Kalloc.{Kmem, kalloc}
use dave.Kalloc.FreeList.{Apart, IsPage, Holds, kalloc_some}
use dave.Kalloc.Owners.{System, Reach, here, next, allocs, IsSound, kalloc_fresh}

abbrev pub bottom : ℕ
bottom = 0x80100000

abbrev empty_kmem : Kmem
empty_kmem = record { use_lock = false; freelist = 0; words = λ a. 0 }

abbrev pub two_pages : Kmem
two_pages = record {
  use_lock = true;
  freelist = 0x80101000;
  words = update (λ a. 0) 0x80101000 0x80102000;
}

abbrev two_free : System
two_free = record { kmem = two_pages; owned = [] }

abbrev one_held : System
one_held = record { kmem = record two_pages { freelist = 0x80102000 }; owned = 0x80101000 ∷ [] }

page1 : IsPage bottom 0x80101000
page1 = omega arith

page2 : IsPage bottom 0x80102000
page2 = omega arith

two_pages-Holds : Holds bottom two_pages (0x80101000 ∷ 0x80102000 ∷ [])
two_pages-Holds = (refl, page1, (omega arith, tt), (refl, page2, tt, refl))

two_free-IsSound : IsSound bottom two_free (0x80101000 ∷ 0x80102000 ∷ [])
two_free-IsSound = record { free = two_pages-Holds; owned = tt }

allocated : Reach bottom two_free one_held
unfolding kalloc
allocated = next here (allocs two_free refl (omega arith))

kalloc_example :
    (k' : Kmem) × (kalloc two_pages ≡ (0x80101000, k')) × Holds bottom k' (0x80102000 ∷ [])
kalloc_example = kalloc_some bottom two_pages 0x80101000 (0x80102000 ∷ []) two_pages-Holds

kalloc_fresh_example : IsPage bottom 0x80102000 × Apart 0x80102000 (0x80101000 ∷ [])
unfolding kalloc
kalloc_fresh_example =
    kalloc_fresh bottom (0x80101000 ∷ 0x80102000 ∷ []) two_free one_held 0x80102000 _
      two_free-IsSound allocated refl (omega arith)
