-- ===== src/Kalloc/Owners.antt =====
-- Any history of `kalloc` and `kfree` calls by clients that free only what they were given.
use dave.Common.{
  ℕ, zero, suc, ◌<◌, ◌≡◌, ◌≢◌, sym, ap, subst, ◌∙◌, arith, List, [], ◌∷◌, ok, panic, ok-injective,
  length, get_or,
}
use dave.Kalloc.{Kmem, kfree, kalloc}
use dave.Kalloc.FreeList.{Apart, IsPage, Holds, kfree_lem, kalloc_none, kalloc_some}

-- The allocator and the pages that clients hold.
pub record System : Type 0 where
  pub kmem : Kmem
  pub owned : List ℕ

abbrev pub remove_at : List ℕ → ℕ → List ℕ
remove_at [] i = []
remove_at (p ∷ ps) zero = ps
remove_at (p ∷ ps) (suc i) = p ∷ remove_at ps i

module _ (kernel_end : ℕ) where
  pub data Step : System → System → Type 0 where
    allocs :
        (y : System) {p : ℕ} {k : Kmem}
        → kalloc y.kmem ≡ (p, k)
        → p ≢ 0
        → Step y (record { kmem = k; owned = p ∷ y.owned })
    frees :
        (y : System) (i : ℕ) {k : Kmem}
        → i < length y.owned
        → kfree kernel_end (get_or y.owned i 0) y.kmem ≡ ok k
        → Step y (record { kmem = k; owned = remove_at y.owned i })

  pub data Reach (y : System) : System → Type 0 where
    here : Reach y y
    next : {z w : System} → Reach y z → Step z w → Reach y w

  -- Held pages are real, distinct, and not free.
  abbrev pub AreOwned : List ℕ → List ℕ → Type 0
  AreOwned pages [] = Unit {0}
  AreOwned pages (p ∷ ps) = IsPage kernel_end p × Apart p pages × Apart p ps × AreOwned pages ps

  pub record IsSound (y : System) (pages : List ℕ) : Type 0 where
    pub free : Holds kernel_end y.kmem pages
    pub owned : AreOwned pages y.owned

  Apart-at : (q : ℕ) (ps : List ℕ) (i : ℕ) → i < length ps → Apart q ps → q ≢ get_or ps i 0
  Apart-at q [] i lt a = absurd (omega arith)
  Apart-at q (p ∷ ps) zero lt a = a.0
  Apart-at q (p ∷ ps) (suc i) lt a = Apart-at q ps i (omega arith) a.1

  Apart-remove_at : (q : ℕ) (ps : List ℕ) (i : ℕ) → Apart q ps → Apart q (remove_at ps i)
  Apart-remove_at q [] i a = tt
  Apart-remove_at q (p ∷ ps) zero a = a.1
  Apart-remove_at q (p ∷ ps) (suc i) a = (a.0, Apart-remove_at q ps i a.1)

  AreOwned-pop : (q : ℕ) (qs ps : List ℕ) → AreOwned (q ∷ qs) ps → AreOwned qs ps × Apart q ps
  AreOwned-pop q qs [] o = (tt, tt)
  AreOwned-pop q qs (p ∷ ps) o =
      let rest = AreOwned-pop q qs ps o.3 in
      ((o.0, o.1.1, o.2, rest.0), (λ e. o.1.0 (sym e), rest.1))

  AreOwned-push : (q : ℕ) (qs ps : List ℕ) → Apart q ps → AreOwned qs ps → AreOwned (q ∷ qs) ps
  AreOwned-push q qs [] a o = tt
  AreOwned-push q qs (p ∷ ps) a o =
      (o.0, (λ e. a.0 (sym e), o.1), o.2, AreOwned-push q qs ps a.1 o.3)

  AreOwned-at :
      (pages ps : List ℕ) (i : ℕ)
      → i < length ps
      → AreOwned pages ps
      → IsPage kernel_end (get_or ps i 0) × Apart (get_or ps i 0) pages
  AreOwned-at pages [] i lt o = absurd (omega arith)
  AreOwned-at pages (p ∷ ps) zero lt o = (o.0, o.1)
  AreOwned-at pages (p ∷ ps) (suc i) lt o = AreOwned-at pages ps i (omega arith) o.3

  AreOwned-remove_at :
      (pages ps : List ℕ) (i : ℕ)
      → i < length ps
      → AreOwned pages ps
      → AreOwned (get_or ps i 0 ∷ pages) (remove_at ps i)
  AreOwned-remove_at pages [] i lt o = tt
  AreOwned-remove_at pages (p ∷ ps) zero lt o = AreOwned-push p pages ps o.2 o.3
  AreOwned-remove_at pages (p ∷ ps) (suc i) lt o = (
    o.0,
    (Apart-at p ps i (omega arith) o.2, o.1),
    Apart-remove_at p ps i o.2,
    AreOwned-remove_at pages ps i (omega arith) o.3,
  )

  allocs-IsSound :
      (pages : List ℕ) (y : System) (p : ℕ) (k : Kmem)
      → IsSound y pages
      → kalloc y.kmem ≡ (p, k)
      → p ≢ 0
      → (rest : List ℕ) × IsSound (record { kmem = k; owned = p ∷ y.owned }) rest
  allocs-IsSound [] y p k v e ne =
      absurd (ne (ap (λ r. r.0) (sym e ∙ kalloc_none kernel_end y.kmem v.free)))
  allocs-IsSound (q ∷ qs) y p k v e ne =
      let (k', e', h') = kalloc_some kernel_end y.kmem q qs v.free in
      let ep : q ≡ p = ap (λ r. r.0) (sym e' ∙ e) in
      let ek : k' ≡ k = ap (λ r. r.1) (sym e' ∙ e) in
      let (o, a) = AreOwned-pop q qs y.owned v.owned in
      (
        qs,
        record {
          free = subst (λ m. Holds kernel_end m qs) ek h';
          owned = subst (λ r. AreOwned qs (r ∷ y.owned)) ep (v.free.1, v.free.2, a, o);
        },
      )

  frees-IsSound :
      (pages : List ℕ) (y : System) (i : ℕ) (k : Kmem)
      → IsSound y pages
      → i < length y.owned
      → kfree kernel_end (get_or y.owned i 0) y.kmem ≡ ok k
      → (rest : List ℕ) × IsSound (record { kmem = k; owned = remove_at y.owned i }) rest
  frees-IsSound pages y i k v lt e =
      let (page, out) = AreOwned-at pages y.owned i lt v.owned in
      let (k', e', h') = kfree_lem kernel_end (get_or y.owned i 0) y.kmem pages page out v.free in
      let ek : k' ≡ k = ok-injective (sym e' ∙ e) in
      (
        get_or y.owned i 0 ∷ pages,
        record {
          free = subst (λ m. Holds kernel_end m (get_or y.owned i 0 ∷ pages)) ek h';
          owned = AreOwned-remove_at pages y.owned i lt v.owned;
        },
      )

  Step-IsSound :
      {y z : System} (pages : List ℕ)
      → IsSound y pages
      → Step y z
      → (rest : List ℕ) × IsSound z rest
  Step-IsSound pages v (allocs y {p} {k} e ne) = allocs-IsSound pages y p k v e ne
  Step-IsSound pages v (frees y i {k} lt e) = frees-IsSound pages y i k v lt e

  -- Under any history of calls the free list stays a list of real pages, all distinct, and none of
  -- them is held by a client.
  pub Reach-IsSound :
      {y z : System} (pages : List ℕ)
      → IsSound y pages
      → Reach y z
      → (rest : List ℕ) × IsSound z rest
  Reach-IsSound pages v here = (pages, v)
  Reach-IsSound pages v (next r st) =
      let (rest, w) = Reach-IsSound pages v r in Step-IsSound rest w st

  -- After any history of `kalloc` and `kfree` by clients that free what they hold, from a sound state
  -- on, a page that `kalloc` hands out is a real one that no client holds.
  pub kalloc_fresh :
      (pages : List ℕ) (y z : System) (p : ℕ) (k : Kmem)
      → IsSound y pages
      → Reach y z
      → kalloc z.kmem ≡ (p, k)
      → p ≢ 0
      → IsPage kernel_end p × Apart p z.owned
  kalloc_fresh pages y z p k v r e ne =
      let (rest, w) = Reach-IsSound pages v r in
      let (rest', u) = allocs-IsSound rest z p k w e ne in (u.owned.0, u.owned.2)

  -- `kfree` of a held page does not panic.
  pub kfree_never_panics :
      (pages : List ℕ) (y z : System) (i : ℕ)
      → IsSound y pages
      → Reach y z
      → i < length z.owned
      → kfree kernel_end (get_or z.owned i 0) z.kmem ≢ panic
  kfree_never_panics pages y z i v r lt e =
      let (rest, w) = Reach-IsSound pages v r in
      let (page, out) = AreOwned-at rest z.owned i lt w.owned in
      let (k', e', h') = kfree_lem kernel_end (get_or z.owned i 0) z.kmem rest page out w.free in
      cc (e, e')
