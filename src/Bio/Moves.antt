-- ===== src/Bio/Moves.antt =====
-- What the calls of system/storage/bio.c do to the ring of buffers.
use dave.Common.{
  ℕ, ◌<◌, ◌≡◌, ◌≢◌, ◌⊎◌, sym, ap, ◌∙◌, subst, arith, false, Bool-cases, inl, inr, List, [], ◌∷◌,
  if◌then◌else◌, ◌==◌, update,
}
use dave.Bio.{Cache, head, nbuf}
use dave.Bio.Ring.{Linked, Avoids, Distinct, Same, Same-update, Linked-Same}

abbrev pub remove : ℕ → List ℕ → List ℕ
remove b [] = []
remove b (x ∷ xs) = let rest = remove b xs in if x == b then xs else x ∷ rest

abbrev pub Within : List ℕ → Type 0
Within [] = Unit {0}
Within (x ∷ xs) = (x < nbuf) × Within xs

abbrev pub Has : ℕ → List ℕ → Type 0
Has b [] = ⊥
Has b (x ∷ xs) = (b ≡ x) ⊎ Has b xs

-- The ring has the buffers of the list, in its order.
pub record IsRing (c : Cache) (xs : List ℕ) : Type 0 where
  pub linked : Linked c.next c.prev head xs head
  pub distinct : Distinct xs
  pub within : Within xs

pub Within-Avoids : (xs : List ℕ) → Within xs → Avoids head xs
Within-Avoids [] w = tt
Within-Avoids (x ∷ xs) (lt, w) = ((λ e. omega arith), Within-Avoids xs w)

pub Has-Within : (b : ℕ) (xs : List ℕ) → Has b xs → Within xs → b < nbuf
Has-Within b [] h w = absurd h
Has-Within b (x ∷ xs) (inl e) (lt, w) = omega arith
Has-Within b (x ∷ xs) (inr h) (lt, w) = Has-Within b xs h w

Has-Avoids : (q b : ℕ) (xs : List ℕ) → Has b xs → Avoids q xs → q ≢ b
Has-Avoids q b [] h out = absurd h
Has-Avoids q b (x ∷ xs) (inl e) (ne, out) = λ h. ne (h ∙ e)
Has-Avoids q b (x ∷ xs) (inr h) (ne, out) = Has-Avoids q b xs h out

pub remove-Avoids : (q b : ℕ) (xs : List ℕ) → Avoids q xs → Avoids q (remove b xs)
remove-Avoids q b [] out = tt
remove-Avoids q b (x ∷ xs) (ne, out) = elim (Bool-cases (x == b)) [
  | inl e ↦ rw e out
  | inr e ↦ rw e (ne, remove-Avoids q b xs out)
]

pub remove-Distinct : (b : ℕ) (xs : List ℕ) → Distinct xs → Distinct (remove b xs)
remove-Distinct b [] d = tt
remove-Distinct b (x ∷ xs) (out, d) = elim (Bool-cases (x == b)) [
  | inl e ↦ rw e d
  | inr e ↦ rw e (remove-Avoids x b xs out, remove-Distinct b xs d)
]

pub remove-Within : (b : ℕ) (xs : List ℕ) → Within xs → Within (remove b xs)
remove-Within b [] w = tt
remove-Within b (x ∷ xs) (lt, w) = elim (Bool-cases (x == b)) [
  | inl e ↦ rw e w
  | inr e ↦ rw e (lt, remove-Within b xs w)
]

pub removed-Avoids : (b : ℕ) (xs : List ℕ) → Distinct xs → Avoids b (remove b xs)
removed-Avoids b [] d = tt
removed-Avoids b (x ∷ xs) (out, d) = elim (Bool-cases (x == b)) [
  | inl e ↦ let same : x ≡ b = ground arith in rw e (subst (λ q. Avoids q xs) same out)
  | inr e ↦ rw e ((λ h. ground (arith, e, h)), removed-Avoids b xs d)
]

-- The neighbours of a buffer of the list are in the list or at its ends.
prev_ne :
    (next prev : ℕ → ℕ) (a : ℕ) (xs : List ℕ) (z b q : ℕ)
    → Linked next prev a xs z
    → Has b xs
    → q ≢ a
    → Avoids q xs
    → q ≢ prev b
prev_ne next prev a [] z b q l h ne out = absurd h
prev_ne next prev a (x ∷ xs) z b q (l, m, rest) (inl e) ne out = λ h. ne (h ∙ ap prev e ∙ m)
prev_ne next prev a (x ∷ xs) z b q (l, m, rest) (inr h) ne (n, out) =
    prev_ne next prev x xs z b q rest h n out

next_first :
    (next prev : ℕ → ℕ) (x : ℕ) (xs : List ℕ) (z q : ℕ)
    → Linked next prev x xs z
    → q ≢ z
    → Avoids q xs
    → q ≢ next x
next_first next prev x [] z q (n, p) ne out = λ h. ne (h ∙ n)
next_first next prev x (y ∷ xs) z q (n, p, rest) ne (r, out) = λ h. r (h ∙ n)

next_ne :
    (next prev : ℕ → ℕ) (a : ℕ) (xs : List ℕ) (z b q : ℕ)
    → Linked next prev a xs z
    → Has b xs
    → q ≢ z
    → Avoids q xs
    → q ≢ next b
next_ne next prev a [] z b q l h ne out = absurd h
next_ne next prev a (x ∷ xs) z b q (l, m, rest) (inl e) ne (n, out) =
    λ h. next_first next prev x xs z q rest ne out (h ∙ ap next e)
next_ne next prev a (x ∷ xs) z b q (l, m, rest) (inr h) ne (n, out) =
    next_ne next prev x xs z b q rest h ne out

pub unlinked :
    (next prev : ℕ → ℕ) (a : ℕ) (xs : List ℕ) (z b : ℕ)
    → Linked next prev a xs z
    → Has b xs
    → Avoids a xs
    → Distinct xs
    → Avoids z xs
    → Linked (update next (prev b) (next b)) (update prev (next b) (prev b)) a (remove b xs) z
unlinked next prev a [] z b l h out_a d out_z = absurd h
unlinked next prev a (x ∷ xs) z b (l, m, rest) h (ne_a, out_a) (out, d) (ne_z, out_z) =
    elim (Bool-cases (x == b)) [
      | inl e ↦
          let same : x ≡ b = ground arith in
          rw e (
            subst
              (λ b. Linked (update next (prev b) (next b)) (update prev (next b) (prev b)) a xs z)
              same (first_out xs rest out_a d out_z))
      | inr e ↦
          let h' = later h e in
          let n : a ≢ prev b = prev_ne next prev x xs z b a rest h' ne_a out_a in
          let p : x ≢ next b = next_ne next prev x xs z b x rest h' (λ i. ne_z (sym i)) out in
          rw e (
            ground (arith, n, l),
            ground (arith, p, m),
            unlinked next prev x xs z b rest h' out d out_z,
          )
    ]
  where
    later : Has b (x ∷ xs) → (x == b) ≡ false → Has b xs
    later (inl e) ne = absurd (ground (arith, ne, e))
    later (inr h) ne = h

    first_out :
        (ys : List ℕ)
        → Linked next prev x ys z
        → Avoids a ys
        → Distinct ys
        → Avoids z ys
        → Linked (update next (prev x) (next x)) (update prev (next x) (prev x)) a ys z
    first_out [] (n, p) oa d oz = (ground (arith, m, n), ground (arith, m, n))
    first_out (y ∷ ys) (n, p, more) (na, oa) (oy, d) (nz, oz) =
        let same_next = Same-update next a (next x) (y ∷ ys) (na, oa) in
        let same_prev = Same-update prev y (prev x) ys oy in
        (
          ground (arith, m, n),
          ground (arith, m, n),
          Linked-Same next prev _ _ y ys z
              (subst (λ k. Same (update next k (next x)) next (y ∷ ys)) (sym m) same_next)
              (subst (λ k. Same (update prev k (prev x)) prev ys) (sym n) same_prev)
              (ground (arith, n, nz)) more,
        )
