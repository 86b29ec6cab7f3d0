-- ===== src/Inodes/Counting.antt =====
-- How many blocks are free, for the calls of system/storage/fs.c that may run out of them.
use dave.Common.{
  ℕ, zero, suc, ◌+◌, ◌<◌, ◌≤◌, ◌≡◌, refl, ap, ◌∙◌, arith, true, false, ◌&&◌, not, if◌then◌else◌,
  ◌==◌, Bool-cases, inl, inr,
}
use dave.Fs.{Super, Disk}
use dave.Fs.Bitmap.{is_free, Allocated}

module _ (sb : Super) where
  -- The free blocks below `k`.
  unfoldable pub free_below : Disk → ℕ → ℕ
  free_below s zero = 0
  free_below s (suc k) = (if is_free sb s k then 1 else 0) + free_below s k

  abbrev pub free_count : Disk → ℕ
  free_count s = free_below s sb.size

  pub free_below-same :
      (s t : Disk) (k : ℕ)
      → ((y : ℕ) → y < k → is_free sb t y ≡ is_free sb s y)
      → free_below t k ≡ free_below s k
  unfolding free_below
  free_below-same s t zero same = refl
  free_below-same s t (suc k) same =
      rw (same k (omega arith), free_below-same s t k (λ y lt. same y (omega arith))) refl

  pub none_free :
      (s : Disk) (k : ℕ) → ((y : ℕ) → y < k → is_free sb s y ≡ false) → free_below s k ≡ 0
  unfolding free_below
  none_free s zero all = refl
  none_free s (suc k) all =
      rw (all k (omega arith), none_free s k (λ y lt. all y (omega arith))) (omega arith)

  module _ (s : Disk) (x : ℕ) (t : Disk) (a : Allocated sb s x t) where
    below_new : (k : ℕ) → k ≤ x → free_below t k ≡ free_below s k
    below_new k le =
        free_below-same s t k (λ y lt. a.bitmap y (omega (arith, a.inside)) ∙ same y (omega arith))
      where
        same : (y : ℕ) → y < x → not (y == x) && is_free sb s y ≡ is_free sb s y
        same y lt = let n : (y == x) ≡ false = ground arith in rw n refl

    above_new : (k : ℕ) → x < k → k ≤ sb.size → free_below s k ≡ suc (free_below t k)
    unfolding free_below
    above_new zero lt le = absurd (omega arith)
    above_new (suc k) lt le = elim (Bool-cases (k == x)) [
      | inl e ↦
          let here = a.bitmap k (omega arith) in
          let same = below_new k (ground arith) in
          let at_x : is_free sb s k ≡ true =
            (let z : k ≡ x = ground arith in ap (is_free sb s) z ∙ a.was_free) in
          rw (here, e, same, at_x) (omega arith)
      | inr n ↦
          let here = a.bitmap k (omega arith) in
          let rest = above_new k (ground arith) (omega arith) in rw (here, n, rest) (omega arith)
    ]

    -- An allocation takes one block.
    pub count_less : free_count s ≡ suc (free_count t)
    count_less = above_new sb.size a.inside (omega arith)
