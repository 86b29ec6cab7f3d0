-- ===== src/Proc/Waits.antt =====
-- One round of `wait` of system/core/proc.c: what each of its three results means.
use dave.Common.{
  ℕ, zero, suc, ◌+◌, ◌≡◌, ◌⊎◌, refl, ap, arith, Bool, true, false, ◌&&◌, ◌||◌, not, [], ◌∷◌, Option,
  none, some, if◌then◌else◌, get_elem?, ◌∙◌, of_some, sym, inl, inr, Bool-cases, Result, ok, panic,
  subst, ok-injective,
}
use dave.Kalloc.{Kmem}
use dave.Proc.{
  Proc, Table, of_proc, modify, Kernel, sleep_enter, find_zombie, wait_round, reap_slot, Waited,
  reaped, failed, blocked, has_parent, is_zombie, freed, wait_free, wait_decide,
}

-- No child of `i` is a zombie.
abbrev pub NoZombie : ℕ → Table → Type 0
NoZombie i ps =
    (k : ℕ) (p : Proc) → get_elem? ps k ≡ some p → has_parent i p ≡ true → is_zombie p.state ≡ false

abbrev pub Childless : ℕ → Table → Type 0
Childless i ps = (k : ℕ) (p : Proc) → get_elem? ps k ≡ some p → has_parent i p ≡ false

-- A zombie child stands in slot `k`.
abbrev pub IsDeadChild : ℕ → Table → ℕ → Proc → Type 0
IsDeadChild i ps k p =
    (get_elem? ps k ≡ some p) × (has_parent i p ≡ true) × (is_zombie p.state ≡ true)

abbrev Scanned : ℕ → Table → ℕ → Bool → Option (ℕ × Proc) × Bool → Type 0
Scanned i ps j seen r =
    ((k : ℕ) × (p : Proc) × (r ≡ (some (j + k, p), true)) × IsDeadChild i ps k p)
    ⊎ ((r.0 ≡ none) × NoZombie i ps × (r.1 ≡ false → (seen ≡ false) × Childless i ps))

Scanned-cons :
    (i : ℕ) (p : Proc) (ps : Table) (j : ℕ) (seen : Bool) (r : Option (ℕ × Proc) × Bool)
    → (has_parent i p && is_zombie p.state) ≡ false
    → Scanned i ps (suc j) (seen || has_parent i p) r
    → Scanned i (p ∷ ps) j seen r
Scanned-cons i p ps j seen r miss (inl (k, q, e, dead)) =
    inl (suc k, q, subst (λ m. r ≡ (some (m, q), true)) (omega arith) e, dead)
Scanned-cons i p ps j seen r miss (inr (gone, calm, child)) = inr (
  gone,
  elim [ zero ↦ λ q e c. ground (arith, of_some e) | suc k ↦ λ q e c. calm k q e c ],
  λ e. (
    ground (arith, child e),
    elim [ zero ↦ λ q h. ground (arith, of_some h, child e) | suc k ↦ λ q h. (child e).1 k q h ],
  ),
)

find_zombie-Scanned :
    (i : ℕ) (ps : Table) (j : ℕ) (seen : Bool) → Scanned i ps j seen (find_zombie i ps j seen)
unfolding find_zombie
find_zombie-Scanned i [] j seen = inr (refl, λ k p e c. cc, λ e. (e, λ k p h. cc))
find_zombie-Scanned i (p ∷ ps) j seen = elim (Bool-cases (has_parent i p && is_zombie p.state)) [
  | inl hit ↦ rw hit (inl (0, p, ground arith, (refl, ground arith, ground arith)))
  | inr miss ↦ rw miss (
      Scanned-cons i p ps j seen _ miss (find_zombie-Scanned i ps (suc j) (seen || has_parent i p)))
]

module _ (kernel_end : ℕ) (freevm : ℕ → Kmem → Result Kmem) where
  -- What the round has done, by its result.
  abbrev pub WaitSpec : ℕ → Bool → Kernel → Waited → Kernel → Type 0
  WaitSpec i killed y (reaped pid) z =
      (k : ℕ) × (p : Proc) × IsDeadChild i y.table k p
      × (pid ≡ p.pid)
      × (z.table ≡ modify reap_slot k y.table)
      × (freed kernel_end freevm p.kstack p.pgdir y.kmem ≡ ok z.kmem)
  WaitSpec i killed y failed z =
      (z ≡ y) × NoZombie i y.table × ((killed ≡ true) ⊎ Childless i y.table)
  WaitSpec i killed y blocked z =
      (z ≡ record y { table = sleep_enter i (of_proc i) y.table })
      × NoZombie i y.table
      × (killed ≡ false)

  module _ (i : ℕ) (killed : Bool) (y z : Kernel) (w : Waited) where
    free-WaitSpec :
        (k : ℕ) (p : Proc) (m : Result Kmem)
        → IsDeadChild i y.table k p
        → freed kernel_end freevm p.kstack p.pgdir y.kmem ≡ m
        → wait_free kernel_end freevm y k p m ≡ ok (w, z)
        → WaitSpec i killed y w z
    unfolding wait_free
    free-WaitSpec k p panic dead em e = cc
    free-WaitSpec k p (ok m) dead em e =
        subst (λ (r : Waited × Kernel). WaitSpec i killed y r.0 r.1) (ok-injective e)
          (k, p, dead, refl, refl, em)

    scan-WaitSpec :
        (r : Option (ℕ × Proc) × Bool)
        → Scanned i y.table 0 false r
        → wait_decide kernel_end freevm i killed y r ≡ ok (w, z)
        → WaitSpec i killed y w z
    unfolding wait_decide
    scan-WaitSpec (some (j, p), seen) (inl (k, q, es, dead)) e =
        let at : j ≡ 0 + k = ground arith in
        let who : p ≡ q = ground arith in
        free-WaitSpec j p (freed kernel_end freevm p.kstack p.pgdir y.kmem)
          (subst (λ r. IsDeadChild i y.table j r) (sym who)
            (subst (λ m. IsDeadChild i y.table m q) (sym (at ∙ omega arith)) dead))
          refl e
    scan-WaitSpec (some (j, p), seen) (inr (gone, calm, child)) e = cc
    scan-WaitSpec (none, seen) (inl (k, q, es, dead)) e = cc
    scan-WaitSpec (none, seen) (inr (gone, calm, child)) e =
        elim (Bool-cases (not seen || killed)) [
          | inl fails ↦
              subst (λ (r : Waited × Kernel). WaitSpec i killed y r.0 r.1)
                (ok-injective
                  (sym (ap (λ b. if b then ok (failed, y) else ok (blocked, slept)) fails) ∙ e))
                (
                  refl,
                  calm,
                  elim (Bool-cases killed) [ inl k ↦ inl k | inr k ↦ inr (child (ground arith)).1 ],
                )
          | inr blocks ↦
              subst (λ (r : Waited × Kernel). WaitSpec i killed y r.0 r.1)
                (ok-injective
                  (sym (ap (λ b. if b then ok (failed, y) else ok (blocked, slept)) blocks) ∙ e))
                (refl, calm, ground arith)
        ]
      where
        slept : Kernel
        slept = record y { table = sleep_enter i (of_proc i) y.table }

  pub wait_lem :
      (i : ℕ) (killed : Bool) (y z : Kernel) (w : Waited)
      → wait_round kernel_end freevm i killed y ≡ ok (w, z)
      → WaitSpec i killed y w z
  unfolding wait_round
  wait_lem i killed y z w e =
      scan-WaitSpec i killed y z w (find_zombie i y.table 0 false)
        (find_zombie-Scanned i y.table 0 false) e
