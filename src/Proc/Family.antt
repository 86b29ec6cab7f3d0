-- ===== src/Proc/Family.antt =====
-- `exit` and `wait` of system/core/proc.c: orphans, zombies, and who is woken.
use dave.Common.{
  ℕ, zero, suc, ◌+◌, ◌<◌, ◌≤◌, ◌≡◌, ◌≢◌, ◌⊎◌, refl, ap, arith, true, false, [], ◌∷◌, Option, none,
  some, ◌==◌, length, get_elem?, ◌∙◌, of_some, Option-cases, sym, inl, inr, Bool-cases, ==_iff,
  subst,
}
use dave.Proc.{
  Proc, Table, Chan, of_proc, zombie, wake_slot, wakeup1, modify, exit_enter, reparent, adopt,
  has_parent, is_zombie, parent_chan,
}
use dave.Proc.Wake.{
  get_elem?-modify_self, get_elem?-modify_ne, get_elem?-wakeup1, length-wakeup1, length-modify,
}

wakeup1_past :
    (c : Chan) (ps : Table) (j : ℕ) → get_elem? ps j ≡ none → get_elem? (wakeup1 c ps) j ≡ none
unfolding wakeup1
wakeup1_past c [] j e = refl
wakeup1_past c (p ∷ ps) zero e = cc
wakeup1_past c (p ∷ ps) (suc j) e = wakeup1_past c ps j e

modify_past :
    (f : Proc → Proc) (ps : Table) (j : ℕ)
    → get_elem? ps j ≡ none
    → get_elem? (modify f j ps) j ≡ none
modify_past f [] j e = refl
modify_past f (p ∷ ps) zero e = cc
modify_past f (p ∷ ps) (suc j) e = modify_past f ps j e

-- A wakeup changes no parent.
parent-wakeup1 :
    (c : Chan) (ps : Table) (j : ℕ) (q : Proc)
    → get_elem? (wakeup1 c ps) j ≡ some q
    → (p : Proc) × (get_elem? ps j ≡ some p) × (p.parent ≡ q.parent)
parent-wakeup1 c ps j q e = elim (Option-cases (get_elem? ps j)) [
  | inl past ↦ absurd (none_some (sym (wakeup1_past c ps j past) ∙ e))
  | inr (p, here) ↦ (
    p,
    here,
    wake_parent c p
        ∙ ap (λ (r : Proc). r.parent) (of_some (sym (get_elem?-wakeup1 c ps j p here) ∙ e)),
  )
]
  where
    none_some : none ≡ some q → ⊥
    none_some e = cc

    wake_parent : (c : Chan) (p : Proc) → p.parent ≡ (wake_slot c p).parent
    wake_parent c p = ground arith

-- No slot below `j` names `i` as its parent.
abbrev pub NoChild : ℕ → ℕ → Table → Type 0
NoChild i j ps = (k : ℕ) (p : Proc) → k < j → get_elem? ps k ≡ some p → has_parent i p ≡ false

wakeup1-NoChild : (c : Chan) (i j : ℕ) (ps : Table) → NoChild i j ps → NoChild i j (wakeup1 c ps)
wakeup1-NoChild c i j ps h k q lt e =
    let (p, here, same) = parent-wakeup1 c ps k q e in ground (arith, h k p lt here)

handed-NoChild :
    (i init j : ℕ) (ps : Table)
    → i ≢ init
    → NoChild i j ps
    → NoChild i (suc j) (modify (λ q. record q { parent = some init }) j ps)
handed-NoChild i init j ps ne h k q lt e = elim (Bool-cases (k == j)) [
  | inl same ↦ at_j ((==_iff _ _).0 same)
  | inr other ↦
      h k q (ground arith)
        (sym (get_elem?-modify_ne (λ r. record r { parent = some init }) ps j k (ground arith)) ∙ e)
]
  where
    at_j : k ≡ j → has_parent i q ≡ false
    at_j same = elim (Option-cases (get_elem? ps j)) [
      | inl gone ↦
          absurd (cc (modify_past (λ r. record r { parent = some init }) ps j gone, e, same))
      | inr (p, here) ↦ ground (
        arith,
        of_some (
            sym (get_elem?-modify_self (λ r. record r { parent = some init }) ps j p here)
            ∙ subst (λ m. get_elem? (modify (λ r. record r { parent = some init }) j ps) m ≡ some q)
                same e),
      )
    ]

NoChild-step :
    (i j : ℕ) (ps : Table)
    → NoChild i j ps
    → ((p : Proc) → get_elem? ps j ≡ some p → has_parent i p ≡ false)
    → NoChild i (suc j) ps
NoChild-step i j ps h here k q lt e = elim (Bool-cases (k == j)) [
  | inl same ↦ here q (subst (λ m. get_elem? ps m ≡ some q) ((==_iff _ _).0 same) e)
  | inr other ↦ h k q (ground arith) e
]

-- The three ways a slot goes through the loop of `exit`.
adopt_gone : (i init j : ℕ) (ps : Table) → get_elem? ps j ≡ none → adopt i init j ps ≡ ps
adopt_gone i init j ps gone = ground arith

adopt_other :
    (i init j : ℕ) (ps : Table) (p : Proc)
    → get_elem? ps j ≡ some p
    → has_parent i p ≡ false
    → adopt i init j ps ≡ ps
adopt_other i init j ps p here other = ground arith

adopt_child :
    (i init j : ℕ) (ps : Table) (p : Proc)
    → get_elem? ps j ≡ some p
    → has_parent i p ≡ true
    → let handed = modify (λ q. record q { parent = some init }) j ps in
      (adopt i init j ps ≡ handed) ⊎ (adopt i init j ps ≡ wakeup1 (of_proc init) handed)
adopt_child i init j ps p here child = elim (Bool-cases (is_zombie p.state)) [
  | inl dead ↦ inr (ground arith)
  | inr alive ↦ inl (ground arith)
]

adopt-NoChild :
    (i init j : ℕ) (ps : Table) → i ≢ init → NoChild i j ps → NoChild i (suc j) (adopt i init j ps)
adopt-NoChild i init j ps ne h = elim (Option-cases (get_elem? ps j)) [
  | inl gone ↦
      subst (NoChild i (suc j)) (sym (adopt_gone i init j ps gone))
        (NoChild-step i j ps h (λ p e. absurd (cc (gone, e))))
  | inr (p, here) ↦ elim (Bool-cases (has_parent i p)) [
    | inr other ↦ subst (NoChild i (suc j)) (sym (adopt_other i init j ps p here other)) (
        NoChild-step i j ps h
          (λ q e. subst (λ r. has_parent i r ≡ false) (of_some (sym here ∙ e)) other))
    | inl child ↦
        let handed = handed-NoChild i init j ps ne h in
        elim (adopt_child i init j ps p here child) [
          | inl e ↦ subst (NoChild i (suc j)) (sym e) handed
          | inr e ↦
              subst (NoChild i (suc j)) (sym e) (wakeup1-NoChild (of_proc init) i (suc j) _ handed)
        ]
  ]
]

length-adopt : (i init j : ℕ) (ps : Table) → length (adopt i init j ps) ≡ length ps
length-adopt i init j ps = ground (
  arith,
  length-modify (λ r. record r { parent = some init }) ps j,
  length-wakeup1 (of_proc init) (modify (λ r. record r { parent = some init }) j ps),
)

reparent-NoChild :
    (i init k j : ℕ) (ps : Table)
    → i ≢ init
    → NoChild i j ps
    → NoChild i (j + k) (reparent i init k j ps)
unfolding reparent
reparent-NoChild i init zero j ps ne h = subst (λ m. NoChild i m ps) (omega arith) h
reparent-NoChild i init (suc k) j ps ne h =
    subst (λ m. NoChild i m (reparent i init k (suc j) (adopt i init j ps))) (omega arith)
      (reparent-NoChild i init k (suc j) (adopt i init j ps) ne (adopt-NoChild i init j ps ne h))

length-reparent : (i init k j : ℕ) (ps : Table) → length (reparent i init k j ps) ≡ length ps
unfolding reparent
length-reparent i init zero j ps = refl
length-reparent i init (suc k) j ps =
    length-reparent i init k (suc j) (adopt i init j ps) ∙ length-adopt i init j ps

lt-length : (ps : Table) (k : ℕ) (p : Proc) → get_elem? ps k ≡ some p → k < length ps
lt-length [] k p e = cc
lt-length (q ∷ ps) zero p e = omega arith
lt-length (q ∷ ps) (suc k) p e = omega (arith, lt-length ps k p e)

zombie_parent :
    (ps : Table) (i k : ℕ) (q : Proc)
    → get_elem? (modify (λ p. record p { state = zombie }) i ps) k ≡ some q
    → (p : Proc) × (get_elem? ps k ≡ some p) × (p.parent ≡ q.parent) × (k ≡ i → q.state ≡ zombie)
zombie_parent ps i k q e = elim (Bool-cases (i == k)) [
  | inr other ↦ (
    q,
    sym (get_elem?-modify_ne (λ p. record p { state = zombie }) ps i k (ground arith)) ∙ e,
    refl,
    λ h. absurd (ground arith),
  )
  | inl same ↦ elim (Option-cases (get_elem? ps i)) [
    | inl gone ↦
        absurd
          (cc (modify_past (λ p. record p { state = zombie }) ps i gone, e, (==_iff _ _).0 same))
    | inr (p, here) ↦
        let z = get_elem?-modify_self (λ p. record p { state = zombie }) ps i p here in
        let eq : i ≡ k = (==_iff _ _).0 same in
        let f : record p { state = zombie } ≡ q = of_some (
          sym z
          ∙ subst (λ m. get_elem? (modify (λ p. record p { state = zombie }) i ps) m ≡ some q)
              (sym eq) e) in
        (
          p,
          subst (λ m. get_elem? ps m ≡ some p) eq here,
          ap (λ (r : Proc). r.parent) f,
          λ h. sym (ap (λ (r : Proc). r.state) f),
        )
  ]
]

-- After `exit` of a process other than init its slot is a zombie, and no process of the table names
-- it as its parent any more.
pub exit_no_orphans :
    (nproc i init : ℕ) (parent : Option ℕ) (ps : Table) (k : ℕ) (q : Proc)
    → i ≢ init
    → length ps ≤ nproc
    → get_elem? (exit_enter nproc i init parent ps) k ≡ some q
    → (has_parent i q ≡ false) × (k ≡ i → q.state ≡ zombie)
unfolding exit_enter
exit_no_orphans nproc i init parent ps k q ne small e =
    let woken = wakeup1 (parent_chan parent) ps in
    let (p, here, same, dead) = zombie_parent (reparent i init nproc 0 woken) i k q e in
    let lt = lt-length (reparent i init nproc 0 woken) k p here in
    let len = length-reparent i init nproc 0 woken ∙ length-wakeup1 (parent_chan parent) ps in
    (
      ground (
        arith,
        reparent-NoChild i init nproc 0 woken ne (λ m r l _. absurd (omega arith)) k p (omega arith)
            here,
      ),
      dead,
    )
