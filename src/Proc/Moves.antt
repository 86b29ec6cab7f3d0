-- ===== src/Proc/Moves.antt =====
-- The changes of state that system/core/proc.c makes in the process table: wakeups, and changes of
-- one slot.
use dave.Common.{
  ℕ, zero, suc, ◌≡◌, ◌⊎◌, refl, arith, true, ◌&&◌, [], ◌∷◌, some, if◌then◌else◌, ◌==◌, get_elem?,
  ◌∙◌, sym, inl, inr, Bool-cases, subst,
}
use dave.Proc.{
  Proc, Table, Chan, ProcState, unused, embryo, sleeping, runnable, running, zombie, wake_slot,
  wakeup1, kill, modify, reparent, adopt, is_sleeping, same_chan, of_proc,
}

-- The changes that the life cycle allows, staying as it is among them. `fork` and `userinit`, which
-- start a new process, are not modelled: an EMBRYO stays one here.
pub data Next : ProcState → ProcState → Type 0 where
  stays : (s : ProcState) → Next s s
  allocated : Next unused embryo
  dispatched : Next runnable running
  yielded : Next running runnable
  slept : Next running sleeping
  woken : Next sleeping runnable
  exited : Next running zombie
  collected : Next zombie unused

-- Slot by slot, a table moves to another of the same length.
abbrev pub Moves : Table → Table → Type 0
Moves [] [] = Unit {0}
Moves [] (q ∷ qs) = ⊥
Moves (p ∷ ps) [] = ⊥
Moves (p ∷ ps) (q ∷ qs) = Next p.state q.state × Moves ps qs

pub Moves-refl : (ps : Table) → Moves ps ps
Moves-refl [] = tt
Moves-refl (p ∷ ps) = (stays p.state, Moves-refl ps)

sleeping_state : (s : ProcState) → is_sleeping s ≡ true → s ≡ sleeping
sleeping_state sleeping e = refl
sleeping_state unused e = cc
sleeping_state embryo e = cc
sleeping_state runnable e = cc
sleeping_state running e = cc
sleeping_state zombie e = cc

wake_slot-Next : (c : Chan) (p : Proc) → Next p.state (wake_slot c p).state
wake_slot-Next c p = elim (Bool-cases (is_sleeping p.state && same_chan p.chan c)) [
  | inl e ↦ rw e (subst (λ s. Next s runnable) (sym (sleeping_state p.state (ground arith))) woken)
  | inr e ↦ rw e (stays p.state)
]

pub wakeup1-Moves : (c : Chan) (ps : Table) → Moves ps (wakeup1 c ps)
unfolding wakeup1
wakeup1-Moves c [] = tt
wakeup1-Moves c (p ∷ ps) = (wake_slot-Next c p, wakeup1-Moves c ps)

kill_slot-Next : (s : ProcState) → Next s (if is_sleeping s then runnable else s)
kill_slot-Next sleeping = woken
kill_slot-Next unused = stays unused
kill_slot-Next embryo = stays embryo
kill_slot-Next runnable = stays runnable
kill_slot-Next running = stays running
kill_slot-Next zombie = stays zombie

pub kill-Moves : (pid : ℕ) (ps : Table) → Moves ps (kill pid ps).1
unfolding kill
kill-Moves pid [] = tt
kill-Moves pid (p ∷ ps) = elim (Bool-cases (p.pid == pid)) [
  | inl hit ↦ rw hit (kill_slot-Next p.state, Moves-refl ps)
  | inr miss ↦ rw miss (stays p.state, kill-Moves pid ps)
]

pub modify-Moves :
    (f : Proc → Proc) (i : ℕ) (ps : Table)
    → ((p : Proc) → get_elem? ps i ≡ some p → Next p.state (f p).state)
    → Moves ps (modify f i ps)
modify-Moves f i [] h = tt
modify-Moves f zero (p ∷ ps) h = (h p refl, Moves-refl ps)
modify-Moves f (suc i) (p ∷ ps) h = (stays p.state, modify-Moves f i ps h)

-- Who is on the CPU.
abbrev pub IsIn : ProcState → ℕ → Table → Type 0
IsIn s i ps = (p : Proc) → get_elem? ps i ≡ some p → p.state ≡ s

-- What wakeups alone do to a state.
abbrev pub Woke : ProcState → ProcState → Type 0
Woke s t = (t ≡ s) ⊎ ((s ≡ sleeping) × (t ≡ runnable))

Woke-trans : {s t u : ProcState} → Woke s t → Woke t u → Woke s u
Woke-trans (inl e) (inl f) = inl (f ∙ e)
Woke-trans (inl e) (inr (f, g)) = inr (sym e ∙ f, g)
Woke-trans (inr (e, f)) (inl g) = inr (e, g ∙ f)
Woke-trans (inr (e, f)) (inr (g, h)) = inr (e, h)

abbrev pub AllWoke : Table → Table → Type 0
AllWoke [] [] = Unit {0}
AllWoke [] (q ∷ qs) = ⊥
AllWoke (p ∷ ps) [] = ⊥
AllWoke (p ∷ ps) (q ∷ qs) = Woke p.state q.state × AllWoke ps qs

AllWoke-refl : (ps : Table) → AllWoke ps ps
AllWoke-refl [] = tt
AllWoke-refl (p ∷ ps) = (inl refl, AllWoke-refl ps)

pub AllWoke-trans : (ps qs rs : Table) → AllWoke ps qs → AllWoke qs rs → AllWoke ps rs
AllWoke-trans [] [] [] v w = tt
AllWoke-trans [] [] (r ∷ rs) v w = w
AllWoke-trans [] (q ∷ qs) rs v w = absurd v
AllWoke-trans (p ∷ ps) [] rs v w = absurd v
AllWoke-trans (p ∷ ps) (q ∷ qs) [] v w = w
AllWoke-trans (p ∷ ps) (q ∷ qs) (r ∷ rs) v w = (Woke-trans v.0 w.0, AllWoke-trans ps qs rs v.1 w.1)

wake_slot-Woke : (c : Chan) (p : Proc) → Woke p.state (wake_slot c p).state
wake_slot-Woke c p = ground (arith, sleeping_state p.state)

pub wakeup1-AllWoke : (c : Chan) (ps : Table) → AllWoke ps (wakeup1 c ps)
unfolding wakeup1
wakeup1-AllWoke c [] = tt
wakeup1-AllWoke c (p ∷ ps) = (wake_slot-Woke c p, wakeup1-AllWoke c ps)

handed-AllWoke :
    (init j : ℕ) (ps : Table) → AllWoke ps (modify (λ q. record q { parent = some init }) j ps)
handed-AllWoke init j [] = tt
handed-AllWoke init zero (p ∷ ps) = (inl refl, AllWoke-refl ps)
handed-AllWoke init (suc j) (p ∷ ps) = (inl refl, handed-AllWoke init j ps)

adopt-cases :
    (i init j : ℕ) (ps : Table)
    → let handed = modify (λ q. record q { parent = some init }) j ps in
      (adopt i init j ps ≡ ps)
      ⊎ (adopt i init j ps ≡ handed)
      ⊎ (adopt i init j ps ≡ wakeup1 (of_proc init) handed)
adopt-cases i init j ps = ground arith

adopt-AllWoke : (i init j : ℕ) (ps : Table) → AllWoke ps (adopt i init j ps)
adopt-AllWoke i init j ps =
    let handed = handed-AllWoke init j ps in
    elim (adopt-cases i init j ps) [
      | inl e ↦ subst (AllWoke ps) (sym e) (AllWoke-refl ps)
      | inr (inl e) ↦ subst (AllWoke ps) (sym e) handed
      | inr (inr e) ↦
          subst (AllWoke ps) (sym e)
            (AllWoke-trans ps _ _ handed (wakeup1-AllWoke (of_proc init) _))
    ]

pub reparent-AllWoke : (i init k j : ℕ) (ps : Table) → AllWoke ps (reparent i init k j ps)
unfolding reparent
reparent-AllWoke i init zero j ps = AllWoke-refl ps
reparent-AllWoke i init (suc k) j ps =
    AllWoke-trans ps (adopt i init j ps) _ (adopt-AllWoke i init j ps)
      (reparent-AllWoke i init k (suc j) (adopt i init j ps))

-- A slot that runs becomes a zombie, whoever was woken meanwhile.
Woke-Next : {s t : ProcState} → Woke s t → Next s t
Woke-Next {s} (inl e) = subst (Next s) (sym e) (stays s)
Woke-Next {s} {t} (inr (e, f)) = subst (λ u. Next u t) (sym e) (subst (Next sleeping) (sym f) woken)

AllWoke-Moves : (ps qs : Table) → AllWoke ps qs → Moves ps qs
AllWoke-Moves [] [] w = tt
AllWoke-Moves [] (q ∷ qs) w = w
AllWoke-Moves (p ∷ ps) [] w = w
AllWoke-Moves (p ∷ ps) (q ∷ qs) w = (Woke-Next w.0, AllWoke-Moves ps qs w.1)

pub zombie-Moves :
    (i : ℕ) (ps qs : Table)
    → AllWoke ps qs
    → IsIn running i ps
    → Moves ps (modify (λ p. record p { state = zombie }) i qs)
zombie-Moves i [] [] w run = tt
zombie-Moves i [] (q ∷ qs) w run = absurd w
zombie-Moves i (p ∷ ps) [] w run = absurd w
zombie-Moves zero (p ∷ ps) (q ∷ qs) w run =
    (subst (λ s. Next s zombie) (sym (run p refl)) exited, AllWoke-Moves ps qs w.1)
zombie-Moves (suc i) (p ∷ ps) (q ∷ qs) w run = (Woke-Next w.0, zombie-Moves i ps qs w.1 run)

pub to_next :
    (s t : ProcState) (f : Proc → Proc) (i : ℕ) (ps : Table)
    → Next s t
    → ((p : Proc) → (f p).state ≡ t)
    → IsIn s i ps
    → Moves ps (modify f i ps)
to_next s t f i ps n h run =
    modify-Moves f i ps
      (λ p e. subst (Next p.state) (sym (h p)) (subst (λ u. Next u t) (sym (run p e)) n))
