-- ===== src/Proc/Life.antt =====
-- The life of a process under the operations of system/core/proc.c, one after another in any order.
use dave.Common.{
  of_some, Bool, ℕ, zero, suc, ◌≡◌, refl, arith, true, [], ◌∷◌, Option, none, some, Option-cases,
  get_elem?, ◌∙◌, sym, ap, inl, inr, Bool-cases, subst, Result, ok, ◌==◌,
}
use dave.Kalloc.{Kmem, kalloc}
use dave.Proc.{
  Proc, Table, Chan, ProcState, unused, embryo, sleeping, runnable, running, zombie, is_unused,
  is_runnable, is_zombie, wakeup1, kill, modify, sleep_enter, sleep_leave, yield_enter, exit_enter,
  parent_chan, Kernel, find_unused, allocproc, reap_slot, Waited, reaped, failed, blocked,
  wait_round, Machine, schedule,
}
use dave.Proc.Moves.{
  Next, stays, allocated, dispatched, yielded, slept, collected, Moves, Moves-refl, wakeup1-Moves,
  kill-Moves, modify-Moves, IsIn, wakeup1-AllWoke, reparent-AllWoke, AllWoke-trans, zombie-Moves,
  to_next,
}
use dave.Proc.Alloc.{find_unused_lem, allocproc-full, allocproc-lost, allocproc-given}
use dave.Proc.Waits.{WaitSpec, wait_lem}

abbrev waiting : ℕ → Machine → Machine
waiting j w = w

-- The table after the scheduler has looked at the slot `j`, up to the switch to it if it takes it.
abbrev pub dispatch : ℕ → Table → Table
dispatch j ps = (schedule waiting 1 j (record { table = ps; current = none }) []).0.table

abbrev pub with_table : Kernel → Table → Kernel
with_table y ps = record y { table = ps }

-- The operations of proc.c: those of the process on the CPU in slot `i`, those on behalf of an
-- interrupt or of any process, and those of the scheduler.
pub data Step : Kernel → Kernel → Type 0 where
  wakes : (y : Kernel) (c : Chan) → Step y (with_table y (wakeup1 c y.table))
  kills : (y : Kernel) (pid : ℕ) → Step y (with_table y (kill pid y.table).1)
  sleeps :
      (y : Kernel) (i : ℕ) (c : Chan)
      → IsIn running i y.table
      → Step y (with_table y (sleep_enter i c y.table))
  leaves : (y : Kernel) (i : ℕ) → Step y (with_table y (sleep_leave i y.table))
  yields :
      (y : Kernel) (i : ℕ) → IsIn running i y.table → Step y (with_table y (yield_enter i y.table))
  exits :
      (y : Kernel) (nproc i init : ℕ) (parent : Option ℕ)
      → IsIn running i y.table
      → Step y (with_table y (exit_enter nproc i init parent y.table))
  births : (y : Kernel) (trapret forkret : ℕ) → Step y (allocproc trapret forkret y).1
  waits :
      (y z : Kernel) (kernel_end : ℕ) (freevm : ℕ → Kmem → Result Kmem) (i : ℕ) (killed : Bool)
      (w : Waited)
      → IsIn running i y.table
      → wait_round kernel_end freevm i killed y ≡ ok (w, z)
      → Step y z
  dispatches : (y : Kernel) (j : ℕ) → Step y (with_table y (dispatch j y.table))

unused_state : (s : ProcState) → is_unused s ≡ true → s ≡ unused
unused_state unused e = refl
unused_state embryo e = cc
unused_state sleeping e = cc
unused_state runnable e = cc
unused_state running e = cc
unused_state zombie e = cc

runnable_state : (s : ProcState) → is_runnable s ≡ true → s ≡ runnable
runnable_state runnable e = refl
runnable_state embryo e = cc
runnable_state sleeping e = cc
runnable_state unused e = cc
runnable_state running e = cc
runnable_state zombie e = cc

zombie_state : (s : ProcState) → is_zombie s ≡ true → s ≡ zombie
zombie_state zombie e = refl
zombie_state embryo e = cc
zombie_state sleeping e = cc
zombie_state runnable e = cc
zombie_state running e = cc
zombie_state unused e = cc

-- Who stands in a slot is in the state that was found there.
found-IsIn :
    (s : ProcState) (i : ℕ) (ps : Table) (p : Proc)
    → get_elem? ps i ≡ some p
    → p.state ≡ s
    → IsIn s i ps
found-IsIn s i ps p here e q there = ap (λ (r : Proc). r.state) (of_some (sym there ∙ here)) ∙ e

modify-modify :
    (f g : Proc → Proc) (i : ℕ) (ps : Table)
    → modify g i (modify f i ps) ≡ modify (λ p. g (f p)) i ps
modify-modify f g i [] = refl
modify-modify f g zero (p ∷ ps) = refl
modify-modify f g (suc i) (p ∷ ps) = ap (λ (l : Table). p ∷ l) (modify-modify f g i ps)

-- Two changes of the same slot, from the state `s` to the state `t` in all.
twice-Moves :
    (s t : ProcState) (f g : Proc → Proc) (i : ℕ) (ps : Table)
    → Next s t
    → ((p : Proc) → (g (f p)).state ≡ t)
    → IsIn s i ps
    → Moves ps (modify g i (modify f i ps))
twice-Moves s t f g i ps n h at =
    subst (Moves ps) (sym (modify-modify f g i ps)) (to_next s t (λ p. g (f p)) i ps n h at)

-- `allocproc` takes a slot that is unused, if it takes one.
allocproc-Moves :
    (trapret forkret : ℕ) (y : Kernel) → Moves y.table (allocproc trapret forkret y).1.table
allocproc-Moves trapret forkret y = elim (find_unused_lem y.table 0) [
  | inr (e, _) ↦ after (sym (allocproc-full trapret forkret y e)) (Moves-refl y.table)
  | inl (i, p, e, here, free, _) ↦
      let found : find_unused y.table 0 ≡ some i = e ∙ ap some (omega arith) in
      let was = found-IsIn unused i y.table p here (unused_state p.state free) in
      elim (Bool-cases ((kalloc y.kmem).0 == 0)) [
        | inl z ↦
            after (sym (allocproc-lost trapret forkret y i found (ground arith)))
              (twice-Moves unused unused _ _ i y.table (stays unused) (λ q. refl) was)
        | inr z ↦
            after (sym (allocproc-given trapret forkret y i found z))
              (twice-Moves unused embryo _ _ i y.table allocated (λ q. refl) was)
      ]
]
  where
    after : {r r' : Option ℕ × Kernel} → r ≡ r' → Moves y.table r.1.table → Moves y.table r'.1.table
    after e m = subst (λ (r : Option ℕ × Kernel). Moves y.table r.1.table) e m

-- A round of `wait` reaps a zombie, sleeps, or changes nothing.
wait-Moves :
    (kernel_end : ℕ) (freevm : ℕ → Kmem → Result Kmem) (i : ℕ) (killed : Bool) (y z : Kernel)
    (w : Waited)
    → IsIn running i y.table
    → WaitSpec kernel_end freevm i killed y w z
    → Moves y.table z.table
unfolding sleep_enter
wait-Moves kernel_end freevm i killed y z (reaped pid) run (k, p, (here, _, dead), _, same, _) =
    subst (Moves y.table) (sym same) (
      to_next zombie unused reap_slot k y.table collected (λ q. refl)
        (found-IsIn zombie k y.table p here (zombie_state p.state dead)))
wait-Moves kernel_end freevm i killed y z failed run (same, _, _) =
    subst (λ (x : Kernel). Moves y.table x.table) (sym same) (Moves-refl y.table)
wait-Moves kernel_end freevm i killed y z blocked run (same, _, _) =
    subst (λ (x : Kernel). Moves y.table x.table) (sym same)
      (to_next running sleeping _ i y.table slept (λ q. refl) run)

-- The scheduler takes a slot only if it is runnable.
dispatch-Moves : (j : ℕ) (ps : Table) → Moves ps (dispatch j ps)
unfolding schedule
dispatch-Moves j ps = elim (Option-cases (get_elem? ps j)) [
  | inl e ↦ rw (e, dispatch) (Moves-refl ps)
  | inr (p, e) ↦ elim (Bool-cases (is_runnable p.state)) [
    | inl takes ↦
        rw (e, takes, dispatch)
          (to_next runnable running _ j ps dispatched (λ q. refl)
            (found-IsIn runnable j ps p e (runnable_state p.state takes)))
    | inr skips ↦ rw (e, skips, dispatch) (Moves-refl ps)
  ]
]

exit-Moves :
    (nproc i init : ℕ) (parent : Option ℕ) (ps : Table)
    → IsIn running i ps
    → Moves ps (exit_enter nproc i init parent ps)
unfolding exit_enter
exit-Moves nproc i init parent ps run =
    let woken_table : Table = wakeup1 (parent_chan parent) ps in
    zombie-Moves i ps _
      (AllWoke-trans ps woken_table _ (wakeup1-AllWoke (parent_chan parent) ps)
        (reparent-AllWoke i init nproc 0 woken_table))
      run

-- `wakeup1`, `kill`, `sleep` up to its switch and after it, `yield`, the locked part of `exit`,
-- `allocproc`, a round of `wait` and the scheduler up to its switch move each process along the life
-- cycle, by at most one change of state: it is allocated when unused, dispatched when runnable,
-- yields, sleeps or exits when running, is woken when asleep, and is collected when a zombie.
pub Step-Moves : {y z : Kernel} → Step y z → Moves y.table z.table
unfolding sleep_enter sleep_leave yield_enter
Step-Moves (wakes y c) = wakeup1-Moves c y.table
Step-Moves (kills y pid) = kill-Moves pid y.table
Step-Moves (sleeps y i c run) = to_next running sleeping _ i y.table slept (λ p. refl) run
Step-Moves (leaves y i) = modify-Moves _ i y.table (λ p e. stays p.state)
Step-Moves (yields y i run) = to_next running runnable _ i y.table yielded (λ p. refl) run
Step-Moves (exits y nproc i init parent run) = exit-Moves nproc i init parent y.table run
Step-Moves (births y trapret forkret) = allocproc-Moves trapret forkret y
Step-Moves (waits y z kernel_end freevm i killed w run e) =
    wait-Moves kernel_end freevm i killed y z w run (wait_lem kernel_end freevm i killed y z w e)
Step-Moves (dispatches y j) = dispatch-Moves j y.table
