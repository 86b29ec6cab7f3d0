-- ===== src/Proc.antt =====
-- The process table of system/core/proc.c and include/proc.h. A `struct proc *` into the table is
-- the index of its slot. What sleeps on the address of a slot sleeps on `of_proc`, and what sleeps
-- on another object on `at` its address. Every body here runs under `ptable.lock`.
pub mod Wake
pub mod Moves
pub mod Alloc
pub mod Family
pub mod Waits
pub mod Life
pub mod Schedule
pub mod Examples
use dave.Common.{
  ℕ, zero, suc, ◌+◌, ◌-◌, ◌*◌, Bool, true, false, ◌&&◌, ◌||◌, not, List, [], ◌∷◌, Option, none,
  some, Result, ok, panic, if◌then◌else◌, ◌==◌, add32, update, set, replicate, get_elem?,
}
use dave.Kalloc.{Kmem, kalloc, kfree}

pub data ProcState : Type 0 where
  unused embryo sleeping runnable running zombie : ProcState

abbrev pub is_unused : ProcState → Bool
is_unused unused = true
is_unused _ = false

abbrev pub is_sleeping : ProcState → Bool
is_sleeping sleeping = true
is_sleeping _ = false

abbrev pub is_runnable : ProcState → Bool
is_runnable runnable = true
is_runnable _ = false

abbrev pub is_zombie : ProcState → Bool
is_zombie zombie = true
is_zombie _ = false

abbrev pub is_running : ProcState → Bool
is_running running = true
is_running _ = false

pub data Chan : Type 0 where
  null : Chan
  of_proc : ℕ → Chan
  at : ℕ → Chan

abbrev pub same_chan : Chan → Chan → Bool
same_chan null null = true
same_chan (of_proc i) (of_proc j) = i == j
same_chan (at a) (at b) = a == b
same_chan _ _ = false

-- `struct proc`. `tf` and `context` are addresses in the kernel stack; the name has 16 bytes.
pub record Proc : Type 0 where
  pub sz : ℕ
  pub pgdir : ℕ
  pub kstack : ℕ
  pub state : ProcState
  pub pid : ℕ
  pub parent : Option ℕ
  pub tf : ℕ
  pub context : ℕ
  pub chan : Chan
  pub killed : Bool
  pub ofile : List (Option ℕ)
  pub cwd : Option ℕ
  pub name : List ℕ

abbrev pub Table : Type 0
Table = List Proc

-- One slot of `wakeup1`'s loop.
abbrev pub wake_slot : Chan → Proc → Proc
wake_slot c p =
    if is_sleeping p.state && same_chan p.chan c then record p { state = runnable } else p

unfoldable pub wakeup1 : Chan → Table → Table
wakeup1 c [] = []
wakeup1 c (p ∷ ps) = wake_slot c p ∷ wakeup1 c ps

unfoldable pub wakeup : Chan → Table → Table
wakeup c ps = wakeup1 c ps

-- The first slot with the pid is marked, and woken if it sleeps.
abbrev pub kill_slot : Proc → Proc
kill_slot p = record p { killed = true; state = if is_sleeping p.state then runnable else p.state }

-- The result is whether `kill` returns 0.
unfoldable pub kill : ℕ → Table → Bool × Table
kill pid [] = (false, [])
kill pid (p ∷ ps) =
    let rest = kill pid ps in
    if p.pid == pid then (true, kill_slot p ∷ ps) else (rest.0, p ∷ rest.1)

-- A change of one slot; nothing happens past the end of the table.
abbrev pub modify : (Proc → Proc) → ℕ → Table → Table
modify f i [] = []
modify f zero (p ∷ ps) = f p ∷ ps
modify f (suc i) (p ∷ ps) = p ∷ modify f i ps

-- `sleep` up to the switch, and after it. The caller's lock is let go and taken again in between.
unfoldable pub sleep_enter : ℕ → Chan → Table → Table
sleep_enter i c = modify (λ p. record p { chan = c; state = sleeping }) i

unfoldable pub sleep_leave : ℕ → Table → Table
sleep_leave i = modify (λ p. record p { chan = null }) i

-- `yield` up to the switch.
unfoldable pub yield_enter : ℕ → Table → Table
yield_enter i = modify (λ p. record p { state = runnable }) i

-- The first slot that is UNUSED, counted from `i`.
unfoldable pub find_unused : Table → ℕ → Option ℕ
find_unused [] i = none
find_unused (p ∷ ps) i =
    let rest = find_unused ps (suc i) in if is_unused p.state then some i else rest

pub record Kernel : Type 0 where
  pub table : Table
  pub nextpid : ℕ
  pub kmem : Kmem

abbrev pub trapframe_size : ℕ
trapframe_size = 76

abbrev pub context_size : ℕ
context_size = 20

-- The trap frame and the context at the top of a fresh kernel stack.
abbrev pub stack_tf : ℕ → ℕ
stack_tf kstack = kstack + 4096 - trapframe_size

abbrev pub stack_context : ℕ → ℕ
stack_context kstack = stack_tf kstack - 4 - context_size

-- `memset` of the five words of the context, then `eip`, the last of them.
abbrev pub clear_context : ℕ → ℕ → (ℕ → ℕ) → ℕ → ℕ
clear_context c forkret w =
    update (update (update (update (update w c 0) (c + 4) 0) (c + 8) 0) (c + 12) 0) (c + 16) forkret

-- `allocproc`; `trapret` and `forkret` are the addresses of the two functions.
unfoldable pub allocproc : ℕ → ℕ → Kernel → Option ℕ × Kernel
allocproc trapret forkret y = elim (find_unused y.table 0) [
  | none ↦ (none, y)
  | some i ↦
      let born = modify (λ p. record p { state = embryo; pid = y.nextpid }) i y.table in
      let next = add32 y.nextpid 1 in
      let (page, kmem) = kalloc y.kmem in
      if page == 0
      then (
        none,
        record {
          table = modify (λ p. record p { kstack = 0; state = unused }) i born;
          nextpid = next;
          kmem = kmem;
        },
      )
      else (
        some i,
        record {
          table =
              modify
                (λ p. record p { kstack = page; tf = stack_tf page; context = stack_context page })
                i born;
          nextpid = next;
          kmem = record kmem {
            words =
                clear_context (stack_context page) forkret
                  (update kmem.words (stack_tf page - 4) trapret);
          };
        },
      )
]

abbrev pub has_parent : ℕ → Proc → Bool
has_parent i p = elim p.parent [ none ↦ false | some j ↦ j == i ]

abbrev pub parent_chan : Option ℕ → Chan
parent_chan none = null
parent_chan (some j) = of_proc j

-- One slot of the loop in which `exit` hands its children to `init`.
abbrev pub adopt : ℕ → ℕ → ℕ → Table → Table
adopt i init j ps = elim (get_elem? ps j) [
  | none ↦ ps
  | some p ↦
      let handed = modify (λ q. record q { parent = some init }) j ps in
      if has_parent i p
      then (if is_zombie p.state then wakeup1 (of_proc init) handed else handed)
      else ps
]

unfoldable pub reparent : ℕ → ℕ → ℕ → ℕ → Table → Table
reparent i init zero j ps = ps
reparent i init (suc k) j ps = reparent i init k (suc j) (adopt i init j ps)

-- `exit` of slot `i` from the point where it takes `ptable.lock`, up to the switch.
unfoldable pub exit_enter : ℕ → ℕ → ℕ → Option ℕ → Table → Table
unfolding reparent wakeup1
exit_enter nproc i init parent ps =
    modify (λ p. record p { state = zombie }) i
      (reparent i init nproc 0 (wakeup1 (parent_chan parent) ps))

-- What one round of `wait` comes to.
pub data Waited : Type 0 where
  reaped : ℕ → Waited
  failed : Waited
  blocked : Waited

abbrev pub reap_slot : Proc → Proc
reap_slot p = record p {
  kstack = 0;
  pid = 0;
  parent = none;
  name = set p.name 0 0;
  killed = false;
  state = unused;
}

-- The scan of `wait`: the first zombie child, and whether a child was seen before it.
unfoldable pub find_zombie : ℕ → Table → ℕ → Bool → Option (ℕ × Proc) × Bool
find_zombie i [] j seen = (none, seen)
find_zombie i (p ∷ ps) j seen =
    let rest = find_zombie i ps (suc j) (seen || has_parent i p) in
    if has_parent i p && is_zombie p.state then (some (j, p), true) else rest

-- One round of `wait` by slot `i`. `freevm` is that of system/memory/vm.c.
module _ (kernel_end : ℕ) (freevm : ℕ → Kmem → Result Kmem) where
  abbrev pub freed : ℕ → ℕ → Kmem → Result Kmem
  freed kstack pgdir k = elim (kfree kernel_end kstack k) [
    | panic ↦ panic
    | ok k' ↦ freevm pgdir k'
  ]

  unfoldable pub wait_free : Kernel → ℕ → Proc → Result Kmem → Result (Waited × Kernel)
  wait_free y j p panic = panic
  wait_free y j p (ok k) =
      ok (reaped p.pid, record y { table = modify reap_slot j y.table; kmem = k })

  unfoldable pub wait_decide :
      ℕ → Bool → Kernel → Option (ℕ × Proc) × Bool → Result (Waited × Kernel)
  unfolding wait_free
  wait_decide i killed y (some (j, p), havekids) = wait_free y j p (freed p.kstack p.pgdir y.kmem)
  wait_decide i killed y (none, havekids) =
      if not havekids || killed
      then ok (failed, y)
      else ok (blocked, record y { table = sleep_enter i (of_proc i) y.table })

  unfoldable pub wait_round : ℕ → Bool → Kernel → Result (Waited × Kernel)
  wait_round i killed y = wait_decide i killed y (find_zombie i y.table 0 false)

-- What a CPU sees of the table: the slots, and the process that it runs.
pub record Machine : Type 0 where
  pub table : Table
  pub current : Option ℕ

-- One pass of `scheduler` over the table with `k` slots left from `j` on. `run j` is what happens
-- from the switch to slot `j` until the CPU comes back; `seen` has the slots that ran, latest first.
module _ (run : ℕ → Machine → Machine) where
  unfoldable pub schedule : ℕ → ℕ → Machine → List ℕ → Machine × List ℕ
  schedule zero j w seen = (w, seen)
  schedule (suc k) j w seen = elim (get_elem? w.table j) [
    | none ↦ (w, seen)
    | some p ↦
        let dispatched : Machine = record {
          table = modify (λ q. record q { state = running }) j w.table;
          current = some j;
        } in
        let back : Machine = record (run j dispatched) { current = none } in
        let skip = schedule k (suc j) w seen in
        let chosen = schedule k (suc j) back (j ∷ seen) in
        if is_runnable p.state then chosen else skip
  ]
