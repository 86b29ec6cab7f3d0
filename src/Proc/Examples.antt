-- ===== src/Proc/Examples.antt =====
-- Concrete runs of the process table: init in slot 0, a child that runs in slot 1, and an unused
-- slot.
use dave.Common.{
  ℕ, zero, suc, ◌≤◌, ◌≡◌, refl, arith, false, [], ◌∷◌, none, some, Result, ok, update, get_elem?,
  replicate,
}
use dave.Kalloc.{Kmem, kfree, junk}
use dave.Kalloc.Examples.{two_pages, bottom}
use dave.Proc.{
  Proc, Table, null, of_proc, unused, sleeping, runnable, running, zombie, Kernel, exit_enter,
  wait_round, wait_decide, find_zombie, reaped, reap_slot, has_parent, Machine, schedule,
}
use dave.Proc.Moves.{Moves}
use dave.Proc.Life.{waits, Step-Moves}
use dave.Proc.Family.{exit_no_orphans}
use dave.Proc.Schedule.{IsFair, HasRun, schedule_fair}

abbrev pub blank : Proc
blank = record {
  sz = 0;
  pgdir = 0;
  kstack = 0;
  state = unused;
  pid = 0;
  parent = none;
  tf = 0;
  context = 0;
  chan = null;
  killed = false;
  ofile = replicate 16 none;
  cwd = none;
  name = replicate 16 0;
}

abbrev init_proc : Proc
init_proc = record blank { pid = 1; state = sleeping; chan = of_proc 0 }

abbrev child : Proc
child = record blank { pid = 2; state = running; parent = some 0 }

abbrev three_slots : Table
three_slots = init_proc ∷ child ∷ blank ∷ []

abbrev kernel : Kernel
kernel = record { table = three_slots; nextpid = 3; kmem = two_pages }

exit_wakes_init :
    get_elem? (exit_enter 3 1 0 (some 0) three_slots) 0
    ≡ some (record init_proc { state = runnable })
unfolding exit_enter
exit_wakes_init = refl

exit_no_orphans_example :
    (has_parent 1 (record child { state = zombie }) ≡ false)
    × (◌≡◌ {A = ℕ} 1 1 → (record child { state = zombie }).state ≡ zombie)
unfolding exit_enter
exit_no_orphans_example =
    exit_no_orphans 3 1 0 (some 0) three_slots 1 (record child { state = zombie }) (omega arith)
      (omega arith) refl

-- The child has exited; its stack is a page, and its address space is freed by a stand-in.
abbrev exited_kernel : Kernel
exited_kernel = record kernel {
  table = init_proc ∷ record child { state = zombie; kstack = 0x80103000 } ∷ blank ∷ [];
}

abbrev freevm : ℕ → Kmem → Result Kmem
freevm pgdir k = ok k

abbrev reaped_kernel : Kernel
reaped_kernel = record kernel {
  table = init_proc ∷ reap_slot (record child { state = zombie; kstack = 0x80103000 }) ∷ blank ∷ [];
  kmem = record two_pages {
    freelist = 0x80103000;
    words = update (junk 0x80103000 two_pages.words) 0x80103000 0x80101000;
  };
}

-- Init runs in its slot and waits for the child.
abbrev waiting_kernel : Kernel
waiting_kernel = record exited_kernel {
  table =
      record init_proc { state = running }
      ∷ record child { state = zombie; kstack = 0x80103000 }
      ∷ blank
      ∷ [];
}

abbrev waited_kernel : Kernel
waited_kernel = record reaped_kernel {
  table =
      record init_proc { state = running }
      ∷ reap_slot (record child { state = zombie; kstack = 0x80103000 })
      ∷ blank
      ∷ [];
}

init_runs : (p : Proc) → get_elem? waiting_kernel.table 0 ≡ some p → p.state ≡ running
init_runs p e = ground arith

Step-Moves_example : Moves waiting_kernel.table waited_kernel.table
unfolding wait_round wait_decide find_zombie kfree
Step-Moves_example =
    Step-Moves (waits waiting_kernel waited_kernel bottom freevm 0 false (reaped 2) init_runs refl)

-- Two runnable processes, each of which gives the CPU back at once.
abbrev machine : Machine
machine = record {
  table = record blank { state = runnable } ∷ record blank { state = runnable } ∷ [];
  current = none;
}

abbrev give_back : ℕ → Machine → Machine
give_back j w = w

give_back-IsFair : IsFair give_back
give_back-IsFair = record { keeps = λ i j w ne r. r; stays = λ i j w p e. (p, e) }

machine_full : (j : ℕ) → j ≤ 1 → (p : Proc) × (get_elem? machine.table j ≡ some p)
machine_full zero le = (record blank { state = runnable }, refl)
machine_full (suc zero) le = (record blank { state = runnable }, refl)
machine_full (suc (suc j)) le = absurd (omega arith)

schedule_example : HasRun 1 (schedule give_back 2 0 machine []).1
schedule_example =
    schedule_fair give_back 1 2 machine give_back-IsFair (omega arith) machine_full
      (record blank { state = runnable }, refl, refl)
