-- ===== src/Sleeplock/Wakeups.antt =====
-- Processes that compete for a sleep lock of system/sync/sleeplock.c.
use dave.Common.{ℕ, ◌≡◌, arith, true, false, Bool-cases, inl, inr}
use dave.Proc.{Table}
use dave.Proc.Wake.{NoSleeper, wakeup-NoSleeper}
use dave.Sleeplock.{SleepLock, lock_chan, acquiresleep, releasesleep, holdingsleep}

-- The lock and the process table.
pub record World : Type 0 where
  pub lock : SleepLock
  pub procs : Table

-- A round of `acquiresleep` by any process, or `releasesleep` by the process that has the lock.
pub data Step : World → World → Type 0 where
  acquires :
      (caller pid : ℕ) (w : World)
      → Step w (
          let (got, lk, ps) = acquiresleep caller pid w.lock w.procs in
          record { lock = lk; procs = ps })
  releases :
      (pid : ℕ) (w : World)
      → holdingsleep pid w.lock ≡ true
      → Step w (let (lk, ps) = releasesleep w.lock w.procs in record { lock = lk; procs = ps })

pub data Reach : World → World → Type 0 where
  here : (w : World) → Reach w w
  next : (u v w : World) → Reach u v → Step v w → Reach u w

-- Nobody sleeps on a lock that is free.
abbrev pub IsAwake : World → Type 0
IsAwake w = w.lock.locked ≡ false → NoSleeper (lock_chan w.lock) w.procs

Step-IsAwake : (v w : World) → Step v w → IsAwake v → IsAwake w
unfolding acquiresleep releasesleep
Step-IsAwake v w (acquires caller pid _) h = elim (Bool-cases v.lock.locked) [
  | inl taken ↦ λ free. ground (arith, taken, free)
  | inr open_now ↦ λ free. ground (arith, open_now, free)
]
Step-IsAwake v w (releases pid _ mine) h = λ free. wakeup-NoSleeper (lock_chan v.lock) v.procs

Reach-IsAwake : (v w : World) → Reach v w → IsAwake v → IsAwake w
Reach-IsAwake v w (here _) h = h
Reach-IsAwake v w (next _ u _ r step) h = Step-IsAwake u w step (Reach-IsAwake v u r h)

-- Whatever rounds of `acquiresleep` and `releasesleep` any processes run, from a state
-- in which nobody sleeps on the lock while it is free: when the lock is free, no process sleeps on it.
pub Reach-NoSleeper :
    (v w : World)
    → Reach v w
    → IsAwake v
    → w.lock.locked ≡ false
    → NoSleeper (lock_chan w.lock) w.procs
Reach-NoSleeper v w r h free = Reach-IsAwake v w r h free
