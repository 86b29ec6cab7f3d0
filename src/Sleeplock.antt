-- ===== src/Sleeplock.antt =====
-- system/sync/sleeplock.c: the lock that a process keeps while it sleeps on other things, with the
-- process table. Each body runs under the lock's spin lock; `acquiresleep` is cut where it sleeps.
pub mod Wakeups
mod Examples
use dave.Common.{ℕ, Bool, true, false, ◌&&◌, if◌then◌else◌, ◌==◌}
use dave.Proc.{Table, Chan, at, wakeup, sleep_enter}

pub record SleepLock : Type 0 where
  pub addr : ℕ
  pub locked : Bool
  pub pid : ℕ

abbrev pub lock_chan : SleepLock → Chan
lock_chan lk = at lk.addr

unfoldable pub initsleeplock : SleepLock → SleepLock
initsleeplock lk = record lk { locked = false; pid = 0 }

-- One round of `acquiresleep` by the process in a slot: whether it has the lock now.
unfoldable pub acquiresleep : ℕ → ℕ → SleepLock → Table → Bool × SleepLock × Table
acquiresleep caller pid lk ps =
    if lk.locked
    then (false, lk, sleep_enter caller (lock_chan lk) ps)
    else (true, record lk { locked = true; pid = pid }, ps)

unfoldable pub releasesleep : SleepLock → Table → SleepLock × Table
releasesleep lk ps = (record lk { locked = false; pid = 0 }, wakeup (lock_chan lk) ps)

unfoldable pub holdingsleep : ℕ → SleepLock → Bool
holdingsleep pid lk = lk.locked && lk.pid == pid
