-- ===== src/Sleeplock/Examples.antt =====
-- Process 5 takes a sleep lock, and process 6 goes to sleep on it and is woken by the release.
use dave.Common.{zero, suc, ◌≡◌, refl, arith, of_some, true, false, [], ◌∷◌}
use dave.Proc.{running}
use dave.Proc.Examples.{blank}
use dave.Proc.Wake.{NoSleeper}
use dave.Sleeplock.{lock_chan, acquiresleep, releasesleep, holdingsleep}
use dave.Sleeplock.Wakeups.{World, acquires, releases, Reach, here, next, IsAwake, Reach-NoSleeper}

abbrev start : World
start = record {
  lock = record { addr = 0x80120000; locked = false; pid = 0 };
  procs =
      record blank { pid = 5; state = running } ∷ record blank { pid = 6; state = running } ∷ [];
}

start-IsAwake : IsAwake start
start-IsAwake free zero p e s = ground (arith, of_some e)
start-IsAwake free (suc zero) p e s = ground (arith, of_some e)
start-IsAwake free (suc (suc i)) p e s = cc

abbrev taken : World
taken =
    let (got, lk, ps) = acquiresleep 0 5 start.lock start.procs in record { lock = lk; procs = ps }

abbrev waited : World
waited =
    let (got, lk, ps) = acquiresleep 1 6 taken.lock taken.procs in record { lock = lk; procs = ps }

abbrev freed : World
freed = let (lk, ps) = releasesleep waited.lock waited.procs in record { lock = lk; procs = ps }

holds : holdingsleep 5 waited.lock ≡ true
unfolding holdingsleep acquiresleep
holds = refl

run_of_three : Reach start freed
run_of_three =
    next start waited freed
      (next start taken waited (next start start taken (here start) (acquires 0 5 start))
        (acquires 1 6 taken))
      (releases 5 waited holds)

is_free : freed.lock.locked ≡ false
unfolding releasesleep
is_free = refl

Reach-NoSleeper_example : NoSleeper (lock_chan freed.lock) freed.procs
Reach-NoSleeper_example = Reach-NoSleeper start freed run_of_three start-IsAwake is_free
