-- ===== src/Log/Examples.antt =====
-- Concrete runs of the log: one dirty block 40 in a log of 31 blocks that starts at block 2.
use dave.Common.{
  ℕ, zero, suc, ◌<◌, ◌≡◌, ◌≢◌, ◌⊎◌, refl, arith, true, false, [], ◌∷◌, panic, update, get_or, set,
  replicate,
}
use dave.Log.{
  absorb, set_data, Block, Log, Store, logged, commit, recover_from_log, log_write, begin_op,
  write_head, install_trans, install_from, read_head, copy_block, write_log, write_log_from,
  store_words, load_words,
}
use dave.Log.Replay.{logical, IsHome, is_logged}
use dave.Log.Phases.{IsValid}
use dave.Log.Commit.{commit_atomic, commit_installs}
use dave.Log.Recover.{IsBootable, reboot}
use dave.Log.Boot.{recover_again, crash_recovery}
use dave.Log.Shares.{has}
use dave.Log.Reserve.{System, Reach, here, next, begins, writes, IsReserved, log_write_never_panics}

abbrev zeros : Block
zeros = replicate 128 0

abbrev small_log : Log
small_log = record {
  start = 2;
  size = 31;
  dev = 1;
  outstanding = 1;
  committing = false;
  n = 1;
  block = set (replicate 30 0) 0 40;
}

abbrev one_dirty : ℕ → Store
one_dirty power = record {
  disk = λ b. zeros;
  buf = update (λ b. zeros) 40 (7 ∷ []);
  dirty = update (λ b. false) 40 true;
  power = power;
}

small-IsHome : (i : ℕ) → i < 1 → IsHome small_log (logged small_log i)
small-IsHome zero lt = omega arith
small-IsHome (suc i) lt = absurd (omega arith)

small-IsValid : (power : ℕ) → IsValid small_log (one_dirty power)
small-IsValid power = record {
  room = omega arith;
  fits = omega arith;
  entries = refl;
  words = refl;
  home = small-IsHome;
  clear = refl;
  synced = λ b miss. ground arith;
  pinned = λ b. ground arith;
}

-- After two of the four writes the header is on the disk, and the recovery installs the block;
-- after one it is not, and the old contents stay.
abbrev after_crash : ℕ → Block
after_crash power =
    (recover_from_log small_log (reboot 40 (commit small_log (one_dirty power)).1)).1.disk 40

crash_at_one_or_two : (after_crash 1 ≡ zeros) × (after_crash 2 ≡ 7 ∷ [])
unfolding commit recover_from_log write_head install_trans install_from read_head copy_block
    write_log write_log_from store_words load_words
crash_at_one_or_two = (refl, refl)

commit_atomic_example :
    ((h : ℕ) → IsHome small_log h → logical 2 (commit small_log (one_dirty 3)).1.disk h ≡ zeros)
    ⊎ ((h : ℕ)
        → IsHome small_log h
        → logical 2 (commit small_log (one_dirty 3)).1.disk h ≡ (one_dirty 3).buf h)
commit_atomic_example = commit_atomic small_log (one_dirty 3) (small-IsValid 3)

commit_installs_example : (commit small_log (one_dirty 4)).0.n ≡ 0
commit_installs_example =
    (commit_installs small_log (one_dirty 4) (small-IsValid 4) (omega arith)).1

crash_recovery_example :
    let s' = (recover_from_log small_log (reboot 40 (commit small_log (one_dirty 2)).1)).1 in
    ((h : ℕ) → IsHome small_log h → s'.disk h ≡ zeros)
    ⊎ ((h : ℕ) → IsHome small_log h → s'.disk h ≡ (one_dirty 2).buf h)
crash_recovery_example = crash_recovery small_log (one_dirty 2) 40 (small-IsValid 2) (omega arith)

-- A disk whose log holds the block 40 and its contents.
abbrev interrupted : Store
interrupted = record {
  disk = update (update (λ b. zeros) 2 (1 ∷ 40 ∷ replicate 126 0)) 3 (7 ∷ []);
  buf = λ b. zeros;
  dirty = λ b. false;
  power = 0;
}

interrupted-IsHome : (i : ℕ) → i < 1 → IsHome small_log (get_or (interrupted.disk 2) (suc i) 0)
interrupted-IsHome zero lt = omega arith
interrupted-IsHome (suc i) lt = absurd (omega arith)

interrupted-IsBootable : IsBootable small_log interrupted.disk
interrupted-IsBootable = record {
  room = omega arith;
  fits = omega arith;
  words = refl;
  home = interrupted-IsHome;
}

recover_again_example :
    let d = (recover_from_log small_log (reboot 1 interrupted)).1.disk in
    ((h : ℕ) → IsHome small_log h → logical 2 d h ≡ logical 2 interrupted.disk h)
    × IsBootable small_log d
recover_again_example = recover_again small_log interrupted 1 refl interrupted-IsBootable

-- One call in progress that has written the block 40.
abbrev one_call : System
one_call = record { log = small_log; store = one_dirty 4; calls = (40 ∷ []) ∷ [] }

one_call-HasAll : (b : ℕ) → has b (40 ∷ []) ≡ true → is_logged small_log b 1 ≡ true
one_call-HasAll b e = ground (arith, e)

one_call-IsReserved : IsReserved one_call
one_call-IsReserved = record {
  counted = refl;
  reserved = omega arith;
  shares = (omega arith, tt);
  few = omega arith;
  resting = refl;
  room = omega arith;
  entries = omega arith;
  recorded = (one_call-HasAll, tt);
}

-- The call writes block 40 again, which is absorbed, and a second call begins.
abbrev two_calls : System
two_calls = record {
  log = record small_log { outstanding = 2 };
  store = record (set_data 40 (8 ∷ []) (one_dirty 4)) {
    dirty = update (one_dirty 4).dirty 40 true;
  };
  calls = [] ∷ (40 ∷ []) ∷ [];
}

again_and_begin : Reach one_call two_calls
unfolding begin_op log_write absorb
again_and_begin =
    next (next here (writes one_call 0 40 (8 ∷ []) (omega arith) (omega arith) refl))
      (begins _ refl)

log_write_never_panics_example : log_write 60 two_calls.log two_calls.store ≢ panic
log_write_never_panics_example =
    log_write_never_panics one_call two_calls 1 60 one_call-IsReserved again_and_begin (omega arith)
      (omega arith)
