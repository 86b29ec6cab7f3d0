-- ===== src/Spinlock/Sections.antt =====
-- Critical sections of one processor under a lock of system/sync/spinlock.c.
use dave.Common.{ℕ, ◌+◌, ◌<◌, ◌^◌, ◌≡◌, refl, arith, true, false, some, none, ok, ◌∙◌}
use dave.Spinlock.{Cpu, pushcli, Lock, holding, acquire, release, owned}
use dave.Spinlock.Nesting.{
  Program, pairs, run_pairs, IsValid, Restored, pushcli-IsValid, pushed_count, pushed_off,
  popcli_after, Restored-refl, Restored-trans, run_pairs_lem,
}

holding_lem :
    (me : ℕ) (lk : Lock) (c : Cpu)
    → IsValid c
    → c.ncli + 1 < 2 ^ 31
    → (e : Cpu) × (holding me lk c ≡ ok (owned me lk, e)) × Restored c e × IsValid e
unfolding holding
holding_lem me lk c v room =
    let (e, popped, back, v') = popcli_after c (pushcli c) v room (Restored-refl (pushcli c)) in
    (e, rw popped refl, back, v')

acquire_lem :
    (me : ℕ) (lk : Lock) (c : Cpu)
    → lk.locked ≡ false
    → IsValid c
    → c.ncli + 2 < 2 ^ 31
    → (d : Cpu) × (acquire me lk c ≡ some (ok (record { locked = true; cpu = some me }, d)))
      × Restored (pushcli c) d
      × IsValid d
unfolding acquire
acquire_lem me lk c free v room =
    let (d, held, back, v') =
      holding_lem me lk (pushcli c) (pushcli-IsValid c (omega arith))
        (omega (arith, pushed_count c (omega arith))) in
    (d, rw (held, free) refl, back, v')

release_lem :
    (me : ℕ) (lk : Lock) (c d : Cpu)
    → owned me lk ≡ true
    → IsValid c
    → IsValid d
    → c.ncli + 2 < 2 ^ 31
    → Restored (pushcli c) d
    → (e : Cpu) × (release me lk d ≡ ok (record { locked = false; cpu = none }, e)) × Restored c e
unfolding release
release_lem me lk c d mine v w room r =
    let (f, held, back, _) =
      holding_lem me lk d w (omega (arith, pushed_count c (omega arith), r.same_count)) in
    let (e, popped, again, _) =
      popcli_after c f v (omega arith) (Restored-trans (pushcli c) d f r back) in
    (e, rw (held, mine, popped) refl, again)

-- A critical section on a processor that keeps interrupts off while its counter is not 0: `acquire`
-- of a free lock takes it with the interrupts off, the code in it may
-- pair `pushcli` and `popcli` as it likes, and `release` frees the lock and leaves the interrupts
-- and the counter as they were before; nothing panics while the counter stays below 2 ^ 31.
pub critical_section :
    (me : ℕ) (lk : Lock) (p : Program) (c : Cpu)
    → lk.locked ≡ false
    → IsValid c
    → c.ncli + pairs p + 2 < 2 ^ 31
    → (lk' : Lock) × (d : Cpu) × (e : Cpu) × (f : Cpu) × (acquire me lk c ≡ some (ok (lk', d)))
      × (owned me lk' ≡ true)
      × (d.enabled ≡ false)
      × (run_pairs p d ≡ ok e)
      × (e.enabled ≡ false)
      × (release me lk' e ≡ ok (record { locked = false; cpu = none }, f))
      × (f.enabled ≡ c.enabled)
      × (f.ncli ≡ c.ncli)
critical_section me lk p c free v room =
    let lk' : Lock = record { locked = true; cpu = some me } in
    let mine : owned me lk' ≡ true = ground arith in
    let (d, taken, in_d, v_d) = acquire_lem me lk c free v (omega arith) in
    let (e, ran, in_e, v_e) =
      run_pairs_lem p d v_d (omega (arith, pushed_count c (omega arith), in_d.same_count)) in
    let after = Restored-trans (pushcli c) d e in_d in_e in
    let (f, left, back) = release_lem me lk' c e mine v v_e (omega arith) after in
    (
      lk',
      d,
      e,
      f,
      taken,
      mine,
      in_d.same_flag ∙ pushed_off c,
      ran,
      after.same_flag ∙ pushed_off c,
      left,
      back.same_flag,
      back.same_count,
    )
