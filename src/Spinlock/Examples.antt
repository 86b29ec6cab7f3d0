-- ===== src/Spinlock/Examples.antt =====
-- A processor with interrupts on runs two nested pairs, and takes a free lock.
use dave.Common.{◌≡◌, refl, arith, true, false, none, some, ok}
use dave.Spinlock.{Cpu, Lock, acquire, release, owned}
use dave.Spinlock.Nesting.{Program, done, nest, run_pairs, IsValid}
use dave.Spinlock.Sections.{critical_section}

abbrev idle : Cpu
idle = record { enabled = true; ncli = 0; intena = false }

idle-IsValid : IsValid idle
idle-IsValid = record { off = λ h. ground (arith, h); small = omega arith }

abbrev two_pairs : Program
two_pairs = nest (nest done done) done

abbrev free_lock : Lock
free_lock = record { locked = false; cpu = none }

critical_section_example :
    (lk' : Lock) × (d : Cpu) × (e : Cpu) × (f : Cpu) × (acquire 0 free_lock idle
      ≡ some (ok (lk', d)))
    × (owned 0 lk' ≡ true)
    × (d.enabled ≡ false)
    × (run_pairs two_pairs d ≡ ok e)
    × (e.enabled ≡ false)
    × (release 0 lk' e ≡ ok (free_lock, f))
    × (f.enabled ≡ true)
    × (f.ncli ≡ 0)
critical_section_example =
    critical_section 0 free_lock two_pairs idle refl idle-IsValid (omega arith)
