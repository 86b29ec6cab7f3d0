-- ===== src/Descriptors/Examples.antt =====
-- A process whose descriptor 0 has file 0; the argument of its calls is 0.
use dave.Common.{
  ℕ, zero, ◌≡◌, arith, Option, none, some, of_some, update, Bool-cases, inl, inr, ◌==◌,
}
use dave.Fs.Examples.{small_super}
use dave.Syscall.{User}
use dave.File.{Ftable}
use dave.File.Examples.{objects, on_inode}
use dave.Descriptors.{Ofile, sys_dup, sys_close}
use dave.Descriptors.Balance.{Balanced}
use dave.Descriptors.Calls.{DupSpec, sys_dup_lem, CloseSpec, sys_close_lem}

abbrev caller : User
caller = record { sz = 64; esp = 16; mem = λ a. 0 }

abbrev descriptors : Ofile
descriptors = update (λ fd. none) 0 (some 0)

-- Another process has file 5 open.
abbrev files : Ftable
files =
    update (update (λ i. record on_inode { ref = 0 }) 0 (record on_inode { ref = 1 })) 5
      (record on_inode { ref = 1 })

abbrev others : ℕ → ℕ
others = update (λ i. 0) 5 1

start-Balanced : Balanced others descriptors files
start-Balanced = record {
  inside = λ fd i lt e. elim (Bool-cases (0 == fd)) [
    | inl z ↦ let got : some zero ≡ some i = rw z at e in omega (arith, of_some got)
    | inr p ↦ let bad : ◌≡◌ {A = Option ℕ} none (some i) = rw p at e in absurd (cc)
  ];
  refs = λ i lt. ground arith;
  few = λ i. ground arith;
}

sys_dup_example : DupSpec others descriptors files (sys_dup caller descriptors files)
sys_dup_example = sys_dup_lem caller others descriptors files start-Balanced

sys_close_example :
    CloseSpec small_super 0 caller others descriptors files objects
      (sys_close small_super 0 caller descriptors files objects)
sys_close_example =
    sys_close_lem small_super 0 caller others descriptors files objects start-Balanced
