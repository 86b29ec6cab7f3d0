-- ===== src/Descriptors.antt =====
-- system/core/sysfile.c: the descriptors of the current process, with the calls that only change
-- them. A file is its index in the table of File.antt; a result `none` of a call is -1.
pub mod Balance
pub mod Calls
mod Examples
use dave.Common.{
  ℕ, zero, suc, ◌+◌, Bool, true, false, ◌||◌, Option, none, some, Result, ok, panic, if◌then◌else◌,
  ◌==◌, leb, update, is_negative,
}
use dave.Fs.{Super}
use dave.Syscall.{User, argint}
use dave.File.{Ftable, Objects, filedup, fileclose}

abbrev pub nofile : ℕ
nofile = 16

-- `none` is 0.
abbrev pub Ofile : Type 0
Ofile = ℕ → Option ℕ

abbrev pub open_at : ℕ → Option ℕ → Option (ℕ × ℕ)
open_at fd none = none
open_at fd (some i) = some (fd, i)

-- The descriptor and its file.
unfoldable pub argfd : ℕ → User → Ofile → Option (ℕ × ℕ)
argfd n u files = elim (argint n u) [
  | none ↦ none
  | some fd ↦ if is_negative fd || leb nofile fd then none else open_at fd (files fd)
]

-- The loop of `fdalloc` with `k` descriptors left from `fd` on.
unfoldable pub find_fd : ℕ → ℕ → Ofile → Option ℕ
find_fd zero fd files = none
find_fd (suc k) fd files = elim (files fd) [ none ↦ some fd | some i ↦ find_fd k (suc fd) files ]

unfoldable pub fdalloc : ℕ → Ofile → Option (ℕ × Ofile)
fdalloc i files = elim (find_fd nofile 0 files) [
  | none ↦ none
  | some fd ↦ some (fd, update files fd (some i))
]

unfoldable pub sys_dup : User → Ofile → Ftable → Result (Option ℕ × Ofile × Ftable)
sys_dup u files ft = elim (argfd 0 u files) [
  | none ↦ ok (none, files, ft)
  | some (old, i) ↦ elim (fdalloc i files) [
    | none ↦ ok (none, files, ft)
    | some (fd, files') ↦ elim (filedup i ft) [ panic ↦ panic | ok ft' ↦ ok (some fd, files', ft') ]
  ]
]

unfoldable pub sys_close :
    Super → ℕ → User → Ofile → Ftable → Objects → Result (Option ℕ × Ofile × Ftable × Objects)
sys_close sb kernel_end u files ft o = elim (argfd 0 u files) [
  | none ↦ ok (none, files, ft, o)
  | some (fd, i) ↦ elim (fileclose sb kernel_end i ft o) [
    | panic ↦ panic
    | ok (ft', o') ↦ ok (some 0, update files fd none, ft', o')
  ]
]
