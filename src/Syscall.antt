-- ===== src/Syscall.antt =====
-- system/core/syscall.c: how the kernel takes the arguments of a system call from the memory of the
-- process, and which call it runs.
pub mod Arguments
mod Examples
use dave.Common.{
  ℕ, zero, suc, ◌+◌, ◌-◌, ◌*◌, ◌%◌, Bool, true, false, ◌||◌, List, [], ◌∷◌, Option, none, some,
  if◌then◌else◌, ◌==◌, ltb, leb, add32, is_negative, word_size, get_elem?,
}

-- The current process: its size, its saved stack pointer and its memory, by bytes.
pub record User : Type 0 where
  pub sz : ℕ
  pub esp : ℕ
  pub mem : ℕ → ℕ

abbrev pub load_int : (ℕ → ℕ) → ℕ → ℕ
load_int mem a =
    (mem a + 256 * mem (a + 1) + 65536 * mem (a + 2) + 16777216 * mem (a + 3)) % word_size

-- `none` is the result -1.
unfoldable pub fetchint : ℕ → User → Option ℕ
fetchint addr u =
    if leb u.sz addr || ltb u.sz (add32 addr 4) then none else some (load_int u.mem addr)

-- The loop of `fetchstr`, with `k` bytes left before the end at `s`.
unfoldable pub scan : (ℕ → ℕ) → ℕ → ℕ → ℕ → Option ℕ
scan mem addr s zero = none
scan mem addr s (suc k) =
    let rest = scan mem addr (suc s) k in if mem s == 0 then some (s - addr) else rest

-- The pointer and the length.
unfoldable pub fetchstr : ℕ → User → Option (ℕ × ℕ)
fetchstr addr u =
    if leb u.sz addr
    then none
    else elim (scan u.mem addr addr (u.sz - addr)) [ none ↦ none | some len ↦ some (addr, len) ]

unfoldable pub argint : ℕ → User → Option ℕ
argint n u = fetchint (add32 (add32 u.esp 4) (4 * n)) u

abbrev pub check_block : ℕ → User → Option ℕ → Option ℕ
check_block size u none = none
check_block size u (some i) =
    if (is_negative size || leb u.sz i) || ltb u.sz (add32 i size) then none else some i

-- `size` is an `int`, as its word.
unfoldable pub argptr : ℕ → ℕ → User → Option ℕ
argptr n size u = check_block size u (argint n u)

abbrev pub fetch_at : User → Option ℕ → Option (ℕ × ℕ)
fetch_at u none = none
fetch_at u (some addr) = fetchstr addr u

unfoldable pub argstr : ℕ → User → Option (ℕ × ℕ)
argstr n u = fetch_at u (argint n u)
