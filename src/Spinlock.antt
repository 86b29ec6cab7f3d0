-- ===== src/Spinlock.antt =====
-- system/sync/spinlock.c: the spin lock as one processor uses it, and the counter that keeps
-- interrupts off. What `getcallerpcs` records is left out.
pub mod Nesting
pub mod Sections
mod Examples
use dave.Common.{
  ℕ, zero, suc, Bool, true, false, ◌&&◌, not, List, [], ◌∷◌, Option, none, some, Result, ok, panic,
  if◌then◌else◌, ◌==◌, add32, sub32, is_negative,
}

-- The flag FL_IF, and `ncli` (an `int`, as its word) and `intena` of `struct cpu`.
pub record Cpu : Type 0 where
  pub enabled : Bool
  pub ncli : ℕ
  pub intena : Bool

unfoldable pub pushcli : Cpu → Cpu
pushcli c = record {
  enabled = false;
  ncli = add32 c.ncli 1;
  intena = if c.ncli == 0 then c.enabled else c.intena;
}

unfoldable pub popcli : Cpu → Result Cpu
popcli c =
    let n = sub32 c.ncli 1 in
    if c.enabled
    then panic
    else if is_negative n
    then panic
    else ok (record c { ncli = n; enabled = n == 0 && c.intena })

-- `cpu` is the number of the processor that has the lock.
pub record Lock : Type 0 where
  pub locked : Bool
  pub cpu : Option ℕ

abbrev pub is_cpu : ℕ → Option ℕ → Bool
is_cpu me none = false
is_cpu me (some k) = me == k

abbrev pub owned : ℕ → Lock → Bool
owned me lk = lk.locked && is_cpu me lk.cpu

abbrev popped : Bool → Result Cpu → Result (Bool × Cpu)
popped r panic = panic
popped r (ok c) = ok (r, c)

unfoldable pub holding : ℕ → Lock → Cpu → Result (Bool × Cpu)
holding me lk c = popped (owned me lk) (popcli (pushcli c))

-- One try of the `xchg` in `acquire`: `none` while another processor has the lock.
abbrev take_lock : ℕ → Lock → Result (Bool × Cpu) → Option (Result (Lock × Cpu))
take_lock me lk panic = some panic
take_lock me lk (ok (true, c)) = some panic
take_lock me lk (ok (false, c)) =
    if lk.locked then none else some (ok (record { locked = true; cpu = some me }, c))

unfoldable pub acquire : ℕ → Lock → Cpu → Option (Result (Lock × Cpu))
acquire me lk c = take_lock me lk (holding me lk (pushcli c))

abbrev freed : Result Cpu → Result (Lock × Cpu)
freed panic = panic
freed (ok c) = ok (record { locked = false; cpu = none }, c)

abbrev drop_lock : Result (Bool × Cpu) → Result (Lock × Cpu)
drop_lock panic = panic
drop_lock (ok (false, c)) = panic
drop_lock (ok (true, c)) = freed (popcli c)

unfoldable pub release : ℕ → Lock → Cpu → Result (Lock × Cpu)
release me lk c = drop_lock (holding me lk c)
