-- ===== src/Pipe.antt =====
-- system/core/pipe.c. A call that sleeps is cut there: a run of `pipewrite` or `piperead` goes from
-- where the pipe's lock is taken to where it is let go, by a return or by `sleep`, and what is left
-- to write is in its result. The process table is the other half of the state.
pub mod Ring
pub mod Bytes
pub mod Wakeups
mod Examples
use dave.Common.{
  ℕ, zero, suc, ◌+◌, ◌-◌, ◌*◌, ◌%◌, Bool, true, false, ◌&&◌, ◌||◌, not, List, [], ◌∷◌, Result, ok,
  panic, if◌then◌else◌, ◌==◌, add32, set, get_or, replicate,
}
use dave.Kalloc.{Kmem, kfree}
use dave.Proc.{Table, Chan, at, wakeup, sleep_enter}

abbrev pub pipesize : ℕ
pipesize = 512

pub record Pipe : Type 0 where
  pub addr : ℕ
  pub buf : List ℕ
  pub nread : ℕ
  pub nwrite : ℕ
  pub readopen : Bool
  pub writeopen : Bool

-- `&p->nread` and `&p->nwrite`, behind the lock of 52 bytes and the data.
abbrev pub nread_chan : Pipe → Chan
nread_chan p = at (p.addr + 564)

abbrev pub nwrite_chan : Pipe → Chan
nwrite_chan p = at (p.addr + 568)

abbrev pub is_full : Pipe → Bool
is_full p = p.nwrite == add32 p.nread pipesize

abbrev pub is_empty : Pipe → Bool
is_empty p = p.nread == p.nwrite

-- The pipe as `pipealloc` sets it up in a fresh page.
unfoldable pub fresh_pipe : ℕ → List ℕ → Pipe
fresh_pipe addr garbage = record {
  addr = addr;
  buf = garbage;
  nread = 0;
  nwrite = 0;
  readopen = true;
  writeopen = true;
}

unfoldable pub push : ℕ → Pipe → Pipe
push x p = record p { buf = set p.buf (p.nwrite % pipesize) x; nwrite = add32 p.nwrite 1 }

unfoldable pub pop : Pipe → Pipe
pop p = record p { nread = add32 p.nread 1 }

pub data Written : Type 0 where
  wrote : Written
  refused : Written
  stuck : List ℕ → Written

-- The bytes still to write are the list; `killed` is the caller's flag.
unfoldable pub pipewrite : ℕ → Bool → List ℕ → Pipe → Table → Written × Pipe × Table
pipewrite caller killed [] p ps = (wrote, p, wakeup (nread_chan p) ps)
pipewrite caller killed (x ∷ xs) p ps =
    let more = pipewrite caller killed xs (push x p) ps in
    let waits : Written × Pipe × Table =
      (stuck (x ∷ xs), p, sleep_enter caller (nwrite_chan p) (wakeup (nread_chan p) ps)) in
    if is_full p then (if not p.readopen || killed then (refused, p, ps) else waits) else more

-- The copying loop of `piperead`.
unfoldable pub take_bytes : ℕ → Pipe → List ℕ × Pipe
take_bytes zero p = ([], p)
take_bytes (suc n) p =
    let rest = take_bytes n (pop p) in
    if is_empty p then ([], p) else (get_or p.buf (p.nread % pipesize) 0 ∷ rest.0, rest.1)

pub data Taken : Type 0 where
  took : List ℕ → Taken
  gave_up : Taken
  idle : Taken

unfoldable pub piperead : ℕ → Bool → ℕ → Pipe → Table → Taken × Pipe × Table
piperead caller killed n p ps =
    if is_empty p && p.writeopen
    then (if killed then (gave_up, p, ps) else (idle, p, sleep_enter caller (nread_chan p) ps))
    else (let (bytes, p') = take_bytes n p in (took bytes, p', wakeup (nwrite_chan p') ps))

unfoldable pub shut_end : Bool → Pipe → Pipe
shut_end true p = record p { writeopen = false }
shut_end false p = record p { readopen = false }

abbrev shut_chan : Bool → Pipe → Chan
shut_chan true p = nread_chan p
shut_chan false p = nwrite_chan p

unfoldable pub pipeclose : ℕ → Bool → Pipe → Table → Kmem → Result (Pipe × Table × Kmem)
unfolding shut_end
pipeclose kernel_end writable p ps k =
    let p' = shut_end writable p in
    let ps' = wakeup (shut_chan writable p) ps in
    if not p'.readopen && not p'.writeopen
    then elim (kfree kernel_end p.addr k) [ ok k' ↦ ok (p', ps', k') | panic ↦ panic ]
    else ok (p', ps', k)
