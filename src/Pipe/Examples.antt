-- ===== src/Pipe/Examples.antt =====
-- Concrete runs of a pipe that holds the bytes 7 and 8, with a reader asleep in slot 0.
use dave.Common.{
  ℕ, zero, suc, ◌≡◌, ◌≢◌, refl, arith, true, false, [], ◌∷◌, some, of_some, length, get_elem?,
  replicate, length-replicate,
}
use dave.Proc.{Proc, Table, sleeping}
use dave.Proc.Examples.{blank}
use dave.Pipe.{Pipe, pipewrite, piperead, push, wrote, refused, nread_chan, nwrite_chan}
use dave.Pipe.Ring.{IsValid, contents}
use dave.Pipe.Bytes.{WriteSpec, ReadSpec, pipewrite_lem, piperead_lem}
use dave.Pipe.Wakeups.{IsAwake, pipewrite-IsAwake, pipewrite_strands}
use dave.Proc.Wake.{NoSleeper}

abbrev empty_pipe : Pipe
empty_pipe = record {
  addr = 0x80103000;
  buf = replicate 512 0;
  nread = 0xFFFFFFFF;
  nwrite = 0xFFFFFFFF;
  readopen = true;
  writeopen = true;
}

empty-IsValid : IsValid empty_pipe
empty-IsValid = record {
  storage = length-replicate {A = ℕ} 512 0;
  small_read = omega arith;
  small_write = omega arith;
  within = omega arith;
}

abbrev reader : Proc
reader = record blank { pid = 5; state = sleeping; chan = nread_chan empty_pipe }

abbrev sleepers : Table
sleepers = reader ∷ []

-- The counters go round at 2 ^ 32.
counters_wrap : contents (pipewrite 1 false (7 ∷ 8 ∷ []) empty_pipe sleepers).1 ≡ 7 ∷ 8 ∷ []
unfolding pipewrite push
counters_wrap = refl

no_writer : NoSleeper (nwrite_chan empty_pipe) sleepers
no_writer zero p e s = ground (arith, of_some e)
no_writer (suc i) p e s = cc

empty-IsAwake : IsAwake empty_pipe sleepers
empty-IsAwake = record { readers = λ e. cc; writers = λ e. no_writer }

pipewrite_example :
    let (w, q, qs) = pipewrite 1 false (7 ∷ 8 ∷ []) empty_pipe sleepers in
    IsValid q × WriteSpec false (7 ∷ 8 ∷ []) empty_pipe w q
pipewrite_example = pipewrite_lem 1 false (7 ∷ 8 ∷ []) empty_pipe sleepers empty-IsValid

piperead_example :
    let (t, q, qs) = piperead 1 false 4 empty_pipe sleepers in
    IsValid q × ReadSpec false 4 empty_pipe t q
piperead_example = piperead_lem 1 false 4 empty_pipe sleepers empty-IsValid

wrote_not_refused : wrote ≢ refused
wrote_not_refused e = cc

not_refused : (pipewrite 1 false (7 ∷ 8 ∷ []) empty_pipe sleepers).0 ≢ refused
unfolding pipewrite push
not_refused = wrote_not_refused

pipewrite-IsAwake_example :
    let (w, q, qs) = pipewrite 1 false (7 ∷ 8 ∷ []) empty_pipe sleepers in IsAwake q qs
pipewrite-IsAwake_example =
    pipewrite-IsAwake 1 false (7 ∷ 8 ∷ []) empty_pipe sleepers empty-IsAwake not_refused

pipewrite_strands_example :
    let (w, q, qs) = pipewrite 1 true (replicate 600 0) empty_pipe sleepers in
    (w ≡ refused) × (length (contents q) ≡ 512) × (get_elem? qs 0 ≡ some reader)
pipewrite_strands_example =
    pipewrite_strands 1 0 (replicate 600 0) empty_pipe sleepers reader empty-IsValid
      (omega (arith, length-replicate {A = ℕ} 600 0)) refl (refl, refl)
