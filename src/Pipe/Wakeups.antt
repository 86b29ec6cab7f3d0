-- ===== src/Pipe/Wakeups.antt =====
-- Sleeping readers and writers of system/core/pipe.c: who may still sleep after each run.
use dave.Common.{
  ℕ, zero, suc, ◌<◌, ◌≡◌, ◌≢◌, refl, ap, arith, Bool, true, false, ◌&&◌, ◌||◌, not, List, [], ◌∷◌,
  some, length, get_elem?, ◌∙◌, sym, inl, inr, Bool-cases, subst, ok, length-append,
}
use dave.Kalloc.{Kmem}
use dave.Proc.{Proc, Table, wakeup}
use dave.Proc.Wake.{
  SleepsOn, NoSleeper, wakeup-NoSleeper, wakeup-NoSleeper_other, sleep_enter-NoSleeper,
}
use dave.Pipe.{
  Pipe, pipesize, is_full, is_empty, push, pop, pipewrite, Written, wrote, refused, stuck,
  take_bytes, piperead, nread_chan, nwrite_chan, pipeclose, shut_end, shut_chan,
}
use dave.Pipe.Ring.{IsValid, contents, length-contents}
use dave.Pipe.Bytes.{WriteSpec, pipewrite_lem}

-- Only readers of an empty pipe with an open write end, and writers of a full pipe with an open
-- read end, sleep on it.
pub record IsAwake (p : Pipe) (ps : Table) : Type 0 where
  pub readers : (is_empty p && p.writeopen) ≡ false → NoSleeper (nread_chan p) ps
  pub writers : (is_full p && p.readopen) ≡ false → NoSleeper (nwrite_chan p) ps

read_ne_write : (p : Pipe) → nread_chan p ≢ nwrite_chan p
read_ne_write p e = ground arith

pipewrite_sleepers :
    (caller : ℕ) (killed : Bool) (bytes : List ℕ) (p : Pipe) (ps : Table)
    → ((is_full p && p.readopen) ≡ false → NoSleeper (nwrite_chan p) ps)
    → let (w, q, qs) = pipewrite caller killed bytes p ps in w ≢ refused → IsAwake q qs
unfolding pipewrite
pipewrite_sleepers caller killed [] p ps h = λ ne. record {
  readers = λ e. wakeup-NoSleeper (nread_chan p) ps;
  writers = λ e. wakeup-NoSleeper_other (nread_chan p) (nwrite_chan p) ps (h e);
}
pipewrite_sleepers caller killed (x ∷ xs) p ps h = elim (Bool-cases (is_full p)) [
  | inr room ↦
      rw room
        (pipewrite_sleepers caller killed xs (push x p) ps (unfold push in λ e. h (ground arith)))
  | inl full ↦ elim (Bool-cases (not p.readopen || killed)) [
    | inl fails ↦ rw (full, fails) (λ ne. absurd (ne refl))
    | inr waits ↦
        rw (full, waits)
          (λ ne. record {
            readers = λ e.
                sleep_enter-NoSleeper caller (nwrite_chan p) (nread_chan p) _
                  (λ f. read_ne_write p (sym f)) (wakeup-NoSleeper (nread_chan p) ps);
            writers = λ e. absurd (ground arith);
          })
  ]
]

-- Where only readers of an empty pipe with an open write end, and writers of a full pipe with an
-- open read end, sleep on it, a run of `pipewrite` that does not fail keeps it so.
pub pipewrite-IsAwake :
    (caller : ℕ) (killed : Bool) (bytes : List ℕ) (p : Pipe) (ps : Table)
    → IsAwake p ps
    → (pipewrite caller killed bytes p ps).0 ≢ refused
    → let (w, q, qs) = pipewrite caller killed bytes p ps in IsAwake q qs
pipewrite-IsAwake caller killed bytes p ps v done =
    pipewrite_sleepers caller killed bytes p ps v.writers done

take_bytes_ends :
    (n : ℕ) (p : Pipe)
    → (nread_chan (take_bytes n p).1 ≡ nread_chan p)
      × (nwrite_chan (take_bytes n p).1 ≡ nwrite_chan p)
unfolding take_bytes pop
take_bytes_ends zero p = (refl, refl)
take_bytes_ends (suc n) p = ground (arith, take_bytes_ends n (pop p))

-- Where only readers of an empty pipe with an open write end, and writers of a full pipe with an
-- open read end, sleep on it, every run of `piperead` keeps it so.
pub piperead-IsAwake :
    (caller : ℕ) (killed : Bool) (n : ℕ) (p : Pipe) (ps : Table)
    → IsAwake p ps
    → let (t, q, qs) = piperead caller killed n p ps in IsAwake q qs
unfolding piperead
piperead-IsAwake caller killed n p ps v = elim (Bool-cases (is_empty p && p.writeopen)) [
  | inr ready ↦
      let (er, ew) = take_bytes_ends n p in
      let q = (take_bytes n p).1 in
      rw ready (record {
        readers = λ e.
            subst (λ c. NoSleeper c (wakeup (nwrite_chan q) ps)) (sym er)
              (wakeup-NoSleeper_other (nwrite_chan q) (nread_chan p) ps (v.readers ready));
        writers = λ e. wakeup-NoSleeper (nwrite_chan q) ps;
      })
  | inl waits ↦ elim (Bool-cases killed) [
    | inl dead ↦ rw (waits, dead) v
    | inr alive ↦
        rw (waits, alive)
          (record {
            readers = λ e. absurd (ground arith);
            writers = λ e.
                sleep_enter-NoSleeper caller (nread_chan p) (nwrite_chan p) ps (read_ne_write p)
                  (v.writers e);
          })
  ]
]

pipeclose_ok :
    (kernel_end : ℕ) (writable : Bool) (p q : Pipe) (ps qs : Table) (k k' : Kmem)
    → pipeclose kernel_end writable p ps k ≡ ok (q, qs, k')
    → (q ≡ shut_end writable p) × (qs ≡ wakeup (shut_chan writable p) ps)
unfolding pipeclose
pipeclose_ok kernel_end writable p q ps qs k k' e = ground arith

shut-IsAwake :
    (writable : Bool) (p : Pipe) (ps : Table)
    → IsAwake p ps
    → IsAwake (shut_end writable p) (wakeup (shut_chan writable p) ps)
unfolding shut_end
shut-IsAwake true p ps v = record {
  readers = λ e. wakeup-NoSleeper (nread_chan p) ps;
  writers = λ e. wakeup-NoSleeper_other (nread_chan p) (nwrite_chan p) ps (v.writers e);
}
shut-IsAwake false p ps v = record {
  readers = λ e. wakeup-NoSleeper_other (nwrite_chan p) (nread_chan p) ps (v.readers e);
  writers = λ e. wakeup-NoSleeper (nwrite_chan p) ps;
}

-- Where only readers of an empty pipe with an open write end, and writers of a full pipe with an
-- open read end, sleep on it, a `pipeclose` that returns keeps it so.
pub pipeclose-IsAwake :
    (kernel_end : ℕ) (writable : Bool) (p q : Pipe) (ps qs : Table) (k k' : Kmem)
    → IsAwake p ps
    → pipeclose kernel_end writable p ps k ≡ ok (q, qs, k')
    → IsAwake q qs
unfolding pipeclose
pipeclose-IsAwake kernel_end writable p q ps qs k k' v e =
    let (eq, eqs) = pipeclose_ok kernel_end writable p q ps qs k k' e in
    subst (λ r. IsAwake r qs) (sym eq)
      (subst (IsAwake (shut_end writable p)) (sym eqs) (shut-IsAwake writable p ps v))

refused_table :
    (caller : ℕ) (killed : Bool) (bytes : List ℕ) (p : Pipe) (ps : Table)
    → let (w, q, qs) = pipewrite caller killed bytes p ps in w ≡ refused → qs ≡ ps
unfolding pipewrite
refused_table caller killed [] p ps = λ e. cc
refused_table caller killed (x ∷ xs) p ps =
    ground (arith, refused_table caller killed xs (push x p) ps)

killed_fails :
    (bytes : List ℕ) (p q : Pipe) (w : Written)
    → pipesize < length bytes
    → IsValid q
    → WriteSpec true bytes p w q
    → (w ≡ refused) × (length (contents q) ≡ pipesize)
killed_fails bytes p q wrote long v spec =
    absurd
      (omega (arith, v.within, ap length spec, length-append (contents p) bytes, length-contents q))
killed_fails bytes p q refused long v (done, rest, split, all, len, why) = (refl, len)
killed_fails bytes p q (stuck rest) long v (done, split, more, all, len, op, alive) = cc

-- A killed writer that fills a pipe whose readers wait fails without waking them: a reader that
-- slept on the empty pipe is still asleep when the pipe holds 512 bytes.
pub pipewrite_strands :
    (caller i : ℕ) (bytes : List ℕ) (p : Pipe) (ps : Table) (reader : Proc)
    → IsValid p
    → pipesize < length bytes
    → get_elem? ps i ≡ some reader
    → SleepsOn (nread_chan p) reader
    → let (w, q, qs) = pipewrite caller true bytes p ps in
      (w ≡ refused) × (length (contents q) ≡ pipesize) × (get_elem? qs i ≡ some reader)
pipewrite_strands caller i bytes p ps reader v long here asleep =
    let (u, spec) = pipewrite_lem caller true bytes p ps v in
    let (fails, len) =
      killed_fails bytes p (pipewrite caller true bytes p ps).1 (pipewrite caller true bytes p ps).0
        long u spec in
    (fails, len, ap (λ qs. get_elem? qs i) (refused_table caller true bytes p ps fails) ∙ here)
