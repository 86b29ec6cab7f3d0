-- ===== src/Console.antt =====
-- system/devices/console.c: the input line buffer between the keyboard interrupt and the readers,
-- the characters given to `consputc`, and the cursor of `cgaputc`. `input_r` is the address of
-- `input.r`, on which readers sleep. Each body runs under `cons.lock`; `consoleread` is cut where it
-- sleeps.
pub mod Line
pub mod Views
pub mod Erasing
pub mod Storing
pub mod Typing
pub mod Reading
mod Examples
use dave.Common.{
  ℕ, zero, suc, ◌+◌, ◌%◌, Bool, true, false, ◌&&◌, ◌||◌, not, List, [], ◌∷◌, ◌++◌, if◌then◌else◌,
  ◌==◌, ltb, add32, sub32, set, get_or,
}
use dave.Proc.{Table, at, wakeup, sleep_enter}

abbrev pub input_buf : ℕ
input_buf = 128

abbrev pub backspace : ℕ
backspace = 0x100

-- The control characters C('D'), C('H'), C('P') and C('U'), and '\x7f'.
abbrev pub ctrl_d : ℕ
ctrl_d = 4

abbrev pub ctrl_h : ℕ
ctrl_h = 8

abbrev pub ctrl_p : ℕ
ctrl_p = 16

abbrev pub ctrl_u : ℕ
ctrl_u = 21

abbrev pub delete : ℕ
delete = 127

abbrev pub newline : ℕ
newline = 10

-- `input` with what has been given to `consputc`, the flag for `procdump`, and the process table.
pub record Console : Type 0 where
  pub buf : List ℕ
  pub r : ℕ
  pub w : ℕ
  pub e : ℕ
  pub echoed : List ℕ
  pub doprocdump : Bool
  pub procs : Table

abbrev pub slot : ℕ → ℕ
slot i = i % input_buf

abbrev pub consputc : ℕ → Console → Console
consputc c s = record s { echoed = s.echoed ++ c ∷ [] }

-- One round of the loops that erase: `input.e--` and its echo.
unfoldable pub erase : Console → Console
erase s = consputc backspace (record s { e = sub32 s.e 1 })

-- The loop on C('U'), with at most `k` rounds left.
unfoldable pub kill_from : ℕ → Console → Console
kill_from zero s = s
kill_from (suc k) s =
    let rest = kill_from k (erase s) in
    if not (s.e == s.w) && not (get_or s.buf (slot (sub32 s.e 1)) 0 == newline) then rest else s

unfoldable pub kill_line : Console → Console
kill_line s = kill_from (sub32 s.e s.w) s

unfoldable pub rub_out : Console → Console
rub_out s = if not (s.e == s.w) then erase s else s

abbrev pub translate : ℕ → ℕ
translate c = if c == 13 then newline else c

abbrev pub store : ℕ → Console → Console
store c s = consputc c (record s { buf = set s.buf (slot s.e) (c % 256); e = add32 s.e 1 })

module _ (input_r : ℕ) where
  abbrev pub release_line : Console → Console
  release_line s = record s { w = s.e; procs = wakeup (at input_r) s.procs }

  unfoldable pub add_char : ℕ → Console → Console
  add_char c s =
      let s' = store (translate c) s in
      if not (c == 0) && ltb (sub32 s.e s.r) input_buf
      then (if (translate c == newline || translate c == ctrl_d) || s'.e == add32 s'.r input_buf
          then release_line s'
          else s')
      else s

  unfoldable pub intr_char : ℕ → Console → Console
  intr_char c s =
      if c == ctrl_p
      then record s { doprocdump = true }
      else if c == ctrl_u
      then kill_line s
      else if c == ctrl_h || c == delete
      then rub_out s
      else add_char c s

  -- The characters that `getc` gives before it has no more.
  unfoldable pub consoleintr : List ℕ → Console → Console
  consoleintr [] s = s
  consoleintr (c ∷ cs) s = consoleintr cs (intr_char c s)

-- A run of `consoleread` has returned, has failed as its process is killed, or sleeps with some
-- bytes to go. The list is what it has copied out.
pub data Read : Type 0 where
  done : List ℕ → Read
  killed_with : List ℕ → Read
  asleep : List ℕ → ℕ → Read

abbrev pub prefix : ℕ → Read → Read
prefix c (done cs) = done (c ∷ cs)
prefix c (killed_with cs) = killed_with (c ∷ cs)
prefix c (asleep cs n) = asleep (c ∷ cs) n

module _ (input_r : ℕ) (caller : ℕ) (killed : Bool) (target : ℕ) where
  unfoldable pub consoleread : ℕ → Console → Read × Console
  consoleread zero s = (done [], s)
  consoleread (suc n) s =
      let c = get_or s.buf (slot s.r) 0 in
      let s' = record s { r = add32 s.r 1 } in
      let rest = consoleread n s' in
      if s.r == s.w
      then (if killed
          then (killed_with [], s)
          else (asleep [] (suc n), record s { procs = sleep_enter caller (at input_r) s.procs }))
      else if c == ctrl_d
      then (done [], (if ltb (suc n) target then record s' { r = sub32 s'.r 1 } else s'))
      else if c == newline
      then (done (c ∷ []), s')
      else (prefix c rest.0, rest.1)
