-- ===== src/Console/Views.antt =====
-- The input of system/devices/console.c as two lists, and what each character does to them.
use dave.Common.{
  ℕ, suc, ◌+◌, ◌<◌, ◌≡◌, ◌≢◌, arith, ◌||◌, List, [], ◌∷◌, ◌++◌, length, if◌then◌else◌, leb, ◌==◌,
  sub32, length-window,
}
use dave.Proc.{at}
use dave.Proc.Wake.{NoSleeper}
use dave.Console.{
  Console, input_buf, slot, newline, ctrl_d, ctrl_h, ctrl_p, ctrl_u, delete, translate,
}
use dave.Console.Line.{IsValid, typed, ready, line, typed_count}

-- What readers can take and what is being typed.
pub record View : Type 0 where
  pub released : List ℕ
  pub pending : List ℕ

abbrev pub view : Console → View
view s = record { released = ready s; pending = line s }

abbrev pub drop_last : List ℕ → List ℕ
drop_last [] = []
drop_last (x ∷ []) = []
drop_last (x ∷ y ∷ ys) = x ∷ drop_last (y ∷ ys)

abbrev pub held : View → ℕ
held v = length v.released + length v.pending

-- A line ends with a newline or a C('D'), and when all 128 places are taken.
abbrev pub append_char : ℕ → View → View
append_char c v =
    let longer = v.pending ++ c ∷ [] in
    if (c == newline || c == ctrl_d) || suc (held v) == input_buf
    then record { released = v.released ++ longer; pending = [] }
    else record { released = v.released; pending = longer }

-- One character, by its effect on the lists.
abbrev pub type_char : ℕ → View → View
type_char c v =
    if c == ctrl_p
    then v
    else if c == ctrl_u
    then record v { pending = [] }
    else if c == ctrl_h || c == delete
    then record v { pending = drop_last v.pending }
    else if c == 0 || leb input_buf (held v)
    then v
    else append_char (translate c) v

abbrev pub type_all : List ℕ → View → View
type_all [] v = v
type_all (c ∷ cs) v = type_all cs (type_char c v)

-- `getc` gives bytes.
abbrev pub Bytes : List ℕ → Type 0
Bytes [] = Unit
Bytes (c ∷ cs) = (c < 256) × Bytes cs

-- No reader sleeps while there is something to read.
abbrev pub IsAwake : ℕ → Console → Type 0
IsAwake input_r s = s.r ≢ s.w → NoSleeper (at input_r) s.procs

-- What one character does.
pub record Typed (input_r : ℕ) (s t : Console) (v : View) : Type 0 where
  pub valid : IsValid t
  pub lists : view t ≡ v
  pub wakes : IsAwake input_r s → IsAwake input_r t

pub held_count : (s : Console) → IsValid s → held (view s) ≡ sub32 s.e s.r
held_count s v = omega (
  arith,
  length-window slot s.buf s.r (sub32 s.w s.r),
  length-window slot s.buf s.w (typed s),
  typed_count s v,
)
