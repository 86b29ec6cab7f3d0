-- ===== src/Printing.antt =====
-- system/devices/console.c: how the kernel prints numbers, and the screen of `cgaputc`.
pub mod Digits
pub mod Cursor
mod Examples
use dave.Common.{
  ℕ, zero, suc, ◌+◌, ◌-◌, ◌/◌, ◌%◌, Bool, true, false, ◌&&◌, List, [], ◌∷◌, ◌++◌, Option, none,
  some, ◌*◌, if◌then◌else◌, ◌==◌, ltb, leb, update, Result, ok, panic, sub32, is_negative, length,
}

-- The places of `buf` in `printint`.
abbrev pub buf_size : ℕ
buf_size = 16

-- The table `digits`.
abbrev pub digit : ℕ → ℕ
digit d = if ltb d 10 then 48 + d else 87 + d

abbrev pub put : ℕ → Option (List ℕ) → Option (List ℕ)
put c none = none
put c (some ds) = some (c ∷ ds)

-- The loop of `printint`, the lowest digit first, with some places left in `buf`; `none` when a
-- digit would be written behind its end.
unfoldable pub digits_from : ℕ → ℕ → ℕ → Option (List ℕ)
digits_from zero base x = none
digits_from (suc places) base x =
    let rest = digits_from places base (x / base) in
    if x / base == 0 then some (digit (x % base) ∷ []) else put (digit (x % base)) rest

abbrev pub backwards : List ℕ → List ℕ
backwards [] = []
backwards (c ∷ cs) = backwards cs ++ c ∷ []

abbrev pub minus : ℕ
minus = 45

-- `-xx` on words.
abbrev pub magnitude : Bool → ℕ → ℕ
magnitude sign xx = if sign && is_negative xx then sub32 0 xx else xx

abbrev pub finish : Bool → Option (List ℕ) → Option (List ℕ)
finish negative none = none
finish false (some ds) = some (backwards ds)
finish true (some ds) =
    if ltb (length ds) buf_size then some (backwards (ds ++ minus ∷ [])) else none

-- The characters given to `consputc`.
unfoldable pub printint : ℕ → ℕ → Bool → Option (List ℕ)
printint xx base sign =
    finish (sign && is_negative xx) (digits_from buf_size base (magnitude sign xx))

-- The memory of the screen, by cells, and the cursor register.
pub record Screen : Type 0 where
  pub cells : ℕ → ℕ
  pub pos : ℕ

abbrev pub columns : ℕ
columns = 80

-- A character in black on white.
abbrev pub shown : ℕ → ℕ
shown c = c % 256 + 0x0700

-- The newline, BACKSPACE (0x100), or a character in its cell.
unfoldable pub move_cursor : ℕ → Screen → Screen
move_cursor c s =
    if c == 10
    then record s { pos = s.pos + (columns - s.pos % columns) }
    else if c == 0x100
    then record s { pos = s.pos - 1 }
    else record s { cells = update s.cells s.pos (shown c); pos = s.pos + 1 }

-- The rows 1 to 23 move up by one, and what follows the cursor in 24 rows is cleared.
abbrev pub scrolled : (ℕ → ℕ) → ℕ → ℕ → ℕ
scrolled cells pos q =
    if leb pos q && ltb q (24 * columns)
    then 0
    else if ltb q (23 * columns)
    then cells (q + columns)
    else cells q

unfoldable pub scroll_up : Screen → Screen
scroll_up s =
    if leb 24 (s.pos / columns)
    then record { cells = scrolled s.cells (s.pos - columns); pos = s.pos - columns }
    else s

-- The position that is read back is never negative here: it is a number of 16 bits.
unfoldable pub cgaputc : ℕ → Screen → Result Screen
cgaputc c s =
    let m = move_cursor c s in
    let t = scroll_up m in
    if ltb (25 * columns) m.pos
    then panic
    else ok (record t { cells = update t.cells t.pos (shown 32) })
