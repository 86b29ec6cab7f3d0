-- ===== src/Printing/Cursor.antt =====
-- The cursor of `cgaputc` in system/devices/console.c stays on the screen.
use dave.Common.{ℕ, ◌*◌, ◌<◌, ◌≤◌, ◌≡◌, refl, arith, ltb, false, ok, update}
use dave.Printing.{Screen, columns, shown, move_cursor, scroll_up, cgaputc}

-- The cursor is in the 24 rows that are used.
abbrev pub OnScreen : Screen → Type 0
OnScreen s = s.pos < 24 * columns

move_cursor_near :
    (c : ℕ) (s : Screen)
    → OnScreen s
    → ((move_cursor c s).pos ≤ 24 * columns)
      × ((q : ℕ) → 24 * columns ≤ q → (move_cursor c s).cells q ≡ s.cells q)
unfolding move_cursor
move_cursor_near c s on = (ground arith, λ q far. ground arith)

scroll_up-OnScreen :
    (s : Screen)
    → s.pos ≤ 24 * columns
    → OnScreen (scroll_up s) × ((q : ℕ) → 24 * columns ≤ q → (scroll_up s).cells q ≡ s.cells q)
unfolding scroll_up
scroll_up-OnScreen s near = (ground arith, λ q far. ground arith)

-- With the cursor in the 24 rows, `cgaputc` does not panic on any character, leaves the cursor in
-- the 24 rows on a blank cell, and writes no cell behind them.
pub cgaputc-OnScreen :
    (c : ℕ) (s : Screen)
    → OnScreen s
    → (t : Screen) × (cgaputc c s ≡ ok t)
      × OnScreen t
      × (t.cells t.pos ≡ shown 32)
      × ((q : ℕ) → 24 * columns ≤ q → t.cells q ≡ s.cells q)
unfolding cgaputc
cgaputc-OnScreen c s on =
    let (near, kept) = move_cursor_near c s on in
    let (inside, kept') = scroll_up-OnScreen (move_cursor c s) near in
    let t : Screen = scroll_up (move_cursor c s) in
    let room : ltb (25 * columns) (move_cursor c s).pos ≡ false = ground (arith, near) in
    (
      record t { cells = update t.cells t.pos (shown 32) },
      rw room refl,
      inside,
      ground arith,
      λ q far. ground (arith, inside, kept' q far, kept q far),
    )
