-- ===== src/Printing/Examples.antt =====
-- Concrete runs: the numbers -128 and 0xbeef, and a newline in the last row of the screen.
use dave.Common.{
  ℕ, List, ◌+◌, ◌-◌, ◌*◌, ◌≤◌, ◌≡◌, refl, arith, inl, false, true, [], ◌∷◌, some, ok, word_size,
}
use dave.Printing.{Screen, columns, shown, printint, digits_from, minus, cgaputc}
use dave.Printing.Digits.{read_from, printint_lem}
use dave.Printing.Cursor.{OnScreen, cgaputc-OnScreen}

minus_128 : printint (word_size - 128) 10 true ≡ some (45 ∷ 49 ∷ 50 ∷ 56 ∷ [])
unfolding printint digits_from
minus_128 = refl

beef : printint 0xbeef 16 false ≡ some (98 ∷ 101 ∷ 101 ∷ 102 ∷ [])
unfolding printint digits_from
beef = refl

printint_example :
    (cs : List ℕ) × (printint (word_size - 128) 10 true ≡ some (minus ∷ cs))
    × (read_from 10 0 cs ≡ word_size - (word_size - 128))
printint_example = printint_lem (word_size - 128) 10 true (inl refl) (omega arith)

abbrev last_row : Screen
last_row = record { cells = λ q. q; pos = 23 * columns + 5 }

cgaputc_example :
    (t : Screen) × (cgaputc 10 last_row ≡ ok t)
    × OnScreen t
    × (t.cells t.pos ≡ shown 32)
    × ((q : ℕ) → 24 * columns ≤ q → t.cells q ≡ q)
cgaputc_example = cgaputc-OnScreen 10 last_row (omega arith)
