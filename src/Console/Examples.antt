-- ===== src/Console/Examples.antt =====
-- Concrete runs of the console: a user types two letters, erases one and ends the line; a process
-- reads it.
use dave.Common.{ℕ, List, ◌≡◌, refl, arith, false, [], ◌∷◌, replicate, length-replicate}
use dave.Console.{Console, consoleintr, consoleread, done, erase, add_char, rub_out, intr_char}
use dave.Console.Line.{IsValid, ready}
use dave.Console.Views.{Bytes, IsAwake, view, type_all}
use dave.Console.Typing.{consoleintr_lem}
use dave.Console.Reading.{ReadSpec, take_line, consoleread_lem}

-- The counters are about to go round.
abbrev quiet : Console
quiet = record {
  buf = replicate 128 0;
  r = 0xFFFFFFFF;
  w = 0xFFFFFFFF;
  e = 0xFFFFFFFF;
  echoed = [];
  doprocdump = false;
  procs = [];
}

quiet-IsValid : IsValid quiet
quiet-IsValid = record {
  storage = length-replicate {A = ℕ} 128 0;
  small_r = omega arith;
  small_w = omega arith;
  small_e = omega arith;
  order = omega arith;
  within = omega arith;
  unbroken = refl;
}

-- "hx", backspace, "i", return.
abbrev keys : List ℕ
keys = 104 ∷ 120 ∷ 8 ∷ 105 ∷ 13 ∷ []

keys-Bytes : Bytes keys
keys-Bytes = (omega arith, (omega arith, (omega arith, (omega arith, (omega arith, tt)))))

quiet-IsAwake : IsAwake 0x80110000 quiet
quiet-IsAwake ne = absurd (ne refl)

abbrev after_keys : Console
after_keys = consoleintr 0x80110000 keys quiet

typed_line : ready after_keys ≡ 104 ∷ 105 ∷ 10 ∷ []
unfolding consoleintr intr_char add_char rub_out erase
typed_line = refl

read_line : (consoleread 0x80110000 0 false 100 100 after_keys).0 ≡ done (104 ∷ 105 ∷ 10 ∷ [])
unfolding consoleintr intr_char add_char rub_out erase consoleread
read_line = refl

consoleintr_example :
    IsValid after_keys
    × (view after_keys ≡ type_all keys (view quiet))
    × IsAwake 0x80110000 after_keys
consoleintr_example = consoleintr_lem 0x80110000 keys quiet quiet-IsValid keys-Bytes quiet-IsAwake

consoleread_example :
    let (t, s') = consoleread 0x80110000 0 false 100 100 after_keys in
    ReadSpec 0x80110000 after_keys s' t (take_line false 100 100 (ready after_keys))
consoleread_example = consoleread_lem 0x80110000 0 false 100 100 after_keys (consoleintr_example.0)
