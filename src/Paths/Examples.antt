-- ===== src/Paths/Examples.antt =====
-- The path "//ab/c" and the empty path from a current directory in slot 0.
use dave.Common.{ℕ, ◌≡◌, refl, false, List, [], ◌∷◌, Option, none, replicate}
use dave.Fs.Examples.{small_super, small_disk}
use dave.Inodes.Examples.{of_type}
use dave.Icache.{Icache, idup}
use dave.Paths.{skipelem, namex}
use dave.Paths.Elements.{elements, SkipSpec, skipelem_lem}
use dave.Paths.Walk.{walk, namex_lem}

abbrev path : List ℕ
path = 47 ∷ 47 ∷ 97 ∷ 98 ∷ 47 ∷ 99 ∷ []

two_elements : elements path ≡ (97 ∷ 98 ∷ []) ∷ (99 ∷ []) ∷ []
two_elements = refl

abbrev buffer : List ℕ
buffer = replicate 14 0

skipelem_example : SkipSpec path buffer (elements path) (skipelem path buffer)
skipelem_example = skipelem_lem path buffer

abbrev table : Icache
table i = of_type 1

abbrev no_device : ℕ → Option (ℕ → Option (List ℕ))
no_device n = none

namex_example :
    namex no_device small_super false [] buffer 0 table small_disk
    ≡ walk no_device small_super false [] buffer 0 (idup 0 table).1 small_disk
unfolding idup
namex_example = namex_lem no_device small_super false [] buffer 0 table small_disk
