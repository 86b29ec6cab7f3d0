-- ===== src/Icache/Examples.antt =====
-- The table of inodes at the start, and two calls of `iget`.
use dave.Common.{◌≡◌, refl, arith, false, [], ◌∷◌, ok, update}
use dave.Fs.Examples.{small_super, small_disk}
use dave.Inodes.{Inode}
use dave.Icache.{iget, scan}
use dave.Icache.Slots.{IgetSpec, iget_lem}
use dave.Icache.Holders.{World, Step, gets, here, later, IsCounted}
use dave.Icache.Uses.{Reach-IsCounted}

abbrev no_inode : Inode
no_inode = record {
  inum = 0;
  ref = 0;
  valid = false;
  type = 0;
  major = 0;
  minor = 0;
  nlink = 0;
  size = 0;
  addrs = [];
}

abbrev at_start : World
at_start = record { cache = λ i. no_inode; disk = small_disk; held = [] }

abbrev taken : Inode
taken = record no_inode { inum = 1; ref = 1 }

abbrev with_root : World
with_root = record at_start { cache = update at_start.cache 0 taken; held = (0, 1) ∷ [] }

iget_example : IgetSpec 1 with_root.cache (iget 1 with_root.cache)
iget_example = iget_lem 1 with_root.cache

gets_root : Step small_super at_start with_root
gets_root = gets at_start 1 0 with_root.cache (omega arith) first
  where
    first : iget 1 at_start.cache ≡ ok (0, with_root.cache)
    first = unfold iget scan in refl

start-IsCounted : IsCounted at_start
start-IsCounted = record {
  counted = λ i lt. refl;
  numbers = λ i n h. absurd h;
  one_per = λ n i j in_i in_j e f. cc;
  bounded = omega arith;
}

Reach-IsCounted_example : IsCounted with_root
Reach-IsCounted_example =
    Reach-IsCounted small_super at_start with_root
      (later at_start at_start with_root (here at_start) gets_root) start-IsCounted
