-- ===== src/Directory/Examples.antt =====
-- A link is made in a directory that has no entries.
use dave.Common.{ℕ, ◌≡◌, ◌≢◌, refl, true, arith, List, [], ◌∷◌, set, Option, none, some, ok}
use dave.Fs.{Disk, note, balloc, balloc_from, find_clear}
use dave.Fs.Examples.{small_super, small_disk, next_disk}
use dave.Inodes.{Inode, bmap, map_entry, put_bytes, iupdate, write_loop, writei, grow}
use dave.Inodes.Owned.{content, IsFile}
use dave.Inodes.Storing.{Bytes}
use dave.Inodes.Examples.{of_type, of_type-IsFile, zeros}
use dave.Icache.{Icache}
use dave.Directory.{
  dirent, name_field, namecmp, dirlookup_from, dirlookup, find_free, write_dirent, dirlink,
}
use dave.Directory.Lookup.{lookup, IsDirectory, dirlookup_lem}
use dave.Directory.Linking.{dirlookup-dirlink}

abbrev devices {ℓ} : {A : Type ℓ} → ℕ → Option A
devices n = none

abbrev empty : Inode
empty = of_type 1

empty-IsDirectory : IsDirectory empty small_disk
empty-IsDirectory = record {
  directory = refl;
  whole = refl;
  within = omega arith;
  has_blocks = λ i lt. absurd (omega arith);
}

abbrev name : List ℕ
name = 97 ∷ 98 ∷ []

abbrev no_inodes : Icache
no_inodes i = record (of_type 0) { ref = 0 }

abbrev directory : Inode
directory = record empty { addrs = set (zeros 13) 0 5; size = 16 }

abbrev with_entry : Disk
with_entry = iupdate small_super directory (note 5 (put_bytes 5 0 (dirent 3 name) next_disk))

links :
    dirlink devices devices small_super name 3 empty no_inodes small_disk
    ≡ ok (true, directory, no_inodes, with_entry)
unfolding dirlink dirlookup dirlookup_from find_free write_dirent writei write_loop bmap map_entry
    balloc balloc_from find_clear grow name_field
links = refl

name-Bytes : Bytes name
name-Bytes = (omega arith, (omega arith, tt))

dirlookup-dirlink_example :
    IsDirectory directory with_entry
    × IsFile small_super directory with_entry
    × (lookup (content directory with_entry) name 1 0 ≡ some (0, 3))
    × ((other : List ℕ)
        → namecmp other (name_field name) ≢ 0
        → lookup (content directory with_entry) other 1 0 ≡ none)
dirlookup-dirlink_example =
    dirlookup-dirlink devices devices small_super name 3 empty no_inodes small_disk directory
      no_inodes with_entry empty-IsDirectory (of_type-IsFile 1) name-Bytes (omega arith)
      (omega arith) links

dirlookup_example :
    dirlookup devices small_super name empty no_inodes small_disk
    ≡ ok (none, empty, no_inodes, small_disk)
dirlookup_example =
    dirlookup_lem devices small_super empty small_disk empty-IsDirectory name no_inodes
