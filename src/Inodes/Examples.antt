-- ===== src/Inodes/Examples.antt =====
-- A file without blocks on the small disk, whose inode is in block 2.
use dave.Common.{
  ℕ, zero, suc, ◌≡◌, ◌≢◌, refl, true, arith, List, [], ◌∷◌, get_or, set, none, some, ok, Bool-cases,
  inl, inr, ltb,
}
use dave.Fs.{Disk, note, balloc, balloc_from, find_clear}
use dave.Fs.Examples.{small_super, small_disk, small_disk-IsValid, next_disk}
use dave.Inodes.{Inode, bmap, map_entry, put_bytes, iupdate, write_loop, readi, writei, grow}
use dave.Inodes.Owned.{block_of, Owned, IsFile}
use dave.Inodes.Mapping.{BmapSpec, bmap_lem}
use dave.Inodes.Storing.{Bytes}
use dave.Inodes.Files.{WriteSpec, writei_lem, readi-writei}

abbrev pub zeros : ℕ → List ℕ
zeros zero = []
zeros (suc n) = 0 ∷ zeros n

get_or-zeros : (n i : ℕ) → get_or (zeros n) i 0 ≡ 0
get_or-zeros zero i = refl
get_or-zeros (suc n) zero = refl
get_or-zeros (suc n) (suc i) = get_or-zeros n i

abbrev pub of_type : ℕ → Inode
of_type t = record {
  inum = 1;
  ref = 1;
  valid = true;
  type = t;
  major = 0;
  minor = 0;
  nlink = 1;
  size = 0;
  addrs = zeros 13;
}

abbrev empty : Inode
empty = of_type 2

no_block : (t i : ℕ) → block_of (of_type t) small_disk i ≡ 0
no_block t i = elim (Bool-cases (ltb i 12)) [
  | inl low ↦ rw low (get_or-zeros 13 i)
  | inr high ↦ rw high refl
]

inode_block-Owned : Owned small_super small_disk 2
inode_block-Owned = record { inside = omega arith; used = refl; apart = λ z in_z e. omega arith }

pub of_type-IsFile : (t : ℕ) → IsFile small_super (of_type t) small_disk
of_type-IsFile t = record {
  disk = small_disk-IsValid;
  entries = refl;
  bounded = omega arith;
  boot = refl;
  inode_block = inode_block-Owned;
  root_owned = λ ne. absurd (ne refl);
  root_apart = λ ne. absurd (ne refl);
  owned = λ i lt ne. absurd (ne (no_block t i));
  off_root = λ i lt ne. absurd (ne (no_block t i));
  off_inode = λ i lt ne. absurd (ne (no_block t i));
  distinct = λ i j in_i in_j ne. absurd (ne (no_block t i));
}

file_type : empty.type ≢ 3
file_type e = omega arith

bmap_example : BmapSpec small_super 13 empty small_disk (bmap small_super 13 empty small_disk)
bmap_example = bmap_lem small_super 13 empty small_disk (omega arith) (of_type-IsFile 2)

abbrev word : List ℕ
word = 7 ∷ 8 ∷ 9 ∷ []

word-Bytes : Bytes word
word-Bytes = (omega arith, (omega arith, (omega arith, tt)))

writei_example :
    WriteSpec small_super 0 word empty small_disk
      (writei small_super (λ n. none) word 0 empty small_disk)
writei_example =
    writei_lem small_super (λ n. none) word 0 empty small_disk file_type (omega arith)
      (λ i lt. absurd (omega arith)) (omega arith) word-Bytes (of_type-IsFile 2)

abbrev file : Inode
file = record empty { addrs = set (zeros 13) 0 5; size = 3 }

abbrev with_word : Disk
with_word = iupdate small_super file (note 5 (put_bytes 5 0 word next_disk))

writes_word : writei small_super (λ n. none) word 0 empty small_disk ≡ ok (some 3, file, with_word)
unfolding writei write_loop bmap map_entry balloc balloc_from find_clear grow
writes_word = refl

readi-writei_example :
    readi small_super (λ n. none) 0 3 file with_word ≡ ok (some word, file, with_word)
readi-writei_example =
    readi-writei small_super (λ n. none) (λ n. none) word 0 3 empty small_disk file with_word
      file_type (omega arith) (λ i lt. absurd (omega arith)) (omega arith) word-Bytes
      (of_type-IsFile 2) writes_word
