-- ===== src/Fs/Examples.antt =====
-- A disk of 20 blocks with its bitmap in block 3, where the blocks 0 to 4 are in use.
use dave.Common.{◌≡◌, ◌≢◌, refl, sym, subst, true, false, arith, [], ok, if◌then◌else◌, ◌==◌, ◌&&◌}
use dave.Fs.{Super, Disk, balloc, balloc_from, find_clear, mark, bzero}
use dave.Fs.Bitmap.{is_free, IsValid, AllocSpec, balloc_lem}

abbrev pub small_super : Super
small_super = record { size = 20; ninodes = 16; inodestart = 2; bmapstart = 3 }

abbrev pub small_disk : Disk
small_disk = record { bytes = λ q o. if q == 3 && o == 0 then 0x1f else 0; written = [] }

abbrev pub next_disk : Disk
next_disk = bzero 5 (mark small_super 0 5 small_disk)

first_free : balloc small_super small_disk ≡ ok (5, next_disk)
unfolding balloc balloc_from find_clear
first_free = refl

true_ne_false : true ≢ false
true_ne_false e = cc

pub small_disk-IsValid : IsValid small_super small_disk
small_disk-IsValid = record {
  small = λ q o. ground arith;
  reserved = λ b z in_b in_z free e.
      let three : b ≡ 3 = omega arith in
      let used : is_free small_super small_disk 3 ≡ true =
        subst (λ x. is_free small_super small_disk x ≡ true) three free in
      true_ne_false (sym used);
}

balloc_example : AllocSpec small_super small_disk (balloc small_super small_disk)
balloc_example = balloc_lem small_super small_disk small_disk-IsValid
