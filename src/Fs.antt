-- ===== src/Fs.antt =====
-- system/storage/fs.c, its lowest layer: the blocks of the disk as `bread` gives them, by bytes, and
-- the bitmap of free blocks. One disk; `written` has the blocks given to `log_write`, the last
-- one first (that `log_write` does not panic is in Log/Reserve.antt).
pub mod Bits
pub mod Bitmap
pub mod Examples
use Prim.Native.Nat.{bit_and, bit_or}
use dave.Common.{
  ℕ, zero, suc, ◌+◌, ◌-◌, ◌/◌, ◌%◌, ◌^◌, Bool, true, false, ◌&&◌, not, List, [], ◌∷◌, Option, none,
  some, Result, ok, panic, if◌then◌else◌, ◌==◌, ltb,
}

abbrev pub bsize : ℕ
bsize = 512

-- Bits in a block of the bitmap.
abbrev pub bpb : ℕ
bpb = 4096

pub record Super : Type 0 where
  pub size : ℕ
  pub ninodes : ℕ
  pub inodestart : ℕ
  pub bmapstart : ℕ

pub record Disk : Type 0 where
  pub bytes : ℕ → ℕ → ℕ
  pub written : List ℕ

abbrev pub bblock : Super → ℕ → ℕ
bblock sb b = b / bpb + sb.bmapstart

abbrev pub note : ℕ → Disk → Disk
note b s = record s { written = b ∷ s.written }

abbrev pub put_byte : ℕ → ℕ → ℕ → Disk → Disk
put_byte b off v s = record s { bytes = λ q o. if q == b && o == off then v else s.bytes q o }

unfoldable pub bzero : ℕ → Disk → Disk
bzero b s = note b (record s { bytes = λ q o. if q == b && ltb o bsize then 0 else s.bytes q o })

-- `1 << (bi % 8)`.
abbrev pub mask : ℕ → ℕ
mask bi = 2 ^ (bi % 8)

abbrev pub is_clear : ℕ → ℕ → Bool
is_clear byte bi = bit_and byte (mask bi) == 0

-- `|= m` and, on a byte, `&= ~m`.
abbrev pub with_bit : ℕ → ℕ → ℕ
with_bit byte bi = bit_or byte (mask bi)

abbrev pub without_bit : ℕ → ℕ → ℕ
without_bit byte bi = bit_and byte (255 - mask bi)

module _ (sb : Super) where
  -- The inner loop of `balloc`, with `k` rounds left at `bi`: the first clear bit.
  unfoldable pub find_clear : Disk → ℕ → ℕ → ℕ → Option ℕ
  find_clear s b zero bi = none
  find_clear s b (suc k) bi =
      let rest = find_clear s b k (suc bi) in
      if ltb (b + bi) sb.size
      then (if is_clear (s.bytes (bblock sb b) (bi / 8)) bi then some bi else rest)
      else none

  unfoldable pub mark : ℕ → ℕ → Disk → Disk
  mark b bi s =
      let bp = bblock sb b in note bp (put_byte bp (bi / 8) (with_bit (s.bytes bp (bi / 8)) bi) s)

  -- The outer loop, with `k` blocks of the bitmap left from block `b` on.
  unfoldable pub balloc_from : ℕ → ℕ → Disk → Result (ℕ × Disk)
  balloc_from zero b s = panic
  balloc_from (suc k) b s =
      let next = balloc_from k (b + bpb) s in
      if ltb b sb.size
      then elim (find_clear s b bpb 0) [
        | some bi ↦ ok (b + bi, bzero (b + bi) (mark b bi s))
        | none ↦ next
      ]
      else panic

  unfoldable pub balloc : Disk → Result (ℕ × Disk)
  balloc s = balloc_from ((sb.size + bpb - 1) / bpb) 0 s

  unfoldable pub bfree : ℕ → Disk → Result Disk
  bfree b s =
      let bp = bblock sb b in
      let bi = b % bpb in
      if is_clear (s.bytes bp (bi / 8)) bi
      then panic
      else ok (note bp (put_byte bp (bi / 8) (without_bit (s.bytes bp (bi / 8)) bi) s))
