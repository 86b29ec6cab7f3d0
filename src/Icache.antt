-- ===== src/Icache.antt =====
-- system/storage/fs.c: the table of inodes in memory. A slot is its index in `icache.inode`; one
-- disk, so that an inode is known by its number. Each body runs under `icache.lock`; the sleep lock
-- of an inode is in Sleeplock.antt, and here its holder runs alone.
pub mod Slots
pub mod Keeping
pub mod Holders
pub mod Counts
pub mod Uses
mod Examples
use dave.Common.{
  ℕ, zero, suc, ◌+◌, ◌-◌, Bool, true, false, ◌&&◌, ◌||◌, Option, none, some, Result, ok, panic,
  List, [], ◌∷◌, if◌then◌else◌, ◌==◌, ltb, update, add32, sub32,
}
use dave.Fs.{Super, Disk, note, put_byte}
use dave.Inodes.{Inode, iblock, islot, short_at, put_short, iupdate, ilock, itrunc}

abbrev pub ninode : ℕ
ninode = 50

abbrev pub Icache : Type 0
Icache = ℕ → Inode

abbrev pub is_cached : ℕ → Inode → Bool
is_cached inum ip = ltb 0 ip.ref && ip.inum == inum

pub data Found : Type 0 where
  cached : ℕ → Found
  missing : Option ℕ → Found

-- `if(empty == 0 && ip->ref == 0) empty = ip;`
abbrev pub remember : ℕ → Inode → Option ℕ → Option ℕ
remember i ip (some e) = some e
remember i ip none = if ip.ref == 0 then some i else none

-- The loop of `iget` with `k` slots left from `i` on: where the inode is, or the first empty slot.
unfoldable pub scan : ℕ → Icache → ℕ → ℕ → Option ℕ → Found
scan inum ic zero i empty = missing empty
scan inum ic (suc k) i empty =
    let rest = scan inum ic k (suc i) (remember i (ic i) empty) in
    if is_cached inum (ic i) then cached i else rest

unfoldable pub iget : ℕ → Icache → Result (ℕ × Icache)
iget inum ic = elim (scan inum ic ninode 0 none) [
  | cached i ↦ let ip = ic i in ok (i, update ic i (record ip { ref = add32 ip.ref 1 }))
  | missing empty ↦ elim empty [
    | none ↦ panic
    | some i ↦
        let ip = ic i in ok (i, update ic i (record ip { inum = inum; ref = 1; valid = false }))
  ]
]

unfoldable pub idup : ℕ → Icache → ℕ × Icache
idup i ic = let ip = ic i in (i, update ic i (record ip { ref = add32 ip.ref 1 }))

-- `memset(dip, 0, sizeof(*dip))`, from byte `o` on.
unfoldable pub clear_bytes : ℕ → ℕ → ℕ → Disk → Disk
clear_bytes b o zero s = s
clear_bytes b o (suc n) s = clear_bytes b (o + 1) n (put_byte b o 0 s)

abbrev pub drop_ref : Inode → Inode
drop_ref ip = record ip { ref = sub32 ip.ref 1 }

module _ (sb : Super) where
  -- The loop of `ialloc` with `k` inodes left from `inum` on: the first free one.
  unfoldable pub find_inode : Disk → ℕ → ℕ → Option ℕ
  find_inode s zero inum = none
  find_inode s (suc k) inum =
      let rest = find_inode s k (suc inum) in
      if short_at s (iblock sb inum) (islot inum) == 0 then some inum else rest

  unfoldable pub claim : ℕ → ℕ → Disk → Disk
  claim inum type s =
      let b = iblock sb inum in
      note b (put_short b (islot inum) type (clear_bytes b (islot inum) 64 s))

  unfoldable pub ialloc : ℕ → Icache → Disk → Result (ℕ × Icache × Disk)
  ialloc type ic s = elim (find_inode s (sb.ninodes - 1) 1) [
    | none ↦ panic
    | some inum ↦ elim (iget inum ic) [
      | panic ↦ panic
      | ok (i, ic') ↦ ok (i, ic', claim inum type s)
    ]
  ]

  -- What `iput` does under the lock of the inode, with its content on the disk.
  unfoldable pub put_away : Inode → Disk → Result (Inode × Disk)
  put_away ip s =
      if ip.valid && ip.nlink == 0 && ip.ref == 1
      then elim (itrunc sb ip s) [
        | panic ↦ panic
        | ok (ip1, s1) ↦
            let ip2 = record ip1 { type = 0 } in
            let s2 = iupdate sb ip2 s1 in ok (record ip2 { valid = false }, s2)
      ]
      else ok (ip, s)

  unfoldable pub iput : ℕ → Icache → Disk → Result (Icache × Disk)
  iput i ic s = elim (put_away (ic i) s) [
    | panic ↦ panic
    | ok (ip', s') ↦ ok (update ic i (drop_ref ip'), s')
  ]
