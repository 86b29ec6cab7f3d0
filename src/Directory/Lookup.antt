-- ===== src/Directory/Lookup.antt =====
-- `dirlookup` of system/storage/fs.c over the entries that the contents of a directory spell.
use dave.Common.{
  ℕ, zero, suc, ◌+◌, ◌-◌, ◌*◌, ◌%◌, ◌≤◌, ◌≡◌, ◌≢◌, refl, ap, arith, word_size, Bool, true, false,
  ◌||◌, Bool-cases, inl, inr, List, if◌then◌else◌, ◌==◌, ltb, leb, length, Option, none, some,
  Result, ok, panic, min,
}
use dave.Fs.{Super, Disk, bsize}
use dave.Inodes.{Inode, maxfile, t_dev}
use dave.Inodes.Owned.{content}
use dave.Inodes.Reading.{segment, HasBlocks, readi_lem}
use dave.Icache.{Icache, iget}
use dave.Directory.{
  dirent_size, t_dir, namecmp, read_dirent, dirlookup_from, dir_entries, dirlookup, find_free,
}

abbrev pub inum_at : (ℕ → ℕ) → ℕ → ℕ
inum_at f off = f off + 256 * f (off + 1)

abbrev pub name_at : (ℕ → ℕ) → ℕ → List ℕ
name_at f off = segment f (off + 1 + 1) 14

abbrev pub matches : (ℕ → ℕ) → List ℕ → ℕ → Bool
matches f name off = if inum_at f off == 0 then false else namecmp name (name_at f off) == 0

-- The first of `k` entries from `off` on that has the name.
abbrev pub lookup : (ℕ → ℕ) → List ℕ → ℕ → ℕ → Option (ℕ × ℕ)
lookup f name zero off = none
lookup f name (suc k) off =
    let rest = lookup f name k (off + dirent_size) in
    if matches f name off then some (off, inum_at f off) else rest

-- The first of `k` entries from `off` on that is free, or the end.
abbrev pub free_entry : (ℕ → ℕ) → ℕ → ℕ → ℕ
free_entry f zero off = off
free_entry f (suc k) off =
    let rest = free_entry f k (off + dirent_size) in if inum_at f off == 0 then off else rest

-- A directory has whole entries, in blocks that it has.
pub record IsDirectory (dp : Inode) (s : Disk) : Type 0 where
  pub directory : dp.type ≡ t_dir
  pub whole : dp.size % dirent_size ≡ 0
  pub within : dp.size ≤ maxfile * bsize
  pub has_blocks : HasBlocks dp s dp.size

module _ (devread : ℕ → Option (ℕ → Option (List ℕ))) (sb : Super) (dp : Inode) (s : Disk)
    (d : IsDirectory dp s) where
  length-segment : (f : ℕ → ℕ) (off n : ℕ) → length (segment f off n) ≡ n
  length-segment f off zero = refl
  length-segment f off (suc n) = ap (λ (k : ℕ). suc k) (length-segment f (off + 1) n)

  read_dirent_lem :
      (off : ℕ)
      → off + dirent_size ≤ dp.size
      → read_dirent devread sb off dp s ≡ ok (segment (content dp s) off dirent_size, dp, s)
  unfolding read_dirent
  read_dirent_lem off le =
      let w = d.within in
      let t : dp.type ≢ t_dev = λ e. omega (arith, d.directory, e) in
      let read =
        readi_lem sb devread off dirent_size dp s t w d.has_blocks (omega arith) (omega arith) in
      let guard : (ltb dp.size off || leb word_size (off + dirent_size)) ≡ false =
        ground (arith, w, le) in
      let count : min dirent_size (dp.size - off) ≡ dirent_size = ground (arith, le) in
      rw (read, guard, count, read_dirent) refl

  pub dirlookup_from_lem :
      (k off : ℕ) (name : List ℕ)
      → off + dirent_size * k ≡ dp.size
      → dirlookup_from devread sb k off name dp s ≡ ok (lookup (content dp s) name k off, dp, s)
  unfolding dirlookup_from
  dirlookup_from_lem zero off name e = refl
  dirlookup_from_lem (suc k) off name e =
      let more : ltb off dp.size ≡ true = ground (arith, e) in
      let read = read_dirent_lem off (omega arith) in
      let rest = dirlookup_from_lem k (off + dirent_size) name (omega arith) in
      elim (Bool-cases (inum_at (content dp s) off == 0)) [
        | inl z ↦ rw (more, read, z, rest, dirlookup_from) refl
        | inr used ↦ elim (Bool-cases (namecmp name (name_at (content dp s) off) == 0)) [
          | inl same ↦ rw (more, read, used, same, dirlookup_from) refl
          | inr other ↦ rw (more, read, used, other, rest, dirlookup_from) refl
        ]
      ]

  pub find_free_lem :
      (k off : ℕ)
      → off + dirent_size * k ≡ dp.size
      → find_free devread sb k off dp s ≡ ok (free_entry (content dp s) k off, dp, s)
  unfolding find_free
  find_free_lem zero off e = refl
  find_free_lem (suc k) off e =
      let more : ltb off dp.size ≡ true = ground (arith, e) in
      let read = read_dirent_lem off (omega arith) in
      let rest = find_free_lem k (off + dirent_size) (omega arith) in
      elim (Bool-cases (inum_at (content dp s) off == 0)) [
        | inl z ↦ rw (more, read, z, find_free) refl
        | inr used ↦ rw (more, read, used, rest, find_free) refl
      ]

  pub all_entries : 0 + dirent_size * dir_entries dp ≡ dp.size
  all_entries = let w = d.whole in omega (arith, w)

  -- `dirlookup` of a directory is the first entry that is in use and has the name, with the slot of
  -- its inode, and changes nothing on the disk.
  pub dirlookup_lem :
      (name : List ℕ) (ic : Icache)
      → dirlookup devread sb name dp ic s
        ≡ (elim (lookup (content dp s) name (dir_entries dp) 0)
            as (λ o. Result (Option (ℕ × ℕ) × Inode × Icache × Disk)) [
              | none ↦ ok (none, dp, ic, s)
              | some (off, inum) ↦ elim (iget inum ic) [
                | panic ↦ panic
                | ok (slot, ic') ↦ ok (some (off, slot), dp, ic', s)
              ]
            ])
  unfolding dirlookup
  dirlookup_lem name ic =
      let t : (dp.type == t_dir) ≡ true = ground (arith, d.directory) in
      rw (t, dirlookup_from_lem (dir_entries dp) 0 name all_entries) refl
