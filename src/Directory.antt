-- ===== src/Directory.antt =====
-- system/storage/fs.c: directories, over the calls on inodes. An entry is 16 bytes: the number of
-- an inode and a name. A name is the list of its bytes, with zeros behind them. `devread` and
-- `devwrite` are the functions of `devsw`, which a directory does not use.
pub mod Names
pub mod Lookup
pub mod Entries
pub mod Cases
pub mod Linking
mod Examples
use dave.Common.{
  ℕ, zero, suc, ◌+◌, ◌-◌, ◌*◌, ◌/◌, ◌%◌, Bool, true, false, not, List, [], ◌∷◌, Option, none, some,
  Result, ok, panic, if◌then◌else◌, ◌==◌, ltb, get_or, length, drop,
}
use dave.Strings.{Memory, strncmp, strncpy}
use dave.Fs.{Super, Disk}
use dave.Inodes.{Inode, readi, writei}
use dave.Icache.{Icache, iget, iput}

abbrev pub dirsiz : ℕ
dirsiz = 14

abbrev pub dirent_size : ℕ
dirent_size = 16

abbrev pub t_dir : ℕ
t_dir = 1

-- Two names in memory, at 0 and at 16.
abbrev pub two_names : List ℕ → List ℕ → Memory
two_names s t a = if ltb a 16 then get_or s a 0 else get_or t (a - 16) 0

unfoldable pub namecmp : List ℕ → List ℕ → ℕ
namecmp s t = strncmp 0 16 dirsiz (two_names s t)

abbrev pub bytes_from : Memory → ℕ → ℕ → List ℕ
bytes_from m a zero = []
bytes_from m a (suc n) = m a ∷ bytes_from m (a + 1) n

-- `strncpy(de.name, name, DIRSIZ)`
unfoldable pub name_field : List ℕ → List ℕ
name_field name = bytes_from (strncpy 16 0 dirsiz (two_names name [])) 16 dirsiz

-- `struct dirent`
abbrev pub de_inum : List ℕ → ℕ
de_inum de = get_or de 0 0 + 256 * get_or de 1 0

abbrev pub de_name : List ℕ → List ℕ
de_name de = drop 2 de

abbrev pub dirent : ℕ → List ℕ → List ℕ
dirent inum name = inum % 256 ∷ inum / 256 % 256 ∷ name_field name

abbrev pub dir_entries : Inode → ℕ
dir_entries dp = (dp.size + 15) / dirent_size

module _ (devread : ℕ → Option (ℕ → Option (List ℕ))) (sb : Super) where
  -- `readi(dp, (char*)&de, off, sizeof(de))`, which panics unless it reads them all.
  unfoldable pub read_dirent : ℕ → Inode → Disk → Result (List ℕ × Inode × Disk)
  read_dirent off dp s = elim (readi sb devread off dirent_size dp s) [
    | panic ↦ panic
    | ok (bytes, dp', s') ↦ elim bytes [
      | none ↦ panic
      | some de ↦ if length de == dirent_size then ok (de, dp', s') else panic
    ]
  ]

  -- The loop of `dirlookup` in as many rounds at most: the offset and the inode of the name.
  unfoldable pub dirlookup_from :
      ℕ → ℕ → List ℕ → Inode → Disk → Result (Option (ℕ × ℕ) × Inode × Disk)
  dirlookup_from zero off name dp s = ok (none, dp, s)
  dirlookup_from (suc k) off name dp s = elim (ltb off dp.size) [
    | false ↦ ok (none, dp, s)
    | true ↦ elim (read_dirent off dp s) [
      | panic ↦ panic
      | ok (de, dp', s') ↦
          let rest = dirlookup_from k (off + dirent_size) name dp' s' in
          if de_inum de == 0
          then rest
          else if namecmp name (de_name de) == 0
          then ok (some (off, de_inum de), dp', s')
          else rest
    ]
  ]

  -- The offset of the entry and the slot of its inode.
  unfoldable pub dirlookup :
      List ℕ → Inode → Icache → Disk → Result (Option (ℕ × ℕ) × Inode × Icache × Disk)
  dirlookup name dp ic s =
      if not (dp.type == t_dir) then panic else elim (dirlookup_from (dir_entries dp) 0 name dp s) [
        | panic ↦ panic
        | ok (found, dp', s') ↦ elim found [
          | none ↦ ok (none, dp', ic, s')
          | some (off, inum) ↦ elim (iget inum ic) [
            | panic ↦ panic
            | ok (slot, ic') ↦ ok (some (off, slot), dp', ic', s')
          ]
        ]
      ]

  -- The second loop of `dirlink`: the offset of the first free entry, or of the end.
  unfoldable pub find_free : ℕ → ℕ → Inode → Disk → Result (ℕ × Inode × Disk)
  find_free zero off dp s = ok (off, dp, s)
  find_free (suc k) off dp s = elim (ltb off dp.size) [
    | false ↦ ok (off, dp, s)
    | true ↦ elim (read_dirent off dp s) [
      | panic ↦ panic
      | ok (de, dp', s') ↦
          let rest = find_free k (off + dirent_size) dp' s' in
          if de_inum de == 0 then ok (off, dp', s') else rest
    ]
  ]

module _ (devwrite : ℕ → Option (List ℕ → Option ℕ)) (sb : Super) where
  -- `writei` of the new entry, which panics unless all of it is written.
  unfoldable pub write_dirent : List ℕ → ℕ → Result (ℕ × Inode × Disk) → Result (Inode × Disk)
  write_dirent name inum panic = panic
  write_dirent name inum (ok (off, dp, s)) = elim (writei sb devwrite (dirent inum name) off dp s) [
    | panic ↦ panic
    | ok (n, dp', s') ↦ elim n [
      | none ↦ panic
      | some m ↦ if m == dirent_size then ok (dp', s') else panic
    ]
  ]

module _ (devread : ℕ → Option (ℕ → Option (List ℕ))) (devwrite : ℕ → Option (List ℕ → Option ℕ))
    (sb : Super) where
  -- Whether the name was linked; `false` is -1.
  unfoldable pub dirlink :
      List ℕ → ℕ → Inode → Icache → Disk → Result (Bool × Inode × Icache × Disk)
  dirlink name inum dp ic s = elim (dirlookup devread sb name dp ic s) [
    | panic ↦ panic
    | ok (found, dp1, ic1, s1) ↦ elim found [
      | some (off, slot) ↦ elim (iput sb slot ic1 s1) [
        | panic ↦ panic
        | ok (ic2, s2) ↦ ok (false, dp1, ic2, s2)
      ]
      | none ↦
          elim (write_dirent devwrite sb name inum
            (find_free devread sb (dir_entries dp1) 0 dp1 s1)) [
              | panic ↦ panic
              | ok (dp2, s2) ↦ ok (true, dp2, ic1, s2)
            ]
    ]
  ]
