-- ===== src/Paths.antt =====
-- system/storage/fs.c: path names. A path is the list of its bytes up to its NUL, a name a buffer of
-- DIRSIZ bytes. The current directory of the process is the slot `cwd`; ROOTINO is 1.
pub mod Elements
pub mod Walk
mod Examples
use dave.Common.{
  ℕ, zero, suc, ◌+◌, Bool, true, false, ◌&&◌, not, List, [], ◌∷◌, ◌++◌, Option, none, some, Result,
  ok, panic, if◌then◌else◌, ◌==◌, leb, length, take, drop, update,
}
use dave.Fs.{Super, Disk}
use dave.Inodes.{Inode, ilock}
use dave.Icache.{Icache, iget, idup, iput}
use dave.Directory.{dirsiz, t_dir, dirlookup}

abbrev pub slash : ℕ
slash = 47

abbrev pub rootino : ℕ
rootino = 1

-- `while(*path == '/') path++;`
unfoldable pub skip_slashes : List ℕ → List ℕ
skip_slashes [] = []
skip_slashes (c ∷ cs) = let rest = skip_slashes cs in if c == slash then rest else c ∷ cs

-- `while(*path != '/' && *path != 0) path++;` and what it passes.
unfoldable pub behind_element : List ℕ → List ℕ
behind_element [] = []
behind_element (c ∷ cs) = let rest = behind_element cs in if c == slash then c ∷ cs else rest

unfoldable pub element : List ℕ → List ℕ
element [] = []
element (c ∷ cs) = let rest = element cs in if c == slash then [] else c ∷ rest

unfoldable pub set_name : List ℕ → List ℕ → List ℕ
set_name s name = if leb dirsiz (length s) then take dirsiz s else s ++ 0 ∷ drop (length s + 1) name

unfoldable pub after_slashes : List ℕ → List ℕ → Option (List ℕ × List ℕ)
after_slashes [] name = none
after_slashes (c ∷ cs) name =
    some (skip_slashes (behind_element (c ∷ cs)), set_name (element (c ∷ cs)) name)

-- The rest of the path and the name, or `none` for 0.
unfoldable pub skipelem : List ℕ → List ℕ → Option (List ℕ × List ℕ)
skipelem path name = after_slashes (skip_slashes path) name

abbrev pub is_nil {ℓ} : {A : Type ℓ} → List A → Bool
is_nil [] = true
is_nil (x ∷ xs) = false

-- What a round of `namex` comes to: the end with an inode or none, or the next inode.
pub data Round : Type 0 where
  ends : Option ℕ → Icache → Disk → Round
  goes_on : ℕ → Icache → Disk → Round

-- `dirlookup` has changed `addrs` at most.
abbrev pub with_addrs : Inode → ℕ → Icache → Icache
with_addrs dp i ic = let ip = ic i in update ic i (record ip { addrs = dp.addrs })

abbrev pub is_absolute : List ℕ → Bool
is_absolute [] = false
is_absolute (c ∷ cs) = c == slash

module _ (sb : Super) where
  -- `iunlockput(ip)`, and then the end or the next inode.
  unfoldable pub put_then : Option ℕ → ℕ → Icache → Disk → Result Round
  put_then next i ic s = elim (iput sb i ic s) [
    | panic ↦ panic
    | ok (ic', s') ↦ elim next [ none ↦ ok (ends none ic' s') | some j ↦ ok (goes_on j ic' s') ]
  ]

  -- After the loop.
  unfoldable pub namex_end :
      Bool → List ℕ → ℕ → Icache → Disk → Result (Option ℕ × List ℕ × Icache × Disk)
  namex_end false name i ic s = ok (some i, name, ic, s)
  namex_end true name i ic s = elim (iput sb i ic s) [
    | panic ↦ panic
    | ok (ic', s') ↦ ok (none, name, ic', s')
  ]

module _ (devread : ℕ → Option (ℕ → Option (List ℕ))) (sb : Super) where
  -- The body of the loop, at the name of an element, which is the last one or not.
  unfoldable pub namex_round : Bool → Bool → List ℕ → ℕ → Icache → Disk → Result Round
  namex_round parent last name i ic s = elim (ilock sb (ic i) s) [
    | panic ↦ panic
    | ok ip ↦
        let ic1 = update ic i ip in
        if not (ip.type == t_dir)
        then put_then sb none i ic1 s
        else if parent && last
        then ok (ends (some i) ic1 s)
        else elim (dirlookup devread sb name ip ic1 s) [
          | panic ↦ panic
          | ok (found, dp, ic2, s2) ↦ elim found [
            | none ↦ put_then sb none i (with_addrs dp i ic2) s2
            | some (off, next) ↦ put_then sb (some next) i (with_addrs dp i ic2) s2
          ]
        ]
  ]

  -- The loop in `k` rounds at most.
  unfoldable pub namex_from :
      ℕ → Bool → List ℕ → List ℕ → ℕ → Icache → Disk → Result (Option ℕ × List ℕ × Icache × Disk)
  namex_from zero parent path name i ic s = panic
  namex_from (suc k) parent path name i ic s = elim (skipelem path name) [
    | none ↦ namex_end sb parent name i ic s
    | some (path', name') ↦ elim (namex_round parent (is_nil path') name' i ic s) [
      | panic ↦ panic
      | ok r ↦ elim r [
        | ends found ic' s' ↦ ok (found, name', ic', s')
        | goes_on j ic' s' ↦ namex_from k parent path' name' j ic' s'
      ]
    ]
  ]

  unfoldable pub namex :
      Bool → List ℕ → List ℕ → ℕ → Icache → Disk → Result (Option ℕ × List ℕ × Icache × Disk)
  namex parent path name cwd ic s =
      let start : Result (ℕ × Icache) =
        if is_absolute path then iget rootino ic else ok (idup cwd ic) in
      elim start [
        | panic ↦ panic
        | ok (i, ic') ↦ namex_from (suc (length path)) parent path name i ic' s
      ]

  unfoldable pub namei :
      List ℕ → List ℕ → ℕ → Icache → Disk → Result (Option ℕ × List ℕ × Icache × Disk)
  namei path name cwd ic s = namex false path name cwd ic s

  unfoldable pub nameiparent :
      List ℕ → List ℕ → ℕ → Icache → Disk → Result (Option ℕ × List ℕ × Icache × Disk)
  nameiparent path name cwd ic s = namex true path name cwd ic s
