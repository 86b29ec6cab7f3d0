-- ===== src/Inodes.antt =====
-- system/storage/fs.c: one inode, which its caller has locked, and the blocks of its content. Words
-- and shorts lie in blocks with their low byte first. `devread` and `devwrite` are the functions of
-- `devsw`, `none` where there is none; a result of `none` is -1.
pub mod Layout
pub mod Owned
pub mod Growth
pub mod Counting
pub mod Chain
pub mod Steps
pub mod Mapping
pub mod Reading
pub mod Storing
pub mod Writing
pub mod Updating
pub mod Files
pub mod Examples
use dave.Common.{
  ℕ, zero, suc, ◌+◌, ◌-◌, ◌*◌, ◌/◌, ◌%◌, ◌^◌, Bool, true, false, ◌&&◌, ◌||◌, List, [], ◌∷◌, ◌++◌,
  Option, none, some, Result, ok, panic, if◌then◌else◌, ◌==◌, ltb, leb, min, add32, get_or, set,
  length, take, drop,
}
use dave.Fs.{Super, Disk, bsize, note, put_byte, balloc, bfree}

abbrev pub ndirect : ℕ
ndirect = 12

abbrev pub nindirect : ℕ
nindirect = 128

abbrev pub maxfile : ℕ
maxfile = 140

-- `struct inode`, and the record on disk of 64 bytes, 8 to a block.
pub record Inode : Type 0 where
  pub inum : ℕ
  pub ref : ℕ
  pub valid : Bool
  pub type : ℕ
  pub major : ℕ
  pub minor : ℕ
  pub nlink : ℕ
  pub size : ℕ
  pub addrs : List ℕ

abbrev pub iblock : Super → ℕ → ℕ
iblock sb i = i / 8 + sb.inodestart

abbrev pub islot : ℕ → ℕ
islot i = i % 8 * 64

abbrev pub short_at : Disk → ℕ → ℕ → ℕ
short_at s b off = s.bytes b off + 256 * s.bytes b (off + 1)

abbrev pub word_at : Disk → ℕ → ℕ → ℕ
word_at s b off = short_at s b off + 65536 * short_at s b (off + 2)

unfoldable pub put_short : ℕ → ℕ → ℕ → Disk → Disk
put_short b off x s = put_byte b (off + 1) (x / 256 % 256) (put_byte b off (x % 256) s)

unfoldable pub put_word : ℕ → ℕ → ℕ → Disk → Disk
put_word b off x s = put_short b (off + 2) (x / 65536) (put_short b off x s)

unfoldable pub put_words : ℕ → ℕ → List ℕ → Disk → Disk
put_words b off [] s = s
put_words b off (x ∷ xs) s = put_words b (off + 4) xs (put_word b off x s)

abbrev pub words_at : Disk → ℕ → ℕ → ℕ → List ℕ
words_at s b off zero = []
words_at s b off (suc k) = word_at s b off ∷ words_at s b (off + 4) k

unfoldable pub put_bytes : ℕ → ℕ → List ℕ → Disk → Disk
put_bytes b off [] s = s
put_bytes b off (x ∷ xs) s = put_bytes b (off + 1) xs (put_byte b off x s)

-- `memmove` out of a block.
abbrev pub bytes_at : Disk → ℕ → ℕ → ℕ → List ℕ
bytes_at s b off zero = []
bytes_at s b off (suc k) = s.bytes b off ∷ bytes_at s b (off + 1) k

abbrev pub prepend : List ℕ → Result (List ℕ × Inode × Disk) → Result (List ℕ × Inode × Disk)
prepend xs panic = panic
prepend xs (ok (ys, ip, s)) = ok (xs ++ ys, ip, s)

-- The bytes of one round.
abbrev pub chunk : ℕ → ℕ → ℕ
chunk off left = min left (bsize - off % bsize)

abbrev pub finish_read : Result (List ℕ × Inode × Disk) → Result (Option (List ℕ) × Inode × Disk)
finish_read panic = panic
finish_read (ok (bytes, ip, s)) = ok (some bytes, ip, s)

-- A `major` of 16 bits is not below 0 and is below NDEV.
abbrev pub ndev : ℕ
ndev = 10

abbrev pub t_dev : ℕ
t_dev = 3

abbrev pub on_device {ℓ} : {A : Type ℓ} → ℕ → (ℕ → Option A) → Option A
on_device major functions = if leb ndev major then none else functions major

module _ (sb : Super) where
  unfoldable pub iupdate : Inode → Disk → Disk
  iupdate ip s =
      let b = iblock sb ip.inum in
      let o = islot ip.inum in
      note b (
        put_words b (o + 12) ip.addrs (
          put_word b (o + 8) ip.size (
            put_short b (o + 6) ip.nlink (
              put_short b (o + 4) ip.minor
                (put_short b (o + 2) ip.major (put_short b o ip.type s))))))

  -- What `ilock` does under the lock of the inode.
  unfoldable pub load_inode : Inode → Disk → Inode
  load_inode ip s =
      let b = iblock sb ip.inum in
      let o = islot ip.inum in
      record ip {
        type = short_at s b o;
        major = short_at s b (o + 2);
        minor = short_at s b (o + 4);
        nlink = short_at s b (o + 6);
        size = word_at s b (o + 8);
        addrs = words_at s b (o + 12) 13;
        valid = true;
      }

  unfoldable pub ilock : Inode → Disk → Result Inode
  ilock ip s =
      let loaded = load_inode ip s in
      if ltb ip.ref 1
      then panic
      else if ip.valid
      then ok ip
      else if loaded.type == 0
      then panic
      else ok loaded

  -- The entry `i` of `addrs`, with a block allocated for it where it has none.
  unfoldable pub map_entry : ℕ → Inode → Disk → Result (ℕ × Inode × Disk)
  map_entry i ip s =
      if get_or ip.addrs i 0 == 0
      then elim (balloc sb s) [
        | ok (addr, s') ↦ ok (addr, record ip { addrs = set ip.addrs i addr }, s')
        | panic ↦ panic
      ]
      else ok (get_or ip.addrs i 0, ip, s)

  -- The entry `bn` of the indirect block at `root`.
  unfoldable pub map_indirect : ℕ → ℕ → Inode → Disk → Result (ℕ × Inode × Disk)
  map_indirect root bn ip s =
      if word_at s root (4 * bn) == 0
      then elim (balloc sb s) [
        | ok (addr, s') ↦ ok (addr, ip, note root (put_word root (4 * bn) addr s'))
        | panic ↦ panic
      ]
      else ok (word_at s root (4 * bn), ip, s)

  unfoldable pub through : ℕ → Result (ℕ × Inode × Disk) → Result (ℕ × Inode × Disk)
  through bn panic = panic
  through bn (ok (root, ip, s)) = map_indirect root bn ip s

  unfoldable pub bmap : ℕ → Inode → Disk → Result (ℕ × Inode × Disk)
  bmap bn ip s =
      if ltb bn ndirect
      then map_entry bn ip s
      else if ltb (bn - ndirect) nindirect
      then through (bn - ndirect) (map_entry ndirect ip s)
      else panic

  -- The loop of `readi` with `left` bytes to go, in as many rounds at most.
  unfoldable pub read_loop : ℕ → ℕ → ℕ → Inode → Disk → Result (List ℕ × Inode × Disk)
  read_loop zero off left ip s = ok ([], ip, s)
  read_loop (suc k) off left ip s = elim (left == 0) [
    | true ↦ ok ([], ip, s)
    | false ↦ elim (bmap (off / bsize) ip s) [
      | panic ↦ panic
      | ok (addr, ip', s') ↦
          prepend (bytes_at s' addr (off % bsize) (chunk off left))
            (read_loop k (off + chunk off left) (left - chunk off left) ip' s')
    ]
  ]

  -- The loop of `writei` over the bytes that are left.
  unfoldable pub write_loop : ℕ → ℕ → List ℕ → Inode → Disk → Result (Inode × Disk)
  write_loop zero off src ip s = ok (ip, s)
  write_loop (suc k) off src ip s = elim (length src == 0) [
    | true ↦ ok (ip, s)
    | false ↦ elim (bmap (off / bsize) ip s) [
      | panic ↦ panic
      | ok (addr, ip', s') ↦
          let m = chunk off (length src) in
          write_loop k (off + m) (drop m src) ip'
            (note addr (put_bytes addr (off % bsize) (take m src) s'))
    ]
  ]

  -- `ip->size = off; iupdate(ip)` where the file has grown.
  unfoldable pub grow : ℕ → Inode → Disk → Inode × Disk
  grow off ip s =
      let ip' = record ip { size = off } in
      if ltb ip.size off then (ip', iupdate ip' s) else (ip, s)

  abbrev finish_write : ℕ → ℕ → Result (Inode × Disk) → Result (Option ℕ × Inode × Disk)
  finish_write off n panic = panic
  finish_write off n (ok (ip, s)) =
      if ltb 0 n
      then (let (ip', s') = grow (off + n) ip s in ok (some n, ip', s'))
      else ok (some n, ip, s)

  unfoldable pub readi :
      (ℕ → Option (ℕ → Option (List ℕ)))
      → ℕ
      → ℕ
      → Inode
      → Disk
      → Result (Option (List ℕ) × Inode × Disk)
  readi devread off n ip s =
      let m = if ltb ip.size (add32 off n) then ip.size - off else n in
      if ip.type == t_dev
      then elim (on_device ip.major devread) [
        | none ↦ ok (none, ip, s)
        | some read ↦ ok (read n, ip, s)
      ]
      else if ltb ip.size off || ltb (add32 off n) off
      then ok (none, ip, s)
      else finish_read (read_loop m off m ip s)

  unfoldable pub writei :
      (ℕ → Option (List ℕ → Option ℕ))
      → List ℕ
      → ℕ
      → Inode
      → Disk
      → Result (Option ℕ × Inode × Disk)
  writei devwrite src off ip s =
      let n = length src in
      if ip.type == t_dev
      then elim (on_device ip.major devwrite) [
        | none ↦ ok (none, ip, s)
        | some write ↦ ok (write src, ip, s)
      ]
      else if ltb ip.size off || ltb (add32 off n) off
      then ok (none, ip, s)
      else if ltb (maxfile * bsize) (add32 off n)
      then ok (none, ip, s)
      else finish_write off n (write_loop n off src ip s)

  -- The loops of `itrunc`, over the direct entries and over the entries of the indirect block.
  unfoldable pub trunc_direct : ℕ → ℕ → Inode → Disk → Result (Inode × Disk)
  trunc_direct zero i ip s = ok (ip, s)
  trunc_direct (suc k) i ip s = elim (get_or ip.addrs i 0 == 0) [
    | true ↦ trunc_direct k (suc i) ip s
    | false ↦ elim (bfree sb (get_or ip.addrs i 0) s) [
      | panic ↦ panic
      | ok s' ↦ trunc_direct k (suc i) (record ip { addrs = set ip.addrs i 0 }) s'
    ]
  ]

  unfoldable pub trunc_indirect : ℕ → ℕ → ℕ → Disk → Result Disk
  trunc_indirect root zero j s = ok s
  trunc_indirect root (suc k) j s = elim (word_at s root (4 * j) == 0) [
    | true ↦ trunc_indirect root k (suc j) s
    | false ↦ elim (bfree sb (word_at s root (4 * j)) s) [
      | panic ↦ panic
      | ok s' ↦ trunc_indirect root k (suc j) s'
    ]
  ]

  -- The indirect block and what it lists.
  unfoldable pub trunc_root : Inode → Disk → Result (Inode × Disk)
  trunc_root ip s =
      let root = get_or ip.addrs ndirect 0 in
      if root == 0 then ok (ip, s) else elim (trunc_indirect root nindirect 0 s) [
        | panic ↦ panic
        | ok t ↦ elim (bfree sb root t) [
          | panic ↦ panic
          | ok u ↦ ok (record ip { addrs = set ip.addrs ndirect 0 }, u)
        ]
      ]

  abbrev pub finish_trunc : Result (Inode × Disk) → Result (Inode × Disk)
  finish_trunc panic = panic
  finish_trunc (ok (ip, s)) = let ip' = record ip { size = 0 } in ok (ip', iupdate ip' s)

  unfoldable pub itrunc : Inode → Disk → Result (Inode × Disk)
  itrunc ip s = elim (trunc_direct ndirect 0 ip s) [
    | panic ↦ panic
    | ok (ip', s') ↦ finish_trunc (trunc_root ip' s')
  ]
