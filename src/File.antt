-- ===== src/File.antt =====
-- system/core/file.c: the table of open files, over the pipes and the inodes. A file is its index in
-- `ftable.file`; `fileclose` and the two that read and write take what the file points at. begin_op
-- and end_op around the calls on inodes are in Log.antt. `filewrite` locks the inode for one piece at
-- a time; here its pieces follow each other with nothing in between.
pub mod References
pub mod Closing
pub mod Pieces
pub mod Writes
pub mod Examples
use dave.Common.{
  ℕ, zero, suc, ◌+◌, ◌-◌, ◌*◌, ◌/◌, Bool, true, false, not, List, [], ◌∷◌, Option, none, some,
  Result, ok, panic, if◌then◌else◌, ◌==◌, ltb, update, add32, sub32, length, take, drop, min,
}
use dave.Fs.{Super, Disk}
use dave.Inodes.{Inode, ilock, readi, writei}
use dave.Icache.{Icache, iput}
use dave.Log.{maxopblocks}
use dave.Kalloc.{Kmem}
use dave.Proc.{Table}
use dave.Pipe.{Pipe, Taken, Written, piperead, pipewrite, pipeclose}

abbrev pub nfile : ℕ
nfile = 100

pub data FileType : Type 0 where
  fd_none : FileType
  fd_pipe : FileType
  fd_inode : FileType

-- `pipe` and `ip` are the places of what the file is open on.
pub record File : Type 0 where
  pub type : FileType
  pub ref : ℕ
  pub readable : Bool
  pub writable : Bool
  pub pipe : ℕ
  pub ip : ℕ
  pub off : ℕ

abbrev pub Ftable : Type 0
Ftable = ℕ → File

-- The loop of `filealloc` with `k` files left from `i` on.
unfoldable pub find_file : ℕ → ℕ → Ftable → Option ℕ
find_file zero i ft = none
find_file (suc k) i ft =
    let rest = find_file k (suc i) ft in let f = ft i in if f.ref == 0 then some i else rest

unfoldable pub filealloc : Ftable → Option (ℕ × Ftable)
filealloc ft = elim (find_file nfile 0 ft) [
  | none ↦ none
  | some i ↦ let f = ft i in some (i, update ft i (record f { ref = 1 }))
]

unfoldable pub filedup : ℕ → Ftable → Result Ftable
filedup i ft =
    let f = ft i in
    if ltb f.ref 1 then panic else ok (update ft i (record f { ref = add32 f.ref 1 }))

-- `fileclose` up to the release of the lock: the file to be closed, for the last reference.
unfoldable pub drop_file : ℕ → Ftable → Result (Option File × Ftable)
drop_file i ft =
    let f = ft i in
    let left = sub32 f.ref 1 in
    if ltb f.ref 1
    then panic
    else if ltb 0 left
    then ok (none, update ft i (record f { ref = left }))
    else ok (some f, update ft i (record f { ref = 0; type = fd_none }))

-- What the files are open on.
pub record Objects : Type 0 where
  pub pipes : ℕ → Pipe
  pub procs : Table
  pub pages : Kmem
  pub cache : Icache
  pub disk : Disk

module _ (sb : Super) where
  -- The rest of `fileclose`, with the copy of the file.
  unfoldable pub close_object : ℕ → File → FileType → Objects → Result Objects
  close_object kernel_end f fd_none o = ok o
  close_object kernel_end f fd_pipe o =
      elim (pipeclose kernel_end f.writable (o.pipes f.pipe) o.procs o.pages) [
        | panic ↦ panic
        | ok (p, ps, k) ↦ ok (record o { pipes = update o.pipes f.pipe p; procs = ps; pages = k })
      ]
  close_object kernel_end f fd_inode o = elim (iput sb f.ip o.cache o.disk) [
    | panic ↦ panic
    | ok (ic, s) ↦ ok (record o { cache = ic; disk = s })
  ]

  unfoldable pub fileclose : ℕ → ℕ → Ftable → Objects → Result (Ftable × Objects)
  fileclose kernel_end i ft o = elim (drop_file i ft) [
    | panic ↦ panic
    | ok (last, ft') ↦ elim last [
      | none ↦ ok (ft', o)
      | some f ↦ elim (close_object kernel_end f f.type o) [ panic ↦ panic | ok o' ↦ ok (ft', o') ]
    ]
  ]

-- `struct stat` without the device.
pub record Stat : Type 0 where
  pub type : ℕ
  pub ino : ℕ
  pub nlink : ℕ
  pub size : ℕ

unfoldable pub stati : Inode → Stat
stati ip = record { type = ip.type; ino = ip.inum; nlink = ip.nlink; size = ip.size }

-- The answer of a read: -1, or the bytes; or what the pipe did.
pub data Answer : Type 0 where
  bytes_read : Option (List ℕ) → Answer
  from_pipe : Taken → Answer

pub data Sent : Type 0 where
  bytes_written : Option ℕ → Sent
  to_pipe : Written → Sent

module _ (sb : Super) where
  unfoldable pub filestat : File → FileType → Objects → Result (Option Stat × Objects)
  filestat f fd_none o = ok (none, o)
  filestat f fd_pipe o = ok (none, o)
  filestat f fd_inode o = elim (ilock sb (o.cache f.ip) o.disk) [
    | panic ↦ panic
    | ok ip ↦ ok (some (stati ip), record o { cache = update o.cache f.ip ip })
  ]

-- `f->off += r` where `r` is above 0.
abbrev pub advance : Option (List ℕ) → File → File
advance none f = f
advance (some bytes) f = record f { off = add32 f.off (length bytes) }

module _ (devread : ℕ → Option (ℕ → Option (List ℕ))) (sb : Super) where
  unfoldable pub read_inode : ℕ → File → Objects → Result (Answer × File × Objects)
  read_inode n f o = elim (ilock sb (o.cache f.ip) o.disk) [
    | panic ↦ panic
    | ok ip ↦ elim (readi sb devread f.off n ip o.disk) [
      | panic ↦ panic
      | ok (r, ip', s) ↦
          ok (bytes_read r, advance r f, record o { cache = update o.cache f.ip ip'; disk = s })
    ]
  ]

  unfoldable pub read_from :
      ℕ → Bool → ℕ → File → FileType → Objects → Result (Answer × File × Objects)
  read_from caller killed n f fd_none o = panic
  read_from caller killed n f fd_pipe o =
      let (r, p, ps) = piperead caller killed n (o.pipes f.pipe) o.procs in
      ok (from_pipe r, f, record o { pipes = update o.pipes f.pipe p; procs = ps })
  read_from caller killed n f fd_inode o = read_inode n f o

  unfoldable pub fileread : ℕ → Bool → ℕ → File → Objects → Result (Answer × File × Objects)
  fileread caller killed n f o =
      if f.readable then read_from caller killed n f f.type o else ok (bytes_read none, f, o)

-- `((MAXOPBLOCKS-1-1-2) / 2) * 512`
abbrev pub max_write : ℕ
max_write = (maxopblocks - 1 - 1 - 2) / 2 * 512

module _ (devwrite : ℕ → Option (List ℕ → Option ℕ)) (sb : Super) where
  -- The loop of `filewrite` over the bytes that are left, in `k` rounds at most: whether it wrote
  -- them all.
  unfoldable pub write_chunks : ℕ → List ℕ → File → Objects → Result (Bool × File × Objects)
  write_chunks zero src f o = ok (true, f, o)
  write_chunks (suc k) src f o =
      let n1 = min (length src) max_write in
      elim (length src == 0) [
        | true ↦ ok (true, f, o)
        | false ↦ elim (ilock sb (o.cache f.ip) o.disk) [
          | panic ↦ panic
          | ok ip ↦ elim (writei sb devwrite (take n1 src) f.off ip o.disk) [
            | panic ↦ panic
            | ok (r, ip', s) ↦
                let o' : Objects = record o { cache = update o.cache f.ip ip'; disk = s } in
                elim r [
                  | none ↦ ok (false, f, o')
                  | some m ↦ elim (m == n1) [
                    | false ↦ panic
                    | true ↦ write_chunks k (drop n1 src) (record f { off = add32 f.off m }) o'
                  ]
                ]
          ]
        ]
      ]

  -- `return i == n ? n : -1`
  abbrev pub chunks_answer : ℕ → Result (Bool × File × Objects) → Result (Sent × File × Objects)
  chunks_answer n panic = panic
  chunks_answer n (ok (all, f, o)) = ok (bytes_written (if all then some n else none), f, o)

  unfoldable pub write_to :
      ℕ → Bool → List ℕ → File → FileType → Objects → Result (Sent × File × Objects)
  write_to caller killed src f fd_none o = panic
  write_to caller killed src f fd_pipe o =
      let (r, p, ps) = pipewrite caller killed src (o.pipes f.pipe) o.procs in
      ok (to_pipe r, f, record o { pipes = update o.pipes f.pipe p; procs = ps })
  write_to caller killed src f fd_inode o =
      chunks_answer (length src) (write_chunks (length src) src f o)

  unfoldable pub filewrite : ℕ → Bool → List ℕ → File → Objects → Result (Sent × File × Objects)
  filewrite caller killed src f o =
      if f.writable then write_to caller killed src f f.type o else ok (bytes_written none, f, o)
