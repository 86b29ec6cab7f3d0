-- ===== src/File/Pieces.antt =====
-- One round of the loop of `filewrite` (system/core/file.c), and what the loop is to do.
use dave.Common.{
  ℕ, ◌+◌, ◌-◌, ◌*◌, ◌/◌, ◌<◌, ◌≤◌, ◌≡◌, ◌≢◌, ◌⊎◌, refl, sym, ap, ◌∙◌, subst, arith, word_size, Bool,
  true, false, ◌&&◌, Bool-cases, inl, inr, List, if◌then◌else◌, ltb, length, take, drop, min,
  update, length-take, length-drop, Result, ok, panic,
}
use dave.Fs.{Super, Disk, bsize}
use dave.Inodes.{Inode, maxfile, t_dev}
use dave.Inodes.Owned.{content, Owned, IsFile}
use dave.Inodes.Growth.{Other}
use dave.Inodes.Counting.{free_count}
use dave.Inodes.Reading.{HasBlocks}
use dave.Inodes.Storing.{patched}
use dave.Inodes.Writing.{touched, patched-ap, patched-split}
use dave.Inodes.Files.{Written}
use dave.File.{File, Objects, max_write}

-- An upper bound of the blocks that the pieces of a write touch, one after the other.
abbrev pub pieces_touched : ℕ → ℕ → ℕ
pieces_touched off len = touched off len + len / max_write

size_step :
    (size off m len size1 size2 : ℕ)
    → 0 < len
    → m ≡ min len max_write
    → size1 ≡ (if ltb size (off + m) then off + m else size)
    → size2
      ≡ (if ltb 0 (len - m) && ltb size1 (off + m + (len - m)) then off + m + (len - m) else size1)
    → size2 ≡ (if ltb 0 len && ltb size (off + len) then off + len else size)
size_step size off m len size1 size2 pos e e1 e2 = ground (arith, e, e1, e2, pos)

pub pieces_step :
    (off m len : ℕ)
    → 0 < len
    → m ≡ min len max_write
    → touched off m + pieces_touched (off + m) (len - m) ≤ pieces_touched off len
pieces_step off m len pos e = elim (Bool-cases (ltb max_write len)) [
  | inl long ↦ ground (arith, e, long)
  | inr short ↦ ground (arith, e, short)
]

module _ (sb : Super) where
  -- The inode of an open file: locked by the call, on a file with all its blocks.
  pub record IsOpen (ip : Inode) (s : Disk) : Type 0 where
    pub in_use : 0 < ip.ref
    pub loaded : ip.valid ≡ true
    pub not_device : ip.type ≢ t_dev
    pub within : ip.size ≤ maxfile * bsize
    pub has_blocks : HasBlocks ip s ip.size
    pub file : IsFile sb ip s

  -- What a write of all the bytes has done to the file and to the blocks of others.
  pub record AllWritten (off : ℕ) (src : List ℕ) (ip : Inode) (s : Disk) (ip' : Inode) (s' : Disk)
      : Type 0 where
    pub open_still : IsOpen ip' s'
    pub new_size : ip'.size ≡ (
        if ltb 0 (length src) && ltb ip.size (off + length src) then off + length src else ip.size)
    pub new_content :
        (n : ℕ) → n < maxfile * bsize → content ip' s' n ≡ patched (content ip s) off src n
    pub frame : (q : ℕ) → Owned sb s q → Other sb ip s q → (o : ℕ) → s'.bytes q o ≡ s.bytes q o

  abbrev pub ChunkSpec : List ℕ → File → Objects → Result (Bool × File × Objects) → Type 0
  ChunkSpec src f o panic = free_count sb o.disk < 2 * pieces_touched f.off (length src)
  ChunkSpec src f o (ok (false, f', o')) =
      ((o.cache f.ip).size < f.off) ⊎ (maxfile * bsize < f.off + length src)
  ChunkSpec src f o (ok (true, f', o')) =
      (f' ≡ record f { off = f.off + length src })
      × AllWritten f.off src (o.cache f.ip) o.disk (o'.cache f.ip) o'.disk
      × ((j : ℕ) → j ≢ f.ip → o'.cache j ≡ o.cache j)

  pub no_bytes :
      (src : List ℕ) (f : File) (o : Objects)
      → length src ≡ 0
      → IsOpen (o.cache f.ip) o.disk
      → ChunkSpec src f o (ok (true, f, o))
  no_bytes src f o z p = (
    (let same : f.off + length src ≡ f.off = omega (arith, z) in rw same refl),
    record {
      open_still = p;
      new_size = ground (arith, z);
      new_content = λ n lt. ground (arith, z);
      frame = λ q w other k. refl;
    },
    λ j ne. refl,
  )

  -- One round has written the first `m` bytes.
  module _ (src : List ℕ) (f : File) (o : Objects) (ip1 : Inode) (s1 : Disk) (more : 0 < length src)
      (p : IsOpen (o.cache f.ip) o.disk) (word : f.off + length src < word_size) where
    abbrev m : ℕ
    m = min (length src) max_write

    abbrev o1 : Objects
    o1 = record o { cache = update o.cache f.ip ip1; disk = s1 }

    abbrev f1 : File
    f1 = record f { off = f.off + m }

    pub at_slot : o1.cache f.ip ≡ ip1
    at_slot = ground arith

    pub still-IsOpen :
        f.off + length (take m src) ≤ maxfile * bsize
        → Written sb f.off (take m src) (o.cache f.ip) o.disk ip1 s1
        → IsOpen ip1 s1
    still-IsOpen le w = record {
      in_use = let u = p.in_use in omega (arith, u, w.same_ref);
      loaded = w.same_valid ∙ p.loaded;
      not_device = λ t. p.not_device (sym w.same_type ∙ t);
      within = let u = p.within in ground (arith, u, le, w.new_size);
      has_blocks = w.has_blocks;
      file = w.file;
    }

    combined :
        (ip2 : Inode) (s2 : Disk)
        → Written sb f.off (take m src) (o.cache f.ip) o.disk ip1 s1
        → AllWritten (f.off + m) (drop m src) ip1 s1 ip2 s2
        → AllWritten f.off src (o.cache f.ip) o.disk ip2 s2
    combined ip2 s2 w a =
        let lt : length (take m src) ≡ m = omega (arith, length-take m src) in
        let ld = length-drop m src in
        record {
          open_still = a.open_still;
          new_size =
              size_step (o.cache f.ip).size f.off m (length src) ip1.size ip2.size more refl
                (rw lt at w.new_size) (rw ld at a.new_size);
          new_content = λ n in_n.
              a.new_content n in_n
              ∙ patched-ap (content ip1 s1)
                  (patched (content (o.cache f.ip) o.disk) f.off (take m src)) (f.off + m)
                  (drop m src) n (w.new_content n in_n)
              ∙ patched-split (content (o.cache f.ip) o.disk) f.off m src n (omega arith);
          frame = λ q own other k.
              let (own1, other1) = w.others q own other in
              a.frame q own1 other1 k ∙ w.frame q own other k;
        }

    pub after_round :
        (r : Result (Bool × File × Objects))
        → f.off ≤ (o.cache f.ip).size
        → Written sb f.off (take m src) (o.cache f.ip) o.disk ip1 s1
        → ChunkSpec (drop m src) f1 o1 r
        → ChunkSpec src f o r
    after_round panic start w few =
        let lt : length (take m src) ≡ m = omega (arith, length-take m src) in
        let ld = length-drop m src in
        let taken = w.taken in
        counted _ _ _ _ _ (rw lt at taken) (rw ld at few)
          (pieces_step f.off m (length src) more refl)
      where
        counted : (a b c d e : ℕ) → a ≤ 2 * b + c → c < 2 * d → b + d ≤ e → a < 2 * e
        counted a b c d e x y z = omega (arith, x, y, z)
    after_round (ok (false, f', o')) start w out =
        let ld = length-drop m src in
        let fails : (ip1.size < f.off + m) ⊎ (maxfile * bsize < f.off + m + (length src - m)) =
          rw (at_slot, ld) at out in
        let lt : length (take m src) ≡ m = omega (arith, length-take m src) in
        let size : ip1.size
            ≡ (if ltb (o.cache f.ip).size (f.off + m) then f.off + m else (o.cache f.ip).size) =
          rw lt at w.new_size in
        too_large (omega arith) size fails
      where
        too_large :
            {size1 size off n l : ℕ}
            → n ≤ l
            → size1 ≡ (if ltb size (off + n) then off + n else size)
            → (size1 < off + n) ⊎ (maxfile * bsize < off + n + (l - n))
            → (size < off) ⊎ (maxfile * bsize < off + l)
        too_large le e x = ground (arith, le, e, x)
    after_round (ok (true, f', o')) start w (same, all, others) = (
      same ∙ ap (λ k. record f { off = k }) (omega (arith, length-drop m src)),
      combined (o'.cache f.ip) o'.disk w (
          subst (λ ip. AllWritten (f.off + m) (drop m src) ip s1 (o'.cache f.ip) o'.disk) at_slot
            all),
      λ j ne. others j ne ∙ ground (arith, ne),
    )
