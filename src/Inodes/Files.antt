-- ===== src/Inodes/Files.antt =====
-- `writei` of system/storage/fs.c, with the inode it updates, and what `readi` then returns.
use dave.Common.{
  ℕ, suc, ◌+◌, ◌-◌, ◌*◌, ◌<◌, ◌≤◌, ◌≡◌, ◌≢◌, ◌⊎◌, refl, sym, ap, ap₂, ◌∙◌, arith, word_size, false,
  ◌||◌, if◌then◌else◌, ◌==◌, ltb, leb, get_or, Bool-cases, inl, inr, subst, Result, ok, panic, List,
  [], ◌∷◌, min, add32, Option, none, some, length, Result-cases,
}
use dave.Fs.{Super, Disk, bsize}
use dave.Inodes.{Inode, iblock, maxfile, t_dev, iupdate, write_loop, grow, writei, readi}
use dave.Inodes.Owned.{block_of, content, Owned, IsFile}
use dave.Inodes.Growth.{Changed, Other}
use dave.Inodes.Counting.{free_count}
use dave.Inodes.Chain.{Other-kept}
use dave.Inodes.Updating.{
  kept, resized-Other, same_count, iupdate-outside, resized_file, resized-content, same_block,
}
use dave.Inodes.Reading.{segment, HasBlocks, readi_lem}
use dave.Inodes.Storing.{patched, Bytes}
use dave.Inodes.Writing.{touched, HasRange, LoopSpec, write_loop_lem}

module _ (sb : Super) where
  -- The file after a write of `src` at `off`: its contents, its length, a block for each of its
  -- bytes, and the blocks of others as they were.
  pub record Written (off : ℕ) (src : List ℕ) (ip : Inode) (s : Disk) (ip' : Inode) (s' : Disk)
      : Type 0 where
    pub file : IsFile sb ip' s'
    pub new_size : ip'.size ≡ (if ltb ip.size (off + length src) then off + length src else ip.size)
    pub new_content :
        (n : ℕ) → n < maxfile * bsize → content ip' s' n ≡ patched (content ip s) off src n
    pub same_type : ip'.type ≡ ip.type
    pub same_ref : ip'.ref ≡ ip.ref
    pub same_valid : ip'.valid ≡ ip.valid
    pub has_blocks : HasBlocks ip' s' ip'.size
    pub frame : (q : ℕ) → Owned sb s q → Other sb ip s q → (o : ℕ) → s'.bytes q o ≡ s.bytes q o
    pub others : (q : ℕ) → Owned sb s q → Other sb ip s q → Owned sb s' q × Other sb ip' s' q
    pub taken : free_count sb s ≤ 2 * touched off (length src) + free_count sb s'

  abbrev pub WriteSpec : ℕ → List ℕ → Inode → Disk → Result (Option ℕ × Inode × Disk) → Type 0
  WriteSpec off src ip s panic = free_count sb s < 2 * touched off (length src)
  WriteSpec off src ip s (ok (none, ip', s')) =
      (ip' ≡ ip) × (s' ≡ s) × ((ip.size < off) ⊎ (maxfile * bsize < off + length src))
  WriteSpec off src ip s (ok (some n, ip', s')) =
      (n ≡ length src)
      × (off ≤ ip.size)
      × (off + length src ≤ maxfile * bsize)
      × Written off src ip s ip' s'

  module _ (off : ℕ) (src : List ℕ) (ip : Inode) (s : Disk) (ip1 : Inode) (s1 : Disk)
      (starts : off ≤ ip.size) (within : ip.size ≤ maxfile * bsize)
      (fits : off + length src ≤ maxfile * bsize) (has : HasBlocks ip s ip.size)
      (c : Changed sb ip s ip1 s1 (patched (content ip s) off src))
      (range : HasRange ip1 s1 off (length src))
      (count : free_count sb s ≤ 2 * touched off (length src) + free_count sb s1) where
    same_size : ip1.size ≡ ip.size
    same_size = ap (λ (p : Inode). p.size) c.rest

    old_block : (i : ℕ) → i * bsize < ip.size → block_of ip1 s1 i ≢ 0
    old_block i lt z = has i lt (sym (c.stays i (omega arith) (has i lt)) ∙ z)

    block_below : (i : ℕ) → 0 < length src → i * bsize < off + length src → block_of ip1 s1 i ≢ 0
    block_below i more lt = elim (Bool-cases (ltb (i * bsize) ip.size)) [
      | inl e ↦ old_block i (ground arith)
      | inr e ↦ range i (omega arith) more (ground arith) lt
    ]

    -- The file has not grown.
    as_long : off + length src ≤ ip.size → Written off src ip s ip1 s1
    as_long le = record {
      file = c.file;
      new_size = ground (arith, same_size, le);
      new_content = c.same_content;
      same_type = ap (λ (p : Inode). p.type) c.rest;
      same_ref = ap (λ (p : Inode). p.ref) c.rest;
      same_valid = ap (λ (p : Inode). p.valid) c.rest;
      has_blocks = λ i lt. old_block i (omega (arith, same_size));
      frame = c.frame;
      others = λ q w other.
          (c.owned q w, Other-kept sb ip s ip1 s1 (patched (content ip s) off src) c q w other);
      taken = count;
    }

    longer :
        ip.size < off + length src
        → Written off src ip s
            (record ip1 { size = off + length src })
            (iupdate sb (record ip1 { size = off + length src }) s1)
    longer lt = record {
      file = resized_file sb ip1 s1 c.file (off + length src);
      new_size = ground (arith, lt);
      new_content = λ n in_n.
          resized-content sb ip1 s1 c.file (off + length src) n in_n ∙ c.same_content n in_n;
      same_type = ap (λ (p : Inode). p.type) c.rest;
      same_ref = ap (λ (p : Inode). p.ref) c.rest;
      same_valid = ap (λ (p : Inode). p.valid) c.rest;
      has_blocks = λ i in_i z.
          block_below i (omega arith) in_i
            (sym (same_block sb ip1 s1 c.file (off + length src) i) ∙ z);
      frame = λ q w other o.
          iupdate-outside sb (record ip1 { size = off + length src }) s1 q o
            (λ e. other.off_inode (e ∙ ap (λ (p : Inode). iblock sb p.inum) c.rest))
          ∙ c.frame q w other o;
      others = λ q w other. (
        kept sb ip1 s1 c.file (off + length src) q (c.owned q w),
        resized-Other sb ip1 s1 c.file (off + length src) q
            (Other-kept sb ip s ip1 s1 (patched (content ip s) off src) c q w other),
      );
      taken = omega (arith, count, same_count sb ip1 s1 c.file (off + length src));
    }

  -- `writei` of up to the size of a file puts its bytes over the contents, has the file end behind
  -- them at least, with a block for each of its bytes, and leaves the blocks of others, but for
  -- the block that the inode itself is in. It fails, and changes nothing, where it starts behind the end or ends behind the largest file; and it
  -- panics only where less blocks were free than two for each block that it touches.
  pub writei_lem :
      (devwrite : ℕ → Option (List ℕ → Option ℕ)) (src : List ℕ) (off : ℕ) (ip : Inode) (s : Disk)
      → ip.type ≢ t_dev
      → ip.size ≤ maxfile * bsize
      → HasBlocks ip s ip.size
      → off + length src < word_size
      → Bytes src
      → IsFile sb ip s
      → WriteSpec off src ip s (writei sb devwrite src off ip s)
  unfolding writei grow
  writei_lem devwrite src off ip s type within has word bytes f =
      let t : (ip.type == t_dev) ≡ false = ground (arith, type) in
      let sum : add32 off (length src) ≡ off + length src = omega arith in
      elim (Bool-cases (ltb ip.size off || ltb (off + length src) off)) [
        | inl out ↦ rw (t, sum, out) (refl, refl, inl (ground arith))
        | inr starts ↦ elim (Bool-cases (ltb (maxfile * bsize) (off + length src))) [
          | inl large ↦ rw (t, sum, starts, large) (refl, refl, inr (ground arith))
          | inr fits ↦
              let le : off + length src ≤ maxfile * bsize = ground arith in
              let start : off ≤ ip.size = ground arith in
              let spec = write_loop_lem sb (length src) off src ip s (omega arith) le bytes f in
              elim (Result-cases (write_loop sb (length src) off src ip s)) [
                | inl e ↦ rw (t, sum, starts, fits, e) (subst (LoopSpec sb off src ip s) e spec)
                | inr ((ip1, s1), e) ↦
                    let (c, range, count) = subst (LoopSpec sb off src ip s) e spec in
                    let same = same_size off src ip s ip1 s1 start within le has c range count in
                    elim (Bool-cases (ltb 0 (length src))) [
                      | inr nothing ↦
                          rw (t, sum, starts, fits, e, nothing)
                            (
                              refl,
                              start,
                              le,
                              as_long off src ip s ip1 s1 start within le has c range count
                                  (ground arith),
                            )
                      | inl more ↦ elim (Bool-cases (ltb ip1.size (off + length src))) [
                        | inl grown ↦
                            rw (t, sum, starts, fits, e, more, grown)
                              (
                                refl,
                                start,
                                le,
                                longer off src ip s ip1 s1 start within le has c range count
                                    (ground (arith, same)),
                              )
                        | inr still ↦
                            rw (t, sum, starts, fits, e, more, still)
                              (
                                refl,
                                start,
                                le,
                                as_long off src ip s ip1 s1 start within le has c range count
                                    (ground (arith, same)),
                              )
                      ]
                    ]
              ]
        ]
      ]

pub segment-entries :
    (g : ℕ → ℕ) (off : ℕ) (xs : List ℕ)
    → ((i : ℕ) → i < length xs → g (off + i) ≡ get_or xs i 0)
    → segment g off (length xs) ≡ xs
segment-entries g off [] same = refl
segment-entries g off (x ∷ xs) same =
    let z : off + 0 ≡ off = omega arith in
    let head : g off ≡ x = ap g (sym z) ∙ same 0 (omega arith) in
    let rest =
      segment-entries g (off + 1) xs (λ i lt. ap g (omega arith) ∙ same (suc i) (omega arith)) in
    ap₂ (λ a l. a ∷ l) head rest

module _ (sb : Super) where
  -- What `writei` has written into a file, `readi` returns.
  pub readi-writei :
      (devread : ℕ → Option (ℕ → Option (List ℕ))) (devwrite : ℕ → Option (List ℕ → Option ℕ))
      (src : List ℕ) (off n : ℕ) (ip : Inode) (s : Disk) (ip' : Inode) (s' : Disk)
      → ip.type ≢ t_dev
      → ip.size ≤ maxfile * bsize
      → HasBlocks ip s ip.size
      → off + length src < word_size
      → Bytes src
      → IsFile sb ip s
      → writei sb devwrite src off ip s ≡ ok (some n, ip', s')
      → readi sb devread off (length src) ip' s' ≡ ok (some src, ip', s')
  readi-writei devread devwrite src off n ip s ip' s' type within has word bytes f e =
      let spec = writei_lem sb devwrite src off ip s type within has word bytes f in
      let (len, start, fits, w) = subst (WriteSpec sb off src ip s) e spec in
      let size : ip'.size ≡ (if ltb ip.size (off + length src) then off + length src else ip.size) =
        w.new_size in
      let read =
        readi_lem sb devread off (length src) ip' s' (λ t. type (sym w.same_type ∙ t))
          (ground (arith, size)) w.has_blocks (omega arith) (omega arith) in
      let guard : (ltb ip'.size off || leb word_size (off + length src)) ≡ false =
        ground (arith, size) in
      let count : min (length src) (ip'.size - off) ≡ length src = ground (arith, size) in
      let same =
        segment-entries (content ip' s') off src
          (λ i lt. w.new_content (off + i) (omega arith) ∙ here (content ip s) i lt) in
      read ∙ rw (guard, count, same) refl
    where
      here : (f : ℕ → ℕ) (i : ℕ) → i < length src → patched f off src (off + i) ≡ get_or src i 0
      here f i lt = let index : off + i - off ≡ i = omega arith in rw index (ground arith)
