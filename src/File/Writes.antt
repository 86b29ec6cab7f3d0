-- ===== src/File/Writes.antt =====
-- The loop of `filewrite` (system/core/file.c) writes all the bytes of one call, piece by piece.
use dave.Common.{
  ℕ, zero, suc, ◌+◌, ◌*◌, ◌<◌, ◌≤◌, ◌≡◌, ◌≢◌, ◌⊎◌, refl, sym, ap, ◌∙◌, subst, arith, word_size,
  Bool, true, false, Bool-cases, inl, inr, List, if◌then◌else◌, ◌==◌, ltb, length, take, drop, min,
  add32, update, length-take, length-drop, Option, none, some, Option-cases, Result, ok, panic,
  Result-cases,
}
use dave.Fs.{Super, Disk, bsize}
use dave.Inodes.{Inode, maxfile, writei, ilock}
use dave.Inodes.Counting.{free_count}
use dave.Inodes.Storing.{Bytes}
use dave.Inodes.Writing.{Bytes-take, Bytes-drop}
use dave.Inodes.Files.{WriteSpec, writei_lem}
use dave.File.Pieces.{
  pieces_touched, pieces_step, IsOpen, AllWritten, ChunkSpec, no_bytes, at_slot, still-IsOpen,
  after_round,
}
use dave.File.{
  File, Objects, max_write, write_chunks, filewrite, write_to, chunks_answer, fd_inode, Sent,
  to_pipe, bytes_written,
}

locks_open : (sb : Super) (ip : Inode) (s : Disk) → IsOpen sb ip s → ilock sb ip s ≡ ok ip
unfolding ilock
locks_open sb ip s p =
    let used = p.in_use in
    let has_ref : ltb ip.ref 1 ≡ false = ground (arith, used) in rw (has_ref, p.loaded) refl

module _ (devwrite : ℕ → Option (List ℕ → Option ℕ)) (sb : Super) where
  write_chunks_lem :
      (k : ℕ) (src : List ℕ) (f : File) (o : Objects)
      → length src ≤ k
      → f.off + length src < word_size
      → Bytes src
      → IsOpen sb (o.cache f.ip) o.disk
      → ChunkSpec sb src f o (write_chunks devwrite sb k src f o)
  unfolding write_chunks
  write_chunks_lem zero src f o le word bytes p = no_bytes sb src f o (omega arith) p
  write_chunks_lem (suc k) src f o le word bytes p = elim (Bool-cases (length src == 0)) [
    | inl z ↦ rw (z, write_chunks) (no_bytes sb src f o (ground arith) p)
    | inr left ↦
        let more : 0 < length src = ground arith in
        let ip : Inode = o.cache f.ip in
        let n1 : ℕ = min (length src) max_write in
        let lt : length (take n1 src) ≡ n1 = omega (arith, length-take n1 src) in
        let locks = locks_open sb ip o.disk p in
        let spec =
          writei_lem sb devwrite (take n1 src) f.off ip o.disk p.not_device p.within p.has_blocks
            (omega (arith, lt)) (Bytes-take n1 src bytes) p.file in
        elim (Result-cases (writei sb devwrite (take n1 src) f.off ip o.disk)) [
          | inl e ↦
              let few = subst (WriteSpec sb f.off (take n1 src) ip o.disk) e spec in
              rw (left, locks, e, write_chunks)
                (omega (arith, rw lt at few, pieces_step f.off n1 (length src) more refl))
          | inr ((r, ip1, s1), e) ↦ elim (Option-cases r) [
            | inl none_left ↦
                let e' = e ∙ ap (λ q. ok (q, ip1, s1)) none_left in
                let (same_ip, same_s, out) =
                  subst (WriteSpec sb f.off (take n1 src) ip o.disk) e' spec in
                rw (left, locks, e', write_chunks)
                  (elim out [ inl x ↦ inl x | inr y ↦ inr (omega (arith, y, lt)) ])
            | inr (n, some_n) ↦
                let e1 = e ∙ ap (λ q. ok (q, ip1, s1)) some_n in
                let (len, start, fits, w) =
                  subst (WriteSpec sb f.off (take n1 src) ip o.disk) e1 spec in
                let e' = e1 ∙ ap (λ q. ok (some q, ip1, s1)) (len ∙ lt) in
                let itself : (n1 == n1) ≡ true = ground arith in
                let sum : add32 f.off n1 ≡ f.off + n1 = omega arith in
                let left_open = still-IsOpen sb src f o ip1 s1 more p word fits w in
                let slot = at_slot sb src f o ip1 s1 more p word in
                let rest =
                  write_chunks_lem k (drop n1 src) (record f { off = f.off + n1 })
                    (record o { cache = update o.cache f.ip ip1; disk = s1 })
                    (omega (arith, length-drop n1 src)) (omega (arith, length-drop n1 src))
                    (Bytes-drop n1 src bytes) (subst (λ q. IsOpen sb q s1) (sym slot) left_open) in
                rw (left, locks, e', itself, sum, write_chunks)
                  (after_round sb src f o ip1 s1 more p word _ start w rest)
          ]
        ]
  ]

  abbrev pub FileSpec : List ℕ → File → Objects → Result (Sent × File × Objects) → Type 0
  FileSpec src f o panic = free_count sb o.disk < 2 * pieces_touched f.off (length src)
  FileSpec src f o (ok (to_pipe r, f', o')) = ⊥
  FileSpec src f o (ok (bytes_written none, f', o')) =
      (f.writable ≡ false)
      ⊎ (((o.cache f.ip).size < f.off) ⊎ (maxfile * bsize < f.off + length src))
  FileSpec src f o (ok (bytes_written (some n), f', o')) =
      (n ≡ length src)
      × (f' ≡ record f { off = f.off + length src })
      × AllWritten sb f.off src (o.cache f.ip) o.disk (o'.cache f.ip) o'.disk
      × ((j : ℕ) → j ≢ f.ip → o'.cache j ≡ o.cache j)

  -- `filewrite` to an inode, with nothing in between its pieces, answers with the number of bytes
  -- only when all of them lie over the contents of the file from the old offset on, the offset is
  -- behind them, and the other slots of the inode table and the blocks of other files are as they
  -- were, but for the block that the inode is in. It answers -1 only for a file that is not
  -- writable, starts behind the end, or would be too large, and panics only for lack of free blocks.
  pub filewrite_lem :
      (caller : ℕ) (killed : Bool) (src : List ℕ) (f : File) (o : Objects)
      → f.type ≡ fd_inode
      → f.off + length src < word_size
      → Bytes src
      → IsOpen sb (o.cache f.ip) o.disk
      → FileSpec src f o (filewrite devwrite sb caller killed src f o)
  unfolding filewrite write_to
  filewrite_lem caller killed src f o kind word bytes p = elim (Bool-cases f.writable) [
    | inr e ↦ by_test (sym e) (inl e)
    | inl e ↦ by_test (sym e) (
        subst (λ t. FileSpec src f o (write_to devwrite sb caller killed src f t o)) (sym kind)
          (answered _ (write_chunks_lem (length src) src f o (omega arith) word bytes p)))
  ]
    where
      by_test :
          {b : Bool}
          → b ≡ f.writable
          → FileSpec src f o (
              if b
              then write_to devwrite sb caller killed src f f.type o
              else ok (bytes_written none, f, o))
          → FileSpec src f o (
              if f.writable
              then write_to devwrite sb caller killed src f f.type o
              else ok (bytes_written none, f, o))
      by_test {b} e spec =
          subst
            (λ q. FileSpec src f o (
              if q
              then write_to devwrite sb caller killed src f f.type o
              else ok (bytes_written none, f, o)))
            e spec

      answered :
          (r : Result (Bool × File × Objects))
          → ChunkSpec sb src f o r
          → FileSpec src f o (chunks_answer devwrite sb (length src) r)
      answered panic spec = spec
      answered (ok (false, f', o')) spec = inr spec
      answered (ok (true, f', o')) (same, all, others) = (refl, same, all, others)
