-- ===== src/Inodes/Reading.antt =====
-- `readi` of system/storage/fs.c returns the contents of the file.
use dave.Common.{
  ℕ, zero, suc, ◌+◌, ◌-◌, ◌*◌, ◌/◌, ◌%◌, ◌<◌, ◌≤◌, ◌≡◌, ◌≢◌, refl, sym, ap, ◌∙◌, arith, word_size,
  true, false, ◌||◌, if◌then◌else◌, ◌==◌, ltb, leb, get_or, Bool-cases, inl, inr, subst, ok, List,
  [], ◌∷◌, ◌++◌, min, add32, Option, none, some,
}
use dave.Fs.{Super, Disk, bsize}
use dave.Inodes.{
  Inode, ndirect, nindirect, maxfile, word_at, map_entry, map_indirect, through, bmap, bytes_at,
  chunk, read_loop, finish_read, readi, t_dev,
}
use dave.Inodes.Owned.{root, block_of, content}

-- The `n` bytes from `off` on.
abbrev pub segment : (ℕ → ℕ) → ℕ → ℕ → List ℕ
segment f off zero = []
segment f off (suc n) = f off ∷ segment f (off + 1) n

pub segment-append :
    (f : ℕ → ℕ) (off m n : ℕ) → segment f off m ++ segment f (off + m) n ≡ segment f off (m + n)
segment-append f off zero n =
    let e : off + 0 ≡ off = omega arith in let z : 0 + n ≡ n = omega arith in rw (e, z) refl
segment-append f off (suc m) n =
    let e : off + suc m ≡ off + 1 + m = omega arith in
    let z : suc m + n ≡ suc (m + n) = omega arith in
    rw (e, z) (ap (λ l. f off ∷ l) (segment-append f (off + 1) m n))

-- The file has a block for each byte below `size`.
abbrev pub HasBlocks : Inode → Disk → ℕ → Type 0
HasBlocks ip s size = (i : ℕ) → i * bsize < size → block_of ip s i ≢ 0

bytes-in-block :
    (ip : Inode) (s : Disk) (i o m : ℕ)
    → block_of ip s i ≢ 0
    → o + m ≤ bsize
    → bytes_at s (block_of ip s i) o m ≡ segment (content ip s) (i * bsize + o) m
bytes-in-block ip s i o zero ne le = refl
bytes-in-block ip s i o (suc m) ne le =
    let p : (block_of ip s i == 0) ≡ false = ground (arith, ne) in
    let q : (i * bsize + o) / bsize ≡ i = omega arith in
    let r : (i * bsize + o) % bsize ≡ o = omega arith in
    let next : i * bsize + o + 1 ≡ i * bsize + (o + 1) = omega arith in
    rw (q, r, p, next)
      (ap (λ l. s.bytes (block_of ip s i) o ∷ l) (bytes-in-block ip s i (o + 1) m ne (omega arith)))

module _ (sb : Super) where
  pub bmap_present :
      (bn : ℕ) (ip : Inode) (s : Disk)
      → bn < maxfile
      → block_of ip s bn ≢ 0
      → bmap sb bn ip s ≡ ok (block_of ip s bn, ip, s)
  unfolding bmap map_entry through map_indirect
  bmap_present bn ip s lt ne = elim (Bool-cases (ltb bn ndirect)) [
    | inl low ↦
        let has : (get_or ip.addrs bn 0 == 0) ≡ false = ground (arith, ne, low) in
        rw (low, has) refl
    | inr high ↦ elim (Bool-cases (root ip == 0)) [
      | inl z ↦ absurd (ne (rw (high, z) refl))
      | inr p ↦
          let in_b : ltb (bn - ndirect) nindirect ≡ true = ground arith in
          let has : (word_at s (root ip) (4 * (bn - ndirect)) == 0) ≡ false =
            ground (arith, ne, high, p) in
          rw (high, in_b, p, has) refl
    ]
  ]

  -- Where each byte has its block, the loop returns the contents and changes nothing.
  read_loop_lem :
      (k off left : ℕ) (ip : Inode) (s : Disk)
      → left ≤ k
      → off + left ≤ maxfile * bsize
      → HasBlocks ip s (off + left)
      → read_loop sb k off left ip s ≡ ok (segment (content ip s) off left, ip, s)
  unfolding read_loop
  read_loop_lem zero off left ip s le fits has = let z : left ≡ 0 = omega arith in rw z refl
  read_loop_lem (suc k) off left ip s le fits has = elim (Bool-cases (left == 0)) [
    | inl z ↦ let e : left ≡ 0 = ground arith in rw e refl
    | inr some_left ↦
        let m : ℕ = chunk off left in
        let pos : 0 < left = ground arith in
        let next : off + m + (left - m) ≡ off + left = omega arith in
        let rest =
          read_loop_lem k (off + m) (left - m) ip s (omega arith) (omega arith)
            (subst (HasBlocks ip s) (sym next) has) in
        let here : block_of ip s (off / bsize) ≢ 0 = has (off / bsize) (omega arith) in
        let whole : off / bsize * bsize + off % bsize ≡ off = omega arith in
        let sum : m + (left - m) ≡ left = omega arith in
        let bytes =
          bytes-in-block ip s (off / bsize) (off % bsize) m here (omega arith)
          ∙ ap (λ i. segment (content ip s) i m) whole in
        rw (some_left, bmap_present (off / bsize) ip s (omega arith) here, rest, bytes, read_loop)
          (ap (λ l. ok (l, ip, s))
            (segment-append (content ip s) off m (left - m) ∙ ap (segment (content ip s) off) sum))
  ]

  -- `readi` of a file whose bytes all have their blocks returns the bytes from `off` on, `n` of them or
  -- up to the end of the file, and changes nothing; it fails where `off` is behind the end or
  -- `off + n` is not a word.
  pub readi_lem :
      (devread : ℕ → Option (ℕ → Option (List ℕ))) (off n : ℕ) (ip : Inode) (s : Disk)
      → ip.type ≢ t_dev
      → ip.size ≤ maxfile * bsize
      → HasBlocks ip s ip.size
      → off < word_size
      → n < word_size
      → readi sb devread off n ip s
        ≡ ok (
          (if ltb ip.size off || leb word_size (off + n)
              then none
              else some (segment (content ip s) off (min n (ip.size - off)))),
          ip,
          s,
        )
  unfolding readi
  readi_lem devread off n ip s file fits has w_off w_n =
      let t : (ip.type == t_dev) ≡ false = ground (arith, file) in
      rw t (elim (Bool-cases (ltb ip.size off || leb word_size (off + n))) [
        | inl out ↦
            let test : (ltb ip.size off || ltb (add32 off n) off) ≡ true = ground arith in
            rw (out, test) refl
        | inr ins ↦
            let test : (ltb ip.size off || ltb (add32 off n) off) ≡ false = ground arith in
            let m : ℕ = min n (ip.size - off) in
            let len : (if ltb ip.size (add32 off n) then ip.size - off else n) ≡ m = ground arith in
            let inside : off + m ≤ ip.size = ground arith in
            rw (ins, test, len)
              (ap finish_read (
                read_loop_lem m off m ip s (omega arith) (omega arith)
                  (λ i lt. has i (omega arith))))
      ])
