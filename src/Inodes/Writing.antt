-- ===== src/Inodes/Writing.antt =====
-- The loop of `writei` (system/storage/fs.c) puts its bytes over the contents of the file.
use dave.Common.{
  ℕ, zero, suc, ◌+◌, ◌-◌, ◌*◌, ◌/◌, ◌%◌, ◌<◌, ◌≤◌, ◌≡◌, ◌≢◌, refl, sym, ap, ◌∙◌, arith, true, false,
  if◌then◌else◌, ◌==◌, get_or, Bool-cases, inl, inr, subst, Result, ok, panic, List, [], ◌∷◌,
  length, take, drop, Result-cases, length-take, length-drop, get_or-take, get_or-drop,
}
use dave.Fs.{Super, Disk, bsize}
use dave.Inodes.{Inode, maxfile, bmap, chunk, write_loop}
use dave.Inodes.Owned.{block_of, content, IsFile}
use dave.Inodes.Growth.{Changed, Grown, Grown-refl}
use dave.Inodes.Chain.{Changed-to, Changed-trans}
use dave.Inodes.Counting.{free_count, free_below-same}
use dave.Inodes.Mapping.{BmapSpec, bmap_lem}
use dave.Inodes.Storing.{covers, patched, Bytes, with_bytes, same_free, written_lem}

pub patched-ap :
    (f g : ℕ → ℕ) (off : ℕ) (src : List ℕ) (n : ℕ)
    → f n ≡ g n
    → patched f off src n ≡ patched g off src n
patched-ap f g off src n e = ground (arith, e)

-- Writing a list in two parts.
pub patched-split :
    (f : ℕ → ℕ) (off m : ℕ) (src : List ℕ) (n : ℕ)
    → m ≤ length src
    → patched (patched f off (take m src)) (off + m) (drop m src) n ≡ patched f off src n
patched-split f off m src n le =
    let lt = length-take m src in
    let ld = length-drop m src in
    elim (Bool-cases (covers (off + m) (length (drop m src)) n)) [
      | inl late ↦
          let whole : covers off (length src) n ≡ true = ground (arith, lt, ld) in
          let index : m + (n - (off + m)) ≡ n - off = ground (arith, lt, ld) in
          rw (late, whole) (get_or-drop m src (n - (off + m)) 0 ∙ ap (λ i. get_or src i 0) index)
      | inr other ↦ elim (Bool-cases (covers off (length (take m src)) n)) [
        | inl early ↦
            let whole : covers off (length src) n ≡ true = ground (arith, lt, ld) in
            rw (other, early, whole) (get_or-take m src (n - off) 0 (ground (arith, lt)))
        | inr out ↦
            let whole : covers off (length src) n ≡ false = ground (arith, lt, ld) in
            rw (other, out, whole) refl
      ]
    ]

pub Bytes-take : (m : ℕ) (xs : List ℕ) → Bytes xs → Bytes (take m xs)
Bytes-take zero xs b = tt
Bytes-take (suc m) [] b = tt
Bytes-take (suc m) (x ∷ xs) b = (b.0, Bytes-take m xs b.1)

pub Bytes-drop : (m : ℕ) (xs : List ℕ) → Bytes xs → Bytes (drop m xs)
Bytes-drop zero xs b = b
Bytes-drop (suc m) [] b = tt
Bytes-drop (suc m) (x ∷ xs) b = Bytes-drop m xs b.1

-- How many blocks the bytes from `off` to `off + len` lie in.
abbrev pub touched : ℕ → ℕ → ℕ
touched off len = if len == 0 then 0 else (off % bsize + len + 511) / bsize

abbrev pub HasRange : Inode → Disk → ℕ → ℕ → Type 0
HasRange ip s off len =
    (i : ℕ) → i < maxfile → 0 < len → off / bsize ≤ i → i * bsize < off + len → block_of ip s i ≢ 0

module _ (sb : Super) where
  -- The bytes are over the contents, in blocks of the file; or there were less free blocks than two
  -- for each block that is touched.
  abbrev pub LoopSpec : ℕ → List ℕ → Inode → Disk → Result (Inode × Disk) → Type 0
  LoopSpec off src ip s panic = free_count sb s < 2 * touched off (length src)
  LoopSpec off src ip s (ok (ip', s')) =
      Changed sb ip s ip' s' (patched (content ip s) off src)
      × HasRange ip' s' off (length src)
      × (free_count sb s ≤ 2 * touched off (length src) + free_count sb s')

  no_bytes :
      (off : ℕ) (src : List ℕ) (ip : Inode) (s : Disk)
      → length src ≡ 0
      → IsFile sb ip s
      → LoopSpec off src ip s (ok (ip, s))
  no_bytes off src ip s e f = (
    Changed-to sb ip s ip s (content ip s) (patched (content ip s) off src)
        (λ n lt. ground (arith, e)) (Grown-refl sb ip s f),
    λ i lt more from to. absurd (omega arith),
    omega arith,
  )

  -- One round: block `i` has been found or made in `s1`, bytes are stored in it, and the loop goes on.
  module _ (off : ℕ) (src : List ℕ) (ip : Inode) (s : Disk) (ip1 : Inode) (s1 : Disk)
      (some_left : 0 < length src) (fits : off + length src ≤ maxfile * bsize) (bytes : Bytes src)
      (g : Grown sb ip s ip1 s1) (has : block_of ip1 s1 (off / bsize) ≢ 0)
      (taken : free_count sb s ≤ 2 + free_count sb s1) where
    abbrev m : ℕ
    m = chunk off (length src)

    in_block : off % bsize + length (take m src) ≤ bsize
    in_block = omega (arith, length-take m src)

    in_file : off / bsize < maxfile
    in_file = omega arith

    abbrev s2 : Disk
    s2 =
        with_bytes sb ip1 s1 (off / bsize) (off % bsize) (take m src) g.file in_file has in_block
          (Bytes-take m src bytes)

    stored :
        Changed sb ip1 s1 ip1 s2
          (patched (content ip1 s1) (off / bsize * bsize + off % bsize) (take m src))
    stored =
        written_lem sb ip1 s1 (off / bsize) (off % bsize) (take m src) g.file in_file has in_block
          (Bytes-take m src bytes)

    same_count : free_count sb s2 ≡ free_count sb s1
    same_count = free_below-same sb s1 s2 sb.size (
        same_free sb ip1 s1 (off / bsize) (off % bsize) (take m src) g.file in_file has in_block
          (Bytes-take m src bytes))

    contents :
        (n : ℕ)
        → n < maxfile * bsize
        → patched (content ip1 s2) (off + m) (drop m src) n ≡ patched (content ip s) off src n
    contents n in_n =
        let whole : off / bsize * bsize + off % bsize ≡ off = omega arith in
        patched-ap (content ip1 s2) (patched (content ip s) off (take m src)) (off + m) (drop m src)
          n
          (stored.same_content n in_n
            ∙ ap (λ a. patched (content ip1 s1) a (take m src) n) whole
            ∙ patched-ap (content ip1 s1) (content ip s) off (take m src) n (g.same_content n in_n))
        ∙ patched-split (content ip s) off m src n (omega arith)

    fewer : touched off (length src) ≡ suc (touched (off + m) (length (drop m src)))
    fewer = ground (arith, length-drop m src)

    ranged :
        (ip' : Inode) (s' : Disk) {f : ℕ → ℕ}
        → Changed sb ip1 s1 ip' s' f
        → HasRange ip' s' (off + m) (length (drop m src))
        → HasRange ip' s' off (length src)
    ranged ip' s' c range i lt more from to = elim (Bool-cases (i == off / bsize)) [
      | inl e ↦
          let here : i ≡ off / bsize = ground arith in
          let same = ap (block_of ip' s') here ∙ c.stays (off / bsize) in_file has in
          λ z. has (sym same ∙ z)
      | inr n ↦
          range i lt (ground (arith, length-drop m src)) (ground (arith, length-drop m src))
            (ground (arith, length-drop m src))
    ]

    after_round :
        (r : Result (Inode × Disk))
        → LoopSpec (off + m) (drop m src) ip1 s2 r
        → LoopSpec off src ip s r
    after_round panic spec = omega (arith, spec, fewer, same_count, taken)
    after_round (ok (ip', s')) (c, range, count) =
        let grown = Changed-trans sb ip1 s1 ip1 s2 _ stored ip' s' _ c in
        (
          Changed-to sb ip s ip' s' _ _ contents (Changed-trans sb ip s ip1 s1 _ g ip' s' _ grown),
          ranged ip' s' grown range,
          omega (arith, fewer, same_count, taken),
        )

  pub write_loop_lem :
      (k off : ℕ) (src : List ℕ) (ip : Inode) (s : Disk)
      → length src ≤ k
      → off + length src ≤ maxfile * bsize
      → Bytes src
      → IsFile sb ip s
      → LoopSpec off src ip s (write_loop sb k off src ip s)
  unfolding write_loop
  write_loop_lem zero off src ip s le fits bytes f = no_bytes off src ip s (omega arith) f
  write_loop_lem (suc k) off src ip s le fits bytes f = elim (Bool-cases (length src == 0)) [
    | inl z ↦ rw (z, write_loop) (no_bytes off src ip s (ground arith) f)
    | inr more ↦
        let spec = bmap_lem sb (off / bsize) ip s (ground arith) f in
        elim (Result-cases (bmap sb (off / bsize) ip s)) [
          | inl e ↦
              let few : free_count sb s ≤ 1 = subst (BmapSpec sb (off / bsize) ip s) e spec in
              rw (more, e, write_loop) (ground (arith, few))
          | inr ((addr, ip1, s1), e) ↦
              let (g, at, ne, taken) = subst (BmapSpec sb (off / bsize) ip s) e spec in
              let has : block_of ip1 s1 (off / bsize) ≢ 0 = λ z. ne (sym at ∙ z) in
              let pos : 0 < length src = ground arith in
              let m : ℕ = chunk off (length src) in
              let file = (stored off src ip s ip1 s1 pos fits bytes g has taken).file in
              let rest =
                write_loop_lem k (off + m) (drop m src) ip1
                  (s2 off src ip s ip1 s1 pos fits bytes g has taken)
                  (omega (arith, length-drop m src)) (omega (arith, length-drop m src))
                  (Bytes-drop m src bytes) file in
              rw (more, e, write_loop, sym at)
                (after_round off src ip s ip1 s1 pos fits bytes g has taken _ rest)
        ]
  ]
