-- ===== src/Inodes/Storing.antt =====
-- A round of the loop of `writei` (system/storage/fs.c) puts bytes into one block of the file.
use dave.Common.{
  ℕ, zero, suc, ◌+◌, ◌-◌, ◌*◌, ◌/◌, ◌%◌, ◌<◌, ◌≤◌, ◌≡◌, ◌≢◌, refl, sym, ap, ◌∙◌, arith, Bool, true,
  false, ◌&&◌, if◌then◌else◌, ◌==◌, ltb, leb, get_or, Bool-cases, inl, inr, subst, List, [], ◌∷◌,
  length,
}
use dave.Fs.{Super, Disk, bsize, bpb, bblock, is_clear, note, put_byte}
use dave.Fs.Bitmap.{is_free}
use dave.Inodes.{Inode, maxfile, put_bytes}
use dave.Inodes.Layout.{word_at-same}
use dave.Inodes.Owned.{root, block_of, block_of-same, content, Owned, IsFile}
use dave.Inodes.Growth.{Changed}

abbrev pub covers : ℕ → ℕ → ℕ → Bool
covers off len n = leb off n && ltb n (off + len)

-- The contents `f` with the bytes of `src` from `off` on.
abbrev pub patched : (ℕ → ℕ) → ℕ → List ℕ → ℕ → ℕ
patched f off src n = if covers off (length src) n then get_or src (n - off) 0 else f n

abbrev pub Bytes : List ℕ → Type 0
Bytes [] = Unit {0}
Bytes (x ∷ xs) = (x < 256) × Bytes xs

pub put_bytes_lem :
    (b off : ℕ) (xs : List ℕ) (s : Disk) (q o : ℕ)
    → (put_bytes b off xs s).bytes q o
      ≡ (if q == b && covers off (length xs) o then get_or xs (o - off) 0 else s.bytes q o)
unfolding put_bytes
put_bytes_lem b off [] s q o = ground arith
put_bytes_lem b off (x ∷ xs) s q o = elim (Bool-cases (o == off)) [
  | inl e ↦
      let z : o - off ≡ 0 = ground arith in
      rw z (ground (arith, put_bytes_lem b (off + 1) xs (put_byte b off x s) q o))
  | inr n ↦ elim (Bool-cases (ltb off o)) [
    | inl later ↦
        let z : o - off ≡ suc (o - (off + 1)) = ground arith in
        rw z (ground (arith, put_bytes_lem b (off + 1) xs (put_byte b off x s) q o))
    | inr before ↦ ground (arith, put_bytes_lem b (off + 1) xs (put_byte b off x s) q o)
  ]
]

get_or-small : (xs : List ℕ) (i : ℕ) → Bytes xs → get_or xs i 0 < 256
get_or-small [] i b = omega arith
get_or-small (x ∷ xs) zero b = b.0
get_or-small (x ∷ xs) (suc i) b = get_or-small xs i b.1

module _ (sb : Super) where
  -- Bytes are written into block `i` of the file, which it has.
  module _ (ip : Inode) (s : Disk) (i o : ℕ) (xs : List ℕ) (f : IsFile sb ip s) (lt : i < maxfile)
      (has : block_of ip s i ≢ 0) (fits : o + length xs ≤ bsize) (bytes : Bytes xs) where
    abbrev b : ℕ
    b = block_of ip s i

    abbrev pub with_bytes : Disk
    with_bytes = note b (put_bytes b o xs s)

    off_b : (q k : ℕ) → q ≢ b → with_bytes.bytes q k ≡ s.bytes q k
    off_b q k ne =
        let n : (q == b) ≡ false = ground (arith, ne) in put_bytes_lem b o xs s q k ∙ rw n refl

    pub same_free : (y : ℕ) → y < sb.size → is_free sb with_bytes y ≡ is_free sb s y
    same_free y in_y =
        ap (λ v. is_clear v (y % bpb))
          (off_b (bblock sb y) (y % bpb / 8) (λ e. (f.owned i lt has).apart y in_y (sym e)))

    kept : (q : ℕ) → Owned sb s q → Owned sb with_bytes q
    kept q w = record { inside = w.inside; used = same_free q w.inside ∙ w.used; apart = w.apart }

    pub same_block : (j : ℕ) → block_of ip with_bytes j ≡ block_of ip s j
    same_block j = block_of-same ip s with_bytes j (
        word_at-same s with_bytes (root ip)
          (λ k. off_b (root ip) k (λ e. f.off_root i lt has (sym e))))

    pos : (j : ℕ) → block_of ip with_bytes j ≢ 0 → block_of ip s j ≢ 0
    pos j ne z = ne (same_block j ∙ z)

    small : (q k : ℕ) → with_bytes.bytes q k < 256
    small q k =
        ground (arith, put_bytes_lem b o xs s q k, get_or-small xs (k - o) bytes, f.disk.small q k)

    written_file : IsFile sb ip with_bytes
    written_file = record {
      disk = record {
        small = small;
        reserved = λ c z in_c in_z e. f.disk.reserved c z in_c in_z (sym (same_free c in_c) ∙ e);
      };
      entries = f.entries;
      bounded = f.bounded;
      boot = let in_b = (f.owned i lt has).inside in same_free 0 (omega (arith, in_b)) ∙ f.boot;
      inode_block = kept _ f.inode_block;
      root_owned = λ ne. kept _ (f.root_owned ne);
      root_apart = f.root_apart;
      owned = λ j in_j ne.
          subst (Owned sb with_bytes) (sym (same_block j)) (kept _ (f.owned j in_j (pos j ne)));
      off_root = λ j in_j ne e. f.off_root j in_j (pos j ne) (sym (same_block j) ∙ e);
      off_inode = λ j in_j ne e. f.off_inode j in_j (pos j ne) (sym (same_block j) ∙ e);
      distinct = λ j k in_j in_k ne e.
          f.distinct j k in_j in_k (pos j ne) (sym (same_block j) ∙ e ∙ same_block k);
    }

    patched_here :
        (n : ℕ)
        → n / bsize ≡ i
        → content ip with_bytes n ≡ patched (content ip s) (i * bsize + o) xs n
    patched_here n e =
        let here = same_block (n / bsize) in
        let p : (block_of ip s i == 0) ≡ false = ground (arith, has) in
        let span : covers (i * bsize + o) (length xs) n ≡ covers o (length xs) (n % bsize) =
          ground arith in
        let index : n - (i * bsize + o) ≡ n % bsize - o = omega arith in
        rw (here, e, p) (put_bytes_lem b o xs s b (n % bsize) ∙ rw (span, index, b_is_b) refl)
      where
        b_is_b : (b == b) ≡ true
        b_is_b = ground arith

    elsewhere :
        (n : ℕ)
        → n < maxfile * bsize
        → n / bsize ≢ i
        → content ip with_bytes n ≡ patched (content ip s) (i * bsize + o) xs n
    elsewhere n in_n ne =
        let here = same_block (n / bsize) in
        let out : covers (i * bsize + o) (length xs) n ≡ false = ground (arith, ne, fits) in
        rw (here, out)
          (elim (Bool-cases (block_of ip s (n / bsize) == 0)) [
            | inl z ↦ rw z refl
            | inr p ↦ rw p (
                off_b (block_of ip s (n / bsize)) (n % bsize) (λ e.
                  ne (f.distinct (n / bsize) i (omega arith) lt (λ h. ground (arith, p, h)) e)))
          ])

    pub written_lem : Changed sb ip s ip with_bytes (patched (content ip s) (i * bsize + o) xs)
    written_lem = record {
      file = written_file;
      rest = refl;
      same_content = λ n in_n. elim (Bool-cases (n / bsize == i)) [
        | inl e ↦ patched_here n (ground arith)
        | inr e ↦ elsewhere n in_n (λ h. ground (arith, e, h))
      ];
      stays = λ j in_j ne. same_block j;
      fresh = λ j in_j ne. inl (same_block j);
      owned = kept;
      frame = λ q w other k. off_b q k (other.off_blocks i lt has);
      shrinks = λ y in_y e. sym (same_free y in_y) ∙ e;
      new_root = inl refl;
    }
