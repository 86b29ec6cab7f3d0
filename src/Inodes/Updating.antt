-- ===== src/Inodes/Updating.antt =====
-- `iupdate` of system/storage/fs.c changes the block of its inode alone.
use dave.Common.{
  ℕ, ◌+◌, ◌*◌, ◌/◌, ◌%◌, ◌<◌, ◌≡◌, ◌≢◌, refl, sym, ap, ◌∙◌, arith, ◌==◌, Bool-cases, inl, inr,
  subst, List, [], ◌∷◌,
}
use dave.Fs.{Super, Disk, bsize, bpb, bblock, is_clear}
use dave.Fs.Bitmap.{is_free}
use dave.Inodes.{Inode, iblock, maxfile, put_short, put_word, put_words, iupdate}
use dave.Inodes.Layout.{word_at-same}
use dave.Inodes.Growth.{Other}
use dave.Inodes.Counting.{free_count, free_below-same}
use dave.Inodes.Owned.{root, block_of, block_of-same, content, Owned, IsFile}

put_words-outside :
    (b off : ℕ) (xs : List ℕ) (s : Disk) (q o : ℕ)
    → q ≢ b
    → (put_words b off xs s).bytes q o ≡ s.bytes q o
unfolding put_words put_word put_short
put_words-outside b off [] s q o ne = refl
put_words-outside b off (x ∷ xs) s q o ne =
    ground (arith, put_words-outside b (off + 4) xs (put_word b off x s) q o ne)

put_words-small :
    (b off : ℕ) (xs : List ℕ) (s : Disk) (q o : ℕ)
    → s.bytes q o < 256
    → (put_words b off xs s).bytes q o < 256
unfolding put_words put_word put_short
put_words-small b off [] s q o lt = lt
put_words-small b off (x ∷ xs) s q o lt =
    put_words-small b (off + 4) xs (put_word b off x s) q o (ground arith)

module _ (sb : Super) where
  pub iupdate-outside :
      (ip : Inode) (s : Disk) (q o : ℕ)
      → q ≢ iblock sb ip.inum
      → (iupdate sb ip s).bytes q o ≡ s.bytes q o
  unfolding iupdate put_word put_short
  iupdate-outside ip s q o ne =
      put_words-outside (iblock sb ip.inum) _ ip.addrs _ q o ne ∙ ground (arith, ne)

  iupdate-small :
      (ip : Inode) (s : Disk) (q o : ℕ) → s.bytes q o < 256 → (iupdate sb ip s).bytes q o < 256
  unfolding iupdate put_word put_short
  iupdate-small ip s q o lt = put_words-small (iblock sb ip.inum) _ ip.addrs _ q o (ground arith)

  -- The inode of a file is written with another size.
  module _ (ip : Inode) (s : Disk) (f : IsFile sb ip s) (size : ℕ) where
    abbrev resized : Inode
    resized = record ip { size = size }

    abbrev updated : Disk
    updated = iupdate sb resized s

    pub same_free : (y : ℕ) → y < sb.size → is_free sb updated y ≡ is_free sb s y
    same_free y in_y =
        ap (λ v. is_clear v (y % bpb))
          (iupdate-outside resized s (bblock sb y) (y % bpb / 8)
            (λ e. f.inode_block.apart y in_y (sym e)))

    pub kept : (q : ℕ) → Owned sb s q → Owned sb updated q
    kept q w = record { inside = w.inside; used = same_free q w.inside ∙ w.used; apart = w.apart }

    pub same_block : (j : ℕ) → block_of resized updated j ≡ block_of ip s j
    same_block j = elim (Bool-cases (root ip == 0)) [
      | inl z ↦ rw z refl
      | inr p ↦ block_of-same ip s updated j (
          word_at-same s updated (root ip)
            (λ k. iupdate-outside resized s (root ip) k (f.root_apart (λ e. ground (arith, p, e)))))
    ]

    pos : (j : ℕ) → block_of resized updated j ≢ 0 → block_of ip s j ≢ 0
    pos j ne z = ne (same_block j ∙ z)

    pub resized_file : IsFile sb resized updated
    resized_file = record {
      disk = record {
        small = λ q k. iupdate-small resized s q k (f.disk.small q k);
        reserved = λ c z in_c in_z e. f.disk.reserved c z in_c in_z (sym (same_free c in_c) ∙ e);
      };
      entries = f.entries;
      bounded = f.bounded;
      boot = let in_b = f.inode_block.inside in same_free 0 (omega (arith, in_b)) ∙ f.boot;
      inode_block = kept _ f.inode_block;
      root_owned = λ ne. kept _ (f.root_owned ne);
      root_apart = f.root_apart;
      owned = λ j in_j ne.
          subst (Owned sb updated) (sym (same_block j)) (kept _ (f.owned j in_j (pos j ne)));
      off_root = λ j in_j ne e. f.off_root j in_j (pos j ne) (sym (same_block j) ∙ e);
      off_inode = λ j in_j ne e. f.off_inode j in_j (pos j ne) (sym (same_block j) ∙ e);
      distinct = λ j k in_j in_k ne e.
          f.distinct j k in_j in_k (pos j ne) (sym (same_block j) ∙ e ∙ same_block k);
    }

    pub resized-content : (n : ℕ) → n < maxfile * bsize → content resized updated n ≡ content ip s n
    resized-content n in_n = elim (Bool-cases (block_of ip s (n / bsize) == 0)) [
      | inl z ↦ rw (same_block (n / bsize), z) refl
      | inr p ↦
          rw (same_block (n / bsize), p)
            (iupdate-outside resized s (block_of ip s (n / bsize)) (n % bsize)
              (f.off_inode (n / bsize) (omega arith) (λ e. ground (arith, p, e))))
    ]

    pub resized-Other : (q : ℕ) → Other sb ip s q → Other sb resized updated q
    resized-Other q other = record {
      off_root = other.off_root;
      off_blocks = λ i lt ne e. other.off_blocks i lt (pos i ne) (e ∙ same_block i);
      off_inode = other.off_inode;
    }

    pub same_count : free_count sb updated ≡ free_count sb s
    same_count = free_below-same sb s updated sb.size same_free
