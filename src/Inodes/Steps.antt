-- ===== src/Inodes/Steps.antt =====
-- The three ways in which `bmap` of system/storage/fs.c gives a file a new block.
use dave.Common.{
  ℕ, ◌+◌, ◌-◌, ◌*◌, ◌/◌, ◌%◌, ◌<◌, ◌≡◌, ◌≢◌, refl, sym, ap, ◌∙◌, arith, true, false, if◌then◌else◌,
  ◌==◌, ltb, get_or, set, Bool-cases, inl, inr, subst, length-set, get_or-set_self, get_or-set_ne,
}
use dave.Fs.{Super, Disk, bsize, bpb, bblock, note, is_clear}
use dave.Fs.Bitmap.{is_free, Allocated}
use dave.Inodes.{Inode, ndirect, nindirect, maxfile, word_at, put_word}
use dave.Inodes.Layout.{
  Apart, put_word-Outside, put_word-small, word_at-put_word, word_at-put_word_ne, word_at-same,
}
use dave.Inodes.Owned.{
  root, block_of, Owned, IsFile, Owned-ne, Owned-kept, Owned-new, Owned-same, new_pos,
}
use dave.Inodes.Growth.{Grown, extend}

module _ (sb : Super) where
  module _ (ip : Inode) (s : Disk) (x : ℕ) (t : Disk) (f : IsFile sb ip s)
      (a : Allocated sb s x t) where
    -- A root that has been allocated and is not the file's, and its entries.
    root_kept : (k : ℕ) → root ip ≢ 0 → word_at t (root ip) k ≡ word_at s (root ip) k
    root_kept k ne =
        word_at-same s t (root ip) (Owned-same sb s x t a (root ip) (f.root_owned ne)) k

    pub direct_blocks :
        (i j : ℕ)
        → i < ndirect
        → j < maxfile
        → block_of (record ip { addrs = set ip.addrs i x }) t j
          ≡ (if j == i then x else block_of ip s j)
    direct_blocks i j in_i in_j = elim (Bool-cases (ltb j ndirect)) [
      | inl low ↦ elim (Bool-cases (j == i)) [
        | inl e ↦
            let same : j ≡ i = ground arith in
            rw (low, e) (rw same (get_or-set_self ip.addrs i x 0 (omega (arith, f.entries))))
        | inr n ↦ rw (low, n) (get_or-set_ne ip.addrs i j x 0 (λ h. ground arith))
      ]
      | inr high ↦
          let n : (j == i) ≡ false = ground arith in
          let same_root : get_or (set ip.addrs i x) ndirect 0 ≡ root ip =
            get_or-set_ne ip.addrs i ndirect x 0 (λ h. omega arith) in
          rw (high, n, same_root)
            (elim (Bool-cases (root ip == 0)) [
              | inl z ↦ rw z refl
              | inr p ↦ rw p (root_kept (4 * (j - ndirect)) (λ h. ground arith))
            ])
    ]

    pub grow_direct :
        (i : ℕ)
        → i < ndirect
        → get_or ip.addrs i 0 ≡ 0
        → Grown sb ip s (record ip { addrs = set ip.addrs i x }) t
    grow_direct i in_i none_yet =
        extend sb ip s x t i (record ip { addrs = set ip.addrs i x }) t f a (omega arith)
          (hole_at i in_i none_yet) refl (length-set ip.addrs i x ∙ f.entries)
          (get_or-set_ne ip.addrs i ndirect x 0 (λ h. omega arith)) (λ q o ne. refl)
          (λ y in_y. refl) a.valid.small (λ j in_j. direct_blocks i j in_i in_j)
      where
        hole_at : (i : ℕ) → i < ndirect → get_or ip.addrs i 0 ≡ 0 → block_of ip s i ≡ 0
        hole_at i in_i e = let low : ltb i ndirect ≡ true = ground arith in rw low e

    -- The file gets an indirect block, which lists no block yet.
    module _ (none_yet : root ip ≡ 0) where
      abbrev pub with_root : Inode
      with_root = record ip { addrs = set ip.addrs ndirect x }

      pub root_is : root with_root ≡ x
      root_is = get_or-set_self ip.addrs ndirect x 0 (omega (arith, f.entries))

      pub x_pos : x ≢ 0
      x_pos = new_pos sb s x t a f.boot

      empty_entry : (k : ℕ) → k < nindirect → word_at t x (4 * k) ≡ 0
      empty_entry k lt = ground (
        arith,
        a.zeroed (4 * k) (omega arith),
        a.zeroed (4 * k + 1) (omega arith),
        a.zeroed (4 * k + 2) (omega arith),
        a.zeroed (4 * k + 2 + 1) (omega arith),
      )

      same_blocks : (j : ℕ) → j < maxfile → block_of with_root t j ≡ block_of ip s j
      same_blocks j in_j = elim (Bool-cases (ltb j ndirect)) [
        | inl low ↦ rw low (get_or-set_ne ip.addrs ndirect j x 0 (λ h. ground arith))
        | inr high ↦
            let z : (root ip == 0) ≡ true = ground (arith, none_yet) in
            let p : (x == 0) ≡ false = ground (arith, x_pos) in
            rw (high, z, root_is, p) (empty_entry (j - ndirect) (omega arith))
      ]

      pos_before : (j : ℕ) → j < maxfile → block_of with_root t j ≢ 0 → block_of ip s j ≢ 0
      pos_before j in_j ne z = ne (same_blocks j in_j ∙ z)

      root_file : IsFile sb with_root t
      root_file = record {
        disk = a.valid;
        entries = length-set ip.addrs ndirect x ∙ f.entries;
        bounded = f.bounded;
        boot =
            let in_0 : 0 < sb.size = omega (arith, a.inside) in
            ground (arith, a.bitmap 0 in_0, f.boot);
        inode_block = Owned-kept sb s x t a _ f.inode_block;
        root_owned = λ ne. subst (Owned sb t) (sym root_is) (Owned-new sb s x t a f.disk);
        root_apart = λ ne e. Owned-ne sb s x t a _ f.inode_block (sym (sym root_is ∙ e));
        owned = λ j in_j ne.
            subst (Owned sb t) (sym (same_blocks j in_j))
              (Owned-kept sb s x t a _ (f.owned j in_j (pos_before j in_j ne)));
        off_root = λ j in_j ne e.
            Owned-ne sb s x t a _ (f.owned j in_j (pos_before j in_j ne))
              (sym (same_blocks j in_j) ∙ e ∙ root_is);
        off_inode =
            λ j in_j ne e. f.off_inode j in_j (pos_before j in_j ne) (sym (same_blocks j in_j) ∙ e);
        distinct = λ j k in_j in_k ne e.
            f.distinct j k in_j in_k (pos_before j in_j ne)
              (sym (same_blocks j in_j) ∙ e ∙ same_blocks k in_k);
      }

      pub grow_root : Grown sb ip s with_root t
      grow_root = record {
        file = root_file;
        rest = refl;
        same_content = λ n lt.
            rw (same_blocks (n / bsize) (omega arith))
              (elim (Bool-cases (block_of ip s (n / bsize) == 0)) [
                | inl z ↦ rw z refl
                | inr p ↦ rw p (
                    Owned-same sb s x t a _
                      (f.owned (n / bsize) (omega arith) (λ h. ground (arith, p, h))) (n % bsize))
              ]);
        stays = λ j in_j ne. same_blocks j in_j;
        fresh = λ j in_j ne. inl (same_blocks j in_j);
        owned = λ q w. Owned-kept sb s x t a q w;
        frame = λ q w other k. Owned-same sb s x t a q w k;
        shrinks = λ y in_y e. ground (arith, a.bitmap y in_y, e);
        new_root = inr (ap (is_free sb s) root_is ∙ a.was_free);
      }

    -- The indirect block gets an entry.
    module _ (bn : ℕ) (lt : bn < nindirect) (has_root : root ip ≢ 0)
        (none_yet : word_at s (root ip) (4 * bn) ≡ 0) where
      abbrev pub with_entry : Disk
      with_entry = note (root ip) (put_word (root ip) (4 * bn) x t)

      root_test : (root ip == 0) ≡ false
      root_test = ground (arith, has_root)

      pub entry_blocks :
          (j : ℕ)
          → j < maxfile
          → block_of ip with_entry j ≡ (if j == bn + ndirect then x else block_of ip s j)
      entry_blocks j in_j = elim (Bool-cases (ltb j ndirect)) [
        | inl low ↦ let n : (j == bn + ndirect) ≡ false = ground arith in rw (low, n) refl
        | inr high ↦ elim (Bool-cases (j == bn + ndirect)) [
          | inl e ↦
              let same : j - ndirect ≡ bn = ground arith in
              rw (high, e, root_test, same)
                (word_at-put_word (root ip) (4 * bn) x t (omega (arith, a.inside, f.bounded)))
          | inr n ↦
              rw (high, n, root_test)
                (word_at-put_word_ne (root ip) (4 * bn) x t (root ip) (4 * (j - ndirect))
                    (other_entry j high n)
                  ∙ root_kept (4 * (j - ndirect)) has_root)
        ]
      ]
        where
          other_entry :
              (j : ℕ)
              → ltb j ndirect ≡ false
              → (j == bn + ndirect) ≡ false
              → Apart (root ip) (4 * bn) (root ip) (4 * (j - ndirect))
          other_entry j high n = elim (Bool-cases (ltb (j - ndirect) bn)) [
            | inl less ↦ inr (inl (ground arith))
            | inr more ↦ inr (inr (ground arith))
          ]

      pub entry_free : (y : ℕ) → y < sb.size → is_free sb with_entry y ≡ is_free sb t y
      entry_free y in_y =
          ap (λ v. is_clear v (y % bpb))
            (put_word-Outside (root ip) (4 * bn) x t (bblock sb y) (y % bpb / 8)
              (inl (λ e. (f.root_owned has_root).apart y in_y (sym e))))

      pub grow_entry : Grown sb ip s ip with_entry
      grow_entry =
          extend sb ip s x t (bn + ndirect) ip with_entry f a (omega arith) hole refl f.entries refl
            (λ q o ne. put_word-Outside (root ip) (4 * bn) x t q o (inl ne)) entry_free
            (λ q o. put_word-small (root ip) (4 * bn) x t q o (a.valid.small q o)) entry_blocks
        where
          hole : block_of ip s (bn + ndirect) ≡ 0
          hole =
              let high : ltb (bn + ndirect) ndirect ≡ false = ground arith in
              let back : bn + ndirect - ndirect ≡ bn = omega arith in
              rw (high, root_test, back) none_yet
