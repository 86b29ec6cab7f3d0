-- ===== src/Inodes/Growth.antt =====
-- What an allocation by `bmap` of system/storage/fs.c leaves of a file and of the other blocks.
use dave.Common.{
  ℕ, ◌*◌, ◌/◌, ◌%◌, ◌<◌, ◌≡◌, ◌≢◌, ◌⊎◌, refl, sym, ap, ◌∙◌, arith, true, false, ◌&&◌, not,
  if◌then◌else◌, ◌==◌, length, Bool-cases, inl, inr, subst,
}
use dave.Fs.{Super, Disk, bsize}
use dave.Fs.Bitmap.{is_free, Allocated}
use dave.Inodes.{Inode, iblock, maxfile}
use dave.Inodes.Owned.{root, block_of, content, Owned, IsFile, Owned-ne, Owned-same, new_pos}

module _ (sb : Super) where
  -- A block that is not the file's.
  pub record Other (ip : Inode) (s : Disk) (q : ℕ) : Type 0 where
    pub off_root : q ≢ root ip
    pub off_blocks : (i : ℕ) → i < maxfile → block_of ip s i ≢ 0 → q ≢ block_of ip s i
    pub off_inode : q ≢ iblock sb ip.inum

  -- The file has the contents `f`, its blocks stay where they are, and the blocks of others are as
  -- before; it may have more blocks, which were free.
  pub record Changed (ip : Inode) (s : Disk) (ip' : Inode) (s' : Disk) (f : ℕ → ℕ) : Type 0 where
    pub file : IsFile sb ip' s'
    pub rest : ip' ≡ record ip { addrs = ip'.addrs }
    pub same_content : (n : ℕ) → n < maxfile * bsize → content ip' s' n ≡ f n
    pub stays : (i : ℕ) → i < maxfile → block_of ip s i ≢ 0 → block_of ip' s' i ≡ block_of ip s i
    pub fresh :
        (i : ℕ)
        → i < maxfile
        → block_of ip' s' i ≢ 0
        → (block_of ip' s' i ≡ block_of ip s i) ⊎ (is_free sb s (block_of ip' s' i) ≡ true)
    pub owned : (q : ℕ) → Owned sb s q → Owned sb s' q
    pub frame : (q : ℕ) → Owned sb s q → Other ip s q → (o : ℕ) → s'.bytes q o ≡ s.bytes q o
    pub shrinks : (y : ℕ) → y < sb.size → is_free sb s' y ≡ true → is_free sb s y ≡ true
    pub new_root : (root ip' ≡ root ip) ⊎ (is_free sb s (root ip') ≡ true)

  abbrev pub Grown : Inode → Disk → Inode → Disk → Type 0
  Grown ip s ip' s' = Changed ip s ip' s' (content ip s)

  pub Grown-refl : (ip : Inode) (s : Disk) → IsFile sb ip s → Grown ip s ip s
  Grown-refl ip s f = record {
    file = f;
    rest = refl;
    same_content = λ n lt. refl;
    stays = λ i lt ne. refl;
    fresh = λ i lt ne. inl refl;
    owned = λ q o. o;
    frame = λ q o ne k. refl;
    shrinks = λ y lt e. e;
    new_root = inl refl;
  }

  -- Block `x` has been allocated and has become block `i` of the file.
  module _ (ip : Inode) (s : Disk) (x : ℕ) (t : Disk) (i : ℕ) (ip' : Inode) (s' : Disk)
      (f : IsFile sb ip s) (a : Allocated sb s x t) (lt : i < maxfile) (hole : block_of ip s i ≡ 0)
      (rest : ip' ≡ record ip { addrs = ip'.addrs }) (entries : length ip'.addrs ≡ 13)
      (same_root : root ip' ≡ root ip)
      (others : (q o : ℕ) → q ≢ root ip → s'.bytes q o ≡ t.bytes q o)
      (same_free : (y : ℕ) → y < sb.size → is_free sb s' y ≡ is_free sb t y)
      (small : (q o : ℕ) → s'.bytes q o < 256)
      (blocks : (j : ℕ)
        → j < maxfile
        → block_of ip' s' j ≡ (if j == i then x else block_of ip s j)) where
    same_inum : ip'.inum ≡ ip.inum
    same_inum = ap (λ (p : Inode). p.inum) rest

    free_after : (y : ℕ) → y < sb.size → is_free sb s' y ≡ not (y == x) && is_free sb s y
    free_after y in_y = same_free y in_y ∙ a.bitmap y in_y

    kept : (q : ℕ) → Owned sb s q → Owned sb s' q
    kept q o = record {
      inside = o.inside;
      used = ground (arith, free_after q o.inside, o.used);
      apart = o.apart;
    }

    new : Owned sb s' x
    new = record {
      inside = a.inside;
      used = ground (arith, free_after x a.inside);
      apart = λ z in_z. f.disk.reserved x z a.inside in_z a.was_free;
    }

    x_pos : x ≢ 0
    x_pos = new_pos sb s x t a f.boot

    x_off_root : x ≢ root ip
    x_off_root e = elim (Bool-cases (root ip == 0)) [
      | inl z ↦ x_pos (ground (arith, e, z))
      | inr ne ↦ Owned-ne sb s x t a (root ip) (f.root_owned (λ h. ground (arith, ne, h))) (sym e)
    ]

    at_new : (j : ℕ) → j < maxfile → (j == i) ≡ true → block_of ip' s' j ≡ x
    at_new j in_j e = blocks j in_j ∙ rw e refl

    at_old : (j : ℕ) → j < maxfile → (j == i) ≡ false → block_of ip' s' j ≡ block_of ip s j
    at_old j in_j e = blocks j in_j ∙ rw e refl

    old_pos : (j : ℕ) → j < maxfile → (j == i) ≡ false → block_of ip' s' j ≢ 0 → block_of ip s j ≢ 0
    old_pos j in_j e ne h = ne (at_old j in_j e ∙ h)

    -- A property of the new block and of the old ones holds of all.
    each :
        (P : ℕ → Type 0)
        → P x
        → ((j : ℕ) → j < maxfile → block_of ip s j ≢ 0 → P (block_of ip s j))
        → (j : ℕ) → j < maxfile
        → block_of ip' s' j ≢ 0
        → P (block_of ip' s' j)
    each P px old j in_j ne = elim (Bool-cases (j == i)) [
      | inl e ↦ subst P (sym (at_new j in_j e)) px
      | inr e ↦ subst P (sym (at_old j in_j e)) (old j in_j (old_pos j in_j e ne))
    ]

    distinct' :
        (j k : ℕ)
        → j < maxfile
        → k < maxfile
        → block_of ip' s' j ≢ 0
        → block_of ip' s' j ≡ block_of ip' s' k
        → j ≡ k
    distinct' j k in_j in_k ne e = elim (Bool-cases (j == i)) [
      | inl ji ↦ elim (Bool-cases (k == i)) [
        | inl ki ↦ ground arith
        | inr kn ↦ absurd (clash k in_k kn (sym (sym (at_new j in_j ji) ∙ e)))
      ]
      | inr jn ↦ elim (Bool-cases (k == i)) [
        | inl ki ↦ absurd (clash j in_j jn (e ∙ at_new k in_k ki))
        | inr kn ↦
            f.distinct j k in_j in_k (old_pos j in_j jn ne)
              (sym (at_old j in_j jn) ∙ e ∙ at_old k in_k kn)
      ]
    ]
      where
        clash : (m : ℕ) → m < maxfile → (m == i) ≡ false → block_of ip' s' m ≢ x
        clash m in_m n h =
            let same = sym (at_old m in_m n) ∙ h in
            Owned-ne sb s x t a (block_of ip s m) (f.owned m in_m (λ z. x_pos (sym same ∙ z))) same

    file' : IsFile sb ip' s'
    file' = record {
      disk = record {
        small = small;
        reserved =
            λ b z in_b in_z e. f.disk.reserved b z in_b in_z (ground (arith, free_after b in_b, e));
      };
      entries = entries;
      bounded = f.bounded;
      boot =
          let in_0 : 0 < sb.size = omega (arith, a.inside) in
          ground (arith, free_after 0 in_0, f.boot);
      inode_block = subst (λ m. Owned sb s' (iblock sb m)) (sym same_inum) (kept _ f.inode_block);
      root_owned = λ ne.
          subst (Owned sb s') (sym same_root) (kept _ (f.root_owned (λ z. ne (same_root ∙ z))));
      root_apart = λ ne e.
          f.root_apart (λ z. ne (same_root ∙ z)) (sym same_root ∙ e ∙ ap (iblock sb) same_inum);
      owned = each (Owned sb s') new (λ j in_j ne. kept _ (f.owned j in_j ne));
      off_root =
          each (λ b. b ≢ root ip') (λ e. x_off_root (e ∙ same_root))
            (λ j in_j ne e. f.off_root j in_j ne (e ∙ same_root));
      off_inode =
          each (λ b. b ≢ iblock sb ip'.inum)
            (λ e. Owned-ne sb s x t a _ f.inode_block (sym (e ∙ ap (iblock sb) same_inum)))
            (λ j in_j ne e. f.off_inode j in_j ne (e ∙ ap (iblock sb) same_inum));
      distinct = distinct';
    }

    bytes_kept : (q o : ℕ) → Owned sb s q → q ≢ root ip → s'.bytes q o ≡ s.bytes q o
    bytes_kept q o w ne = others q o ne ∙ Owned-same sb s x t a q w o

    -- A new block holds zeros, as a missing one does.
    same_content' : (n : ℕ) → n < maxfile * bsize → content ip' s' n ≡ content ip s n
    same_content' n in_n = elim (Bool-cases (n / bsize == i)) [
      | inl e ↦
          let b = at_new (n / bsize) (omega arith) e in
          let same : n / bsize ≡ i = ground arith in
          let old : block_of ip s (n / bsize) ≡ 0 = ap (block_of ip s) same ∙ hole in
          rw (b, old) (ground (arith, others x (n % bsize) x_off_root, a.zeroed (n % bsize)))
      | inr e ↦
          let b = at_old (n / bsize) (omega arith) e in
          rw b (elim (Bool-cases (block_of ip s (n / bsize) == 0)) [
            | inl z ↦ rw z refl
            | inr p ↦
                let ne : block_of ip s (n / bsize) ≢ 0 = λ h. ground (arith, p, h) in
                let in_b : n / bsize < maxfile = omega arith in
                rw p (
                  bytes_kept _ (n % bsize) (f.owned (n / bsize) in_b ne)
                    (f.off_root (n / bsize) in_b ne))
          ])
    ]

    pub extend : Grown ip s ip' s'
    extend = record {
      file = file';
      rest = rest;
      same_content = same_content';
      stays = λ j in_j ne. elim (Bool-cases (j == i)) [
        | inl e ↦ let same : j ≡ i = ground arith in absurd (ne (ap (block_of ip s) same ∙ hole))
        | inr e ↦ at_old j in_j e
      ];
      fresh = λ j in_j ne. elim (Bool-cases (j == i)) [
        | inl e ↦ inr (ap (is_free sb s) (at_new j in_j e) ∙ a.was_free)
        | inr e ↦ inl (at_old j in_j e)
      ];
      owned = kept;
      frame = λ q w other o. bytes_kept q o w other.off_root;
      shrinks = λ y in_y e. ground (arith, free_after y in_y, e);
      new_root = inl same_root;
    }
