-- ===== src/Inodes/Owned.antt =====
-- Which blocks a file of system/storage/fs.c has, and what is in it.
use dave.Common.{
  ℕ, ◌-◌, ◌*◌, ◌/◌, ◌%◌, ◌<◌, ◌≡◌, ◌≢◌, refl, ap, arith, word_size, false, if◌then◌else◌, ◌==◌, ltb,
  length, get_or, Bool-cases, inl, inr,
}
use dave.Fs.{Super, Disk, bsize, bblock}
use dave.Fs.Bitmap.{is_free, IsValid, Allocated}
use dave.Inodes.{Inode, iblock, ndirect, maxfile, word_at}

-- The number of the indirect block, or 0.
abbrev pub root : Inode → ℕ
root ip = get_or ip.addrs ndirect 0

-- The block that holds block `i` of the file, or 0.
abbrev pub block_of : Inode → Disk → ℕ → ℕ
block_of ip s i =
    if ltb i ndirect
    then get_or ip.addrs i 0
    else if root ip == 0
    then 0
    else word_at s (root ip) (4 * (i - ndirect))

-- The bytes of the file; where it has no block they read as 0.
abbrev pub content : Inode → Disk → ℕ → ℕ
content ip s n = let b = block_of ip s (n / bsize) in if b == 0 then 0 else s.bytes b (n % bsize)

pub block_of-same :
    (ip : Inode) (s t : Disk) (j : ℕ)
    → ((k : ℕ) → word_at t (root ip) k ≡ word_at s (root ip) k)
    → block_of ip t j ≡ block_of ip s j
block_of-same ip s t j same = elim (Bool-cases (ltb j ndirect)) [
  | inl low ↦ rw low refl
  | inr high ↦ elim (Bool-cases (root ip == 0)) [
    | inl z ↦ rw (high, z) refl
    | inr p ↦ rw (high, p) (same (4 * (j - ndirect)))
  ]
]

module _ (sb : Super) where
  -- A block in use outside the bitmap.
  pub record Owned (s : Disk) (b : ℕ) : Type 0 where
    pub inside : b < sb.size
    pub used : is_free sb s b ≡ false
    pub apart : (z : ℕ) → z < sb.size → b ≢ bblock sb z

  -- The blocks of a file are in use and distinct, and none of them is its indirect block or the block
  -- that its inode is in.
  pub record IsFile (ip : Inode) (s : Disk) : Type 0 where
    pub disk : IsValid sb s
    pub entries : length ip.addrs ≡ 13
    pub bounded : sb.size < word_size
    pub boot : is_free sb s 0 ≡ false
    pub inode_block : Owned s (iblock sb ip.inum)
    pub root_owned : root ip ≢ 0 → Owned s (root ip)
    pub root_apart : root ip ≢ 0 → root ip ≢ iblock sb ip.inum
    pub owned : (i : ℕ) → i < maxfile → block_of ip s i ≢ 0 → Owned s (block_of ip s i)
    pub off_root : (i : ℕ) → i < maxfile → block_of ip s i ≢ 0 → block_of ip s i ≢ root ip
    pub off_inode :
        (i : ℕ) → i < maxfile → block_of ip s i ≢ 0 → block_of ip s i ≢ iblock sb ip.inum
    pub distinct :
        (i j : ℕ)
        → i < maxfile
        → j < maxfile
        → block_of ip s i ≢ 0
        → block_of ip s i ≡ block_of ip s j
        → i ≡ j

  module _ (s : Disk) (x : ℕ) (s' : Disk) (a : Allocated sb s x s') where
    pub Owned-ne : (q : ℕ) → Owned s q → q ≢ x
    Owned-ne q o e = ground (arith, o.used, a.was_free, ap (is_free sb s) e)

    pub Owned-kept : (q : ℕ) → Owned s q → Owned s' q
    Owned-kept q o = record {
      inside = o.inside;
      used = ground (arith, a.bitmap q o.inside, o.used);
      apart = o.apart;
    }

    pub Owned-new : IsValid sb s → Owned s' x
    Owned-new v = record {
      inside = a.inside;
      used = ground (arith, a.bitmap x a.inside);
      apart = λ z in_z. v.reserved x z a.inside in_z a.was_free;
    }

    pub Owned-same : (q : ℕ) → Owned s q → (o : ℕ) → s'.bytes q o ≡ s.bytes q o
    Owned-same q w o = a.others q o (Owned-ne q w) w.apart

    pub new_pos : is_free sb s 0 ≡ false → x ≢ 0
    new_pos boot e = ground (arith, boot, a.was_free, ap (is_free sb s) e)
