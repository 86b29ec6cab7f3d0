-- ===== src/Inodes/Mapping.antt =====
-- `bmap` of system/storage/fs.c finds each block of a file, or gives the file a new one.
use dave.Common.{
  ℕ, suc, ◌+◌, ◌-◌, ◌*◌, ◌<◌, ◌≤◌, ◌≡◌, ◌≢◌, refl, sym, ap, ◌∙◌, arith, true, false, ◌==◌, ltb,
  get_or, set, Bool-cases, Result-cases, inl, inr, subst, Result, ok, panic, get_or-set_self,
}
use dave.Fs.{Super, Disk, balloc}
use dave.Fs.Bitmap.{Allocated, AllocSpec, balloc_lem}
use dave.Inodes.{
  Inode, ndirect, nindirect, maxfile, word_at, map_entry, map_indirect, through, bmap,
}
use dave.Inodes.Layout.{}
use dave.Inodes.Owned.{root, block_of, IsFile, new_pos}
use dave.Inodes.Growth.{Grown, Grown-refl}
use dave.Inodes.Counting.{free_count, none_free, free_below-same, count_less}
use dave.Inodes.Chain.{Grown-trans}
use dave.Inodes.Steps.{with_entry, entry_free, grow_direct, grow_root, grow_entry, entry_blocks}

module _ (sb : Super) where
  abbrev EntrySpec : ℕ → Inode → Disk → Result (ℕ × Inode × Disk) → Type 0
  EntrySpec i ip s panic = free_count sb s ≡ 0
  EntrySpec i ip s (ok (addr, ip', s')) =
      Grown sb ip s ip' s'
      × (get_or ip'.addrs i 0 ≡ addr)
      × (addr ≢ 0)
      × (free_count sb s ≤ suc (free_count sb s'))

  map_entry_lem :
      (i : ℕ) (ip : Inode) (s : Disk)
      → i ≤ ndirect
      → IsFile sb ip s
      → EntrySpec i ip s (map_entry sb i ip s)
  unfolding map_entry
  map_entry_lem i ip s le f = elim (Bool-cases (get_or ip.addrs i 0 == 0)) [
    | inr has ↦ rw has (Grown-refl sb ip s f, refl, λ h. ground (arith, has, h), omega arith)
    | inl lacks ↦
        let spec = balloc_lem sb s f.disk in
        elim (Result-cases (balloc sb s)) [
          | inl e ↦ rw (lacks, e) (none_free sb s sb.size (subst (AllocSpec sb s) e spec))
          | inr ((x, t), e) ↦
              let (a, first) = subst (AllocSpec sb s) e spec in
              rw (lacks, e)
                (
                  entry_grown i ip s x t le f a (ground arith),
                  get_or-set_self ip.addrs i x 0 (omega (arith, f.entries)),
                  new_pos sb s x t a f.boot,
                  omega (arith, count_less sb s x t a),
                )
        ]
  ]
    where
      entry_grown :
          (i : ℕ) (ip : Inode) (s : Disk) (x : ℕ) (t : Disk)
          → i ≤ ndirect
          → IsFile sb ip s
          → Allocated sb s x t
          → get_or ip.addrs i 0 ≡ 0
          → Grown sb ip s (record ip { addrs = set ip.addrs i x }) t
      entry_grown i ip s x t le f a none_yet = elim (Bool-cases (i == ndirect)) [
        | inl last ↦
            let same : i ≡ ndirect = ground arith in
            subst (λ k. Grown sb ip s (record ip { addrs = set ip.addrs k x }) t) (sym same)
              (grow_root sb ip s x t f a (ap (λ k. get_or ip.addrs k 0) (sym same) ∙ none_yet))
        | inr low ↦ grow_direct sb ip s x t f a i (ground arith) none_yet
      ]

  -- `addr` is block `bn` of the grown file, and at most two blocks were allocated; or less than two
  -- were free.
  abbrev pub BmapSpec : ℕ → Inode → Disk → Result (ℕ × Inode × Disk) → Type 0
  BmapSpec bn ip s panic = free_count sb s ≤ 1
  BmapSpec bn ip s (ok (addr, ip', s')) =
      Grown sb ip s ip' s'
      × (block_of ip' s' bn ≡ addr)
      × (addr ≢ 0)
      × (free_count sb s ≤ 2 + free_count sb s')

  indirect_at :
      (ip : Inode) (s : Disk) (bn : ℕ)
      → root ip ≢ 0
      → block_of ip s (bn + ndirect) ≡ word_at s (root ip) (4 * bn)
  indirect_at ip s bn has =
      let high : ltb (bn + ndirect) ndirect ≡ false = ground arith in
      let p : (root ip == 0) ≡ false = ground (arith, has) in
      let back : bn + ndirect - ndirect ≡ bn = omega arith in rw (high, p, back) refl

  -- The indirect block is there already.
  IndirectSpec : ℕ → Inode → Disk → Result (ℕ × Inode × Disk) → Type 0
  IndirectSpec bn ip s panic = free_count sb s ≡ 0
  IndirectSpec bn ip s (ok (addr, ip', s')) =
      Grown sb ip s ip' s'
      × (block_of ip' s' (bn + ndirect) ≡ addr)
      × (addr ≢ 0)
      × (free_count sb s ≤ suc (free_count sb s'))

  map_indirect_lem :
      (bn : ℕ) (ip : Inode) (s : Disk)
      → bn < nindirect
      → root ip ≢ 0
      → IsFile sb ip s
      → IndirectSpec bn ip s (map_indirect sb (root ip) bn ip s)
  unfolding map_indirect IndirectSpec
  map_indirect_lem bn ip s lt has f = elim (Bool-cases (word_at s (root ip) (4 * bn) == 0)) [
    | inr old ↦
        rw old
          (Grown-refl sb ip s f, indirect_at ip s bn has, λ h. ground (arith, old, h), omega arith)
    | inl lacks ↦
        let spec = balloc_lem sb s f.disk in
        elim (Result-cases (balloc sb s)) [
          | inl e ↦ rw (lacks, e) (none_free sb s sb.size (subst (AllocSpec sb s) e spec))
          | inr ((x, t), e) ↦
              let (a, first) = subst (AllocSpec sb s) e spec in
              let none_yet : word_at s (root ip) (4 * bn) ≡ 0 = ground arith in
              let here : (bn + ndirect == bn + ndirect) ≡ true = ground arith in
              rw (lacks, e)
                (
                  grow_entry sb ip s x t f a bn lt has none_yet,
                  entry_blocks sb ip s x t f a bn lt has none_yet (bn + ndirect) (omega arith)
                      ∙ rw here refl,
                  new_pos sb s x t a f.boot,
                  omega (
                    arith,
                    count_less sb s x t a,
                    free_below-same sb t (with_entry sb ip s x t f a bn lt has none_yet) sb.size
                        (entry_free sb ip s x t f a bn lt has none_yet),
                  ),
                )
        ]
  ]

  -- The indirect block has been found or made, and then its entry.
  indirect_then :
      (bn : ℕ) (ip : Inode) (s : Disk) (ip' : Inode) (s' : Disk) (q : Result (ℕ × Inode × Disk))
      → IsFile sb ip s
      → Grown sb ip s ip' s'
      → free_count sb s ≤ suc (free_count sb s')
      → IndirectSpec bn ip' s' q
      → BmapSpec (bn + ndirect) ip s q
  unfolding IndirectSpec
  indirect_then bn ip s ip' s' panic f g one full = omega arith
  indirect_then bn ip s ip' s' (ok (addr, ip'', s'')) f g one (h, at, ne, less) =
      (Grown-trans sb ip s ip' s' ip'' s'' g h, at, ne, omega arith)

  through_lem :
      (bn : ℕ) (ip : Inode) (s : Disk) (r : Result (ℕ × Inode × Disk))
      → bn < nindirect
      → IsFile sb ip s
      → EntrySpec ndirect ip s r
      → BmapSpec (bn + ndirect) ip s (through sb bn r)
  unfolding through
  through_lem bn ip s panic lt f full = omega arith
  through_lem bn ip s (ok (r, ip', s')) lt f (g, is_root, ne, one) =
      let has : root ip' ≢ 0 = λ z. ne (sym is_root ∙ z) in
      let spec : IndirectSpec bn ip' s' (map_indirect sb r bn ip' s') =
        subst (λ k. IndirectSpec bn ip' s' (map_indirect sb k bn ip' s')) is_root
          (map_indirect_lem bn ip' s' lt has g.file) in
      indirect_then bn ip s ip' s' (map_indirect sb r bn ip' s') f g one spec

  direct_then :
      (bn : ℕ) (ip : Inode) (s : Disk) (r : Result (ℕ × Inode × Disk))
      → bn < ndirect
      → EntrySpec bn ip s r
      → BmapSpec bn ip s r
  direct_then bn ip s panic lt full = omega arith
  direct_then bn ip s (ok (addr, ip', s')) lt (g, at, ne, one) =
      let low : ltb bn ndirect ≡ true = ground arith in (g, rw low at, ne, omega arith)

  -- `bmap` of a block number below 140 gives a block that is from then on block `bn` of the file:
  -- the one that it was, or a new one full of zeros, so that the contents are as before; no block
  -- of the file moves and no other file changes. It panics only when less than two blocks are free.
  pub bmap_lem :
      (bn : ℕ) (ip : Inode) (s : Disk)
      → bn < maxfile
      → IsFile sb ip s
      → BmapSpec bn ip s (bmap sb bn ip s)
  unfolding bmap
  bmap_lem bn ip s lt f = elim (Bool-cases (ltb bn ndirect)) [
    | inl low ↦
        rw low (direct_then bn ip s _ (ground arith) (map_entry_lem bn ip s (ground arith) f))
    | inr high ↦
        let in_b : ltb (bn - ndirect) nindirect ≡ true = ground arith in
        let back : bn - ndirect + ndirect ≡ bn = ground arith in
        rw (high, in_b)
          (subst (λ k. BmapSpec k ip s (through sb (bn - ndirect) (map_entry sb ndirect ip s))) back
            (through_lem (bn - ndirect) ip s _ (ground arith) f
              (map_entry_lem ndirect ip s (omega arith) f)))
  ]
