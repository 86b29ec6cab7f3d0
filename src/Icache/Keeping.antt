-- ===== src/Icache/Keeping.antt =====
-- `iput` of system/storage/fs.c keeps the number and the references of its inode, up to their last
-- decrement.
use dave.Common.{
  ℕ, zero, suc, ◌≡◌, refl, ◌∙◌, subst, ◌&&◌, Bool-cases, inl, inr, ◌==◌, Result, ok, panic,
  Result-cases, get_or, set,
}
use dave.Fs.{Super, Disk, bfree}
use dave.Inodes.{Inode, ndirect, nindirect, trunc_direct, trunc_indirect, trunc_root, itrunc}
use dave.Icache.{put_away}

abbrev pub SameInode : Inode → Inode → Type 0
SameInode ip ip' = (ip'.inum ≡ ip.inum) × (ip'.ref ≡ ip.ref)

-- The calls on an inode keep its number and its references.
abbrev pub Keeps : Inode → Result (Inode × Disk) → Type 0
Keeps ip panic = Unit {0}
Keeps ip (ok (ip', s')) = SameInode ip ip'

module _ (sb : Super) where
  trunc_direct-Keeps : (k i : ℕ) (ip : Inode) (s : Disk) → Keeps ip (trunc_direct sb k i ip s)
  unfolding trunc_direct
  trunc_direct-Keeps zero i ip s = (refl, refl)
  trunc_direct-Keeps (suc k) i ip s = elim (Bool-cases (get_or ip.addrs i 0 == 0)) [
    | inl z ↦ rw (z, trunc_direct) (trunc_direct-Keeps k (suc i) ip s)
    | inr p ↦ elim (Result-cases (bfree sb (get_or ip.addrs i 0) s)) [
      | inl e ↦ rw (p, e, trunc_direct) tt
      | inr (t, e) ↦
          rw (p, e, trunc_direct)
            (trunc_direct-Keeps k (suc i) (record ip { addrs = set ip.addrs i 0 }) t)
    ]
  ]

  trunc_root-Keeps : (ip : Inode) (s : Disk) → Keeps ip (trunc_root sb ip s)
  unfolding trunc_root
  trunc_root-Keeps ip s =
      let root = get_or ip.addrs ndirect 0 in
      elim (Bool-cases (root == 0)) [
        | inl z ↦ rw z (refl, refl)
        | inr p ↦ elim (Result-cases (trunc_indirect sb root nindirect 0 s)) [
          | inl e ↦ rw (p, e) tt
          | inr (t, e) ↦ elim (Result-cases (bfree sb root t)) [
            | inl h ↦ rw (p, e, h) tt
            | inr (u, h) ↦ rw (p, e, h) (refl, refl)
          ]
        ]
      ]

  pub itrunc-Keeps : (ip : Inode) (s : Disk) → Keeps ip (itrunc sb ip s)
  unfolding itrunc
  itrunc-Keeps ip s =
      let first = trunc_direct-Keeps ndirect 0 ip s in
      elim (Result-cases (trunc_direct sb ndirect 0 ip s)) [
        | inl e ↦ rw (e, itrunc) tt
        | inr ((ip1, s1), e) ↦
            let (n1, r1) = subst (Keeps ip) e first in
            let second = trunc_root-Keeps ip1 s1 in
            elim (Result-cases (trunc_root sb ip1 s1)) [
              | inl h ↦ rw (e, h, itrunc) tt
              | inr ((ip2, s2), h) ↦
                  let (n2, r2) = subst (Keeps ip1) h second in rw (e, h, itrunc) (n2 ∙ n1, r2 ∙ r1)
            ]
      ]

  pub put_away-Keeps : (ip : Inode) (s : Disk) → Keeps ip (put_away sb ip s)
  unfolding put_away
  put_away-Keeps ip s = elim (Bool-cases (ip.valid && ip.nlink == 0 && ip.ref == 1)) [
    | inr e ↦ rw e (refl, refl)
    | inl e ↦
        let spec = itrunc-Keeps ip s in
        elim (Result-cases (itrunc sb ip s)) [
          | inl h ↦ rw (e, h) tt
          | inr ((ip1, s1), h) ↦ let k = subst (Keeps ip) h spec in rw (e, h) k
        ]
  ]
