-- ===== src/Directory/Cases.antt =====
-- What a `dirlink` that links (system/storage/fs.c) has done: a lookup and a write.
use dave.Common.{
  ℕ, ◌≡◌, ap, ap₂, ◌∙◌, arith, Bool, true, false, Bool-cases, inl, inr, List, ◌==◌, Option, none,
  some, Option-cases, Result, ok, panic, Result-cases, ok-injective,
}
use dave.Fs.{Super, Disk}
use dave.Inodes.{Inode, writei}
use dave.Inodes.Owned.{content}
use dave.Icache.{Icache, iget, iput}
use dave.Directory.{dirent_size, dirent, dir_entries, write_dirent, dirlink}
use dave.Directory.Lookup.{
  lookup, free_entry, IsDirectory, find_free_lem, dirlookup_lem, all_entries,
}

module _ (devread : ℕ → Option (ℕ → Option (List ℕ))) (devwrite : ℕ → Option (List ℕ → Option ℕ))
    (sb : Super) where
  -- The state after a link: the entry has been written by `writei` at the free entry.
  abbrev pub LinkSpec : List ℕ → ℕ → Inode → Disk → Inode → Disk → Type 0
  LinkSpec name inum dp s dp' s' =
      let off = free_entry (content dp s) (dir_entries dp) 0 in
      (lookup (content dp s) name (dir_entries dp) 0 ≡ none)
      × (writei sb devwrite (dirent inum name) off dp s ≡ ok (some dirent_size, dp', s'))

  write_dirent_cases :
      (name : List ℕ) (inum off : ℕ) (dp : Inode) (s : Disk) (dp' : Inode) (s' : Disk)
      → write_dirent devwrite sb name inum (ok (off, dp, s)) ≡ ok (dp', s')
      → writei sb devwrite (dirent inum name) off dp s ≡ ok (some dirent_size, dp', s')
  unfolding write_dirent
  write_dirent_cases name inum off dp s dp' s' e =
      elim (Result-cases (writei sb devwrite (dirent inum name) off dp s)) [
        | inl h ↦
            let bad : ◌≡◌ {A = Result (Inode × Disk)} panic (ok (dp', s')) =
              rw (h, write_dirent) at e in
            cc
        | inr ((n, dp1, s1), h) ↦ elim (Option-cases n) [
          | inl k ↦
              let bad : ◌≡◌ {A = Result (Inode × Disk)} panic (ok (dp', s')) =
                rw (h, k, write_dirent) at e in
              cc
          | inr (m, k) ↦ elim (Bool-cases (m == dirent_size)) [
            | inr t ↦
                let bad : ◌≡◌ {A = Result (Inode × Disk)} panic (ok (dp', s')) =
                  rw (h, k, t, write_dirent) at e in
                cc
            | inl t ↦
                let got : ◌≡◌ {A = Result (Inode × Disk)} (ok (dp1, s1)) (ok (dp', s')) =
                  rw (h, k, t, write_dirent) at e in
                let same : m ≡ dirent_size = ground arith in
                h
                ∙ ap₂ (λ (o : Option ℕ) (r : Inode × Disk). ok (o, r.0, r.1))
                    (k ∙ ap (λ q. some q) same) (ok-injective got)
          ]
        ]
      ]

  pub dirlink_cases :
      (name : List ℕ) (inum : ℕ) (dp : Inode) (ic : Icache) (s : Disk) (dp' : Inode) (ic' : Icache)
      (s' : Disk)
      → IsDirectory dp s
      → dirlink devread devwrite sb name inum dp ic s ≡ ok (true, dp', ic', s')
      → LinkSpec name inum dp s dp' s'
  unfolding dirlink
  dirlink_cases name inum dp ic s dp' ic' s' d e =
      let look = dirlookup_lem devread sb dp s d name ic in
      let bad_link : Type 0 =
        ◌≡◌ {A = Result (Bool × Inode × Icache × Disk)} panic (ok (true, dp', ic', s')) in
      elim (Option-cases (lookup (content dp s) name (dir_entries dp) 0)) [
        | inr ((off, num), h) ↦ elim (Result-cases (iget num ic)) [
          | inl i ↦ let bad : bad_link = rw (look, h, i, dirlink) at e in absurd (cc)
          | inr ((slot, ic1), i) ↦ elim (Result-cases (iput sb slot ic1 s)) [
            | inl p ↦ let bad : bad_link = rw (look, h, i, p, dirlink) at e in absurd (cc)
            | inr ((ic2, s2), p) ↦
                let bad : ◌≡◌ {A = Result (Bool × Inode × Icache × Disk)} (ok (false, dp, ic2, s2))
                    (ok (true, dp', ic', s')) =
                  rw (look, h, i, p, dirlink) at e in
                absurd (cc)
          ]
        ]
        | inl h ↦
            let free =
              find_free_lem devread sb dp s d (dir_entries dp) 0 (all_entries devread sb dp s d) in
            let off : ℕ = free_entry (content dp s) (dir_entries dp) 0 in
            elim (Result-cases (write_dirent devwrite sb name inum (ok (off, dp, s)))) [
              | inl w ↦ let bad : bad_link = rw (look, h, free, w, dirlink) at e in absurd (cc)
              | inr ((dp2, s2), w) ↦
                  let got : ok (true, dp2, ic, s2) ≡ ok (true, dp', ic', s') =
                    rw (look, h, free, w, dirlink) at e in
                  let same =
                    ap (λ (r : Bool × Inode × Icache × Disk). (r.1, r.3)) (ok-injective got) in
                  (
                    h,
                    write_dirent_cases name inum off dp s dp' s'
                        (w ∙ ap (λ (r : Inode × Disk). ok r) same),
                  )
            ]
      ]
