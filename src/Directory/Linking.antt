-- ===== src/Directory/Linking.antt =====
-- `dirlink` of system/storage/fs.c, and what `dirlookup` finds after it.
use dave.Common.{
  ℕ, suc, ◌+◌, ◌-◌, ◌*◌, ◌/◌, ◌%◌, ◌<◌, ◌≤◌, ◌≡◌, ◌≢◌, ◌⊎◌, refl, sym, ap, ap₂, ◌∙◌, subst, arith,
  word_size, true, false, inl, inr, List, ◌==◌, length, Option, some, ok,
}
use dave.Fs.{Super, Disk, bsize}
use dave.Inodes.{Inode, maxfile, t_dev}
use dave.Inodes.Owned.{content, IsFile}
use dave.Inodes.Reading.{segment}
use dave.Inodes.Storing.{Bytes, patched, covers}
use dave.Inodes.Files.{Written, WriteSpec, writei_lem, segment-entries}
use dave.Icache.{Icache}
use dave.Directory.{dirent_size, namecmp, name_field, dirent, dir_entries, dirlink}
use dave.Directory.Cases.{dirlink_cases}
use dave.Directory.Names.{name_field-Bytes, namecmp-name_field}
use dave.Directory.Lookup.{inum_at, name_at, matches, lookup, free_entry, IsDirectory}
use dave.Directory.Entries.{free_entry_lem, lookup-same, Linked, replaced, appended}

length-name_field : (name : List ℕ) → length (name_field name) ≡ 14
unfolding name_field
length-name_field name = refl

not_zero : {x y : ℕ} → x ≡ y → 0 < y → (x == 0) ≡ false
not_zero e pos = ground (arith, e, pos)

differs_from : (x : ℕ) → x ≢ 0 → (x == 0) ≡ false
differs_from x ne = ground (arith, ne)

-- The entry that `f` has at `off` once `dirent inum name` is written there.
module _ (f : ℕ → ℕ) (off inum : ℕ) (name : List ℕ) where
  abbrev g : ℕ → ℕ
  g = patched f off (dirent inum name)

  new_inum : inum < 65536 → inum_at g off ≡ inum
  new_inum small =
      let len = length-name_field name in
      let z : off - off ≡ 0 = omega arith in
      let o : off + 1 - off ≡ 1 = omega arith in
      let first : g off ≡ inum % 256 = rw z (ground (arith, len)) in
      let second : g (off + 1) ≡ inum / 256 % 256 = rw o (ground (arith, len)) in
      ap₂ (λ (x y : ℕ). x + 256 * y) first second ∙ omega arith

  new_name : name_at g off ≡ name_field name
  new_name =
      let len = length-name_field name in
      ap (segment g (off + 1 + 1)) (sym len)
      ∙ segment-entries g (off + 1 + 1) (name_field name) (λ i lt.
        let index : off + 1 + 1 + i - off ≡ suc (suc i) = omega arith in
        let inside : covers off (length (dirent inum name)) (off + 1 + 1 + i) ≡ true =
          ground (arith, len, lt) in
        rw (inside, index) refl)

  outside : (n : ℕ) → (n < off) ⊎ (off + dirent_size ≤ n) → g n ≡ f n
  outside n out =
      let len = length-name_field name in
      let no_cover : covers off (length (dirent inum name)) n ≡ false = ground (arith, len, out) in
      rw no_cover refl

dirent-Bytes : (inum : ℕ) (name : List ℕ) → Bytes name → Bytes (dirent inum name)
dirent-Bytes inum name b = (omega arith, (omega arith, name_field-Bytes name b))

module _ (devread : ℕ → Option (ℕ → Option (List ℕ))) (devwrite : ℕ → Option (List ℕ → Option ℕ))
    (sb : Super) where
  -- The directory after the new entry.
  module _ (name : List ℕ) (inum : ℕ) (dp : Inode) (s : Disk) (dp' : Inode) (s' : Disk)
      (d : IsDirectory dp s)
      (w : let off = free_entry (content dp s) (dir_entries dp) 0 in
        Written sb off (dirent inum name) dp s dp' s')
      (fits : free_entry (content dp s) (dir_entries dp) 0 + dirent_size ≤ maxfile * bsize) where
    abbrev k : ℕ
    k = dir_entries dp

    abbrev off : ℕ
    off = free_entry (content dp s) k 0

    grown-IsDirectory : IsDirectory dp' s'
    grown-IsDirectory =
        let whole = d.whole in
        let within = d.within in
        let (from, at_entry, place) = free_entry_lem (content dp s) k 0 in
        let len = length-name_field name in
        let size = w.new_size in
        record {
          directory = w.same_type ∙ d.directory;
          whole = ground (arith, whole, size, len, at_entry);
          within = ground (arith, within, size, len, fits);
          has_blocks = w.has_blocks;
        }

    abbrev new : ℕ → ℕ
    new = g (content dp s) off inum name

    abbrev kept : (n : ℕ) → (n < off) ⊎ (off + dirent_size ≤ n) → new n ≡ content dp s n
    kept = outside (content dp s) off inum name

    linked : (nm : List ℕ) → Linked (content dp s) new off kept nm k (dir_entries dp') 0
    linked nm =
        let whole = d.whole in
        let (from, at_entry, place) = free_entry_lem (content dp s) k 0 in
        let len = length-name_field name in
        let size = w.new_size in
        elim place [
          | inl (to, free) ↦
              let same : k ≡ dir_entries dp' = ground (arith, whole, size, len, to) in
              subst (λ k'. Linked (content dp s) new off kept nm k k' 0) same
                (replaced (content dp s) new off kept nm k 0 free (omega arith) at_entry to)
          | inr last ↦
              let same : suc k ≡ dir_entries dp' = ground (arith, whole, size, len, last) in
              subst (λ k'. Linked (content dp s) new off kept nm k k' 0) same
                (appended (content dp s) new off kept nm k 0 last)
        ]

    same_lookup :
        (nm : List ℕ)
        → lookup (content dp' s') nm (dir_entries dp') 0 ≡ lookup new nm (dir_entries dp') 0
    same_lookup nm =
        let d' = grown-IsDirectory in
        let whole = d'.whole in
        let within = d'.within in
        lookup-same new (content dp' s') nm (dir_entries dp') 0
          (λ i lt. w.new_content i (omega (arith, whole, within)))

  -- After a `dirlink` the directory is a directory, in which `dirlookup` finds the inode by its new
  -- name, and by every other name what it found before.
  pub dirlookup-dirlink :
      (name : List ℕ) (inum : ℕ) (dp : Inode) (ic : Icache) (s : Disk) (dp' : Inode) (ic' : Icache)
      (s' : Disk)
      → IsDirectory dp s
      → IsFile sb dp s
      → Bytes name
      → 0 < inum
      → inum < 65536
      → dirlink devread devwrite sb name inum dp ic s ≡ ok (true, dp', ic', s')
      → (let off = free_entry (content dp s) (dir_entries dp) 0 in
          IsDirectory dp' s'
          × IsFile sb dp' s'
          × (lookup (content dp' s') name (dir_entries dp') 0 ≡ some (off, inum))
          × ((other : List ℕ)
              → namecmp other (name_field name) ≢ 0
              → lookup (content dp' s') other (dir_entries dp') 0
                ≡ lookup (content dp s) other (dir_entries dp) 0))
  dirlookup-dirlink name inum dp ic s dp' ic' s' d f b pos small e =
      let (nothing, written) = dirlink_cases devread devwrite sb name inum dp ic s dp' ic' s' d e in
      let first : ℕ = free_entry (content dp s) (dir_entries dp) 0 in
      let (from, at_entry, place) = free_entry_lem (content dp s) (dir_entries dp) 0 in
      let within = d.within in
      let whole = d.whole in
      let len = length-name_field name in
      let file : dp.type ≢ t_dev = λ t. omega (arith, d.directory, t) in
      let at_most : first ≤ dp.size = elim place [
        | inl (to, free) ↦ omega (arith, whole, to)
        | inr last ↦ omega (arith, whole, last)
      ] in
      let spec =
        writei_lem sb devwrite (dirent inum name) first dp s file within d.has_blocks
          (short first at_most within) (dirent-Bytes inum name b) f in
      let (n, start, fits, w) = subst (WriteSpec sb first (dirent inum name) dp s) written spec in
      let room : first + dirent_size ≤ maxfile * bsize = omega (arith, fits, len) in
      let (other, found) = linked name inum dp s dp' s' d w room name in
      let at = new_inum (content dp s) first inum name small in
      let used : (inum_at (g (content dp s) first inum name) first == 0) ≡ false =
        not_zero at pos in
      let match : matches (g (content dp s) first inum name) name first ≡ true =
        rw (used, new_name (content dp s) first inum name, namecmp-name_field name b) refl in
      (
        grown-IsDirectory name inum dp s dp' s' d w room,
        w.file,
        same_lookup name inum dp s dp' s' d w room name
            ∙ found match nothing
            ∙ ap (λ q. some (first, q)) at,
        λ nm ne.
            let differs : (namecmp nm (name_field name) == 0) ≡ false = differs_from _ ne in
            let no_match : matches (g (content dp s) first inum name) nm first ≡ false =
              rw (used, new_name (content dp s) first inum name, differs) refl in
            let (same, _) = linked name inum dp s dp' s' d w room nm in
            same_lookup name inum dp s dp' s' d w room nm ∙ same no_match,
      )
    where
      short :
          (first : ℕ)
          → first ≤ dp.size
          → dp.size ≤ maxfile * bsize
          → first + length (dirent inum name) < word_size
      short first le within = omega (arith, length-name_field name)
