-- ===== src/Inodes/Chain.antt =====
-- Changes of a file of system/storage/fs.c, one after the other.
use dave.Common.{ℕ, ◌*◌, ◌<◌, ◌≡◌, ◌≢◌, sym, ap, ◌∙◌, arith, true, inl, inr}
use dave.Fs.{Super, Disk, bsize}
use dave.Fs.Bitmap.{is_free}
use dave.Inodes.{Inode, iblock, maxfile}
use dave.Inodes.Owned.{root, block_of, content, Owned}
use dave.Inodes.Growth.{Other, Changed, Grown}

module _ (sb : Super) where
  -- The same contents, written otherwise.
  pub Changed-to :
      (ip : Inode) (s : Disk) (ip' : Inode) (s' : Disk) (f g : ℕ → ℕ)
      → ((n : ℕ) → n < maxfile * bsize → f n ≡ g n)
      → Changed sb ip s ip' s' f
      → Changed sb ip s ip' s' g
  Changed-to ip s ip' s' f g same c = record {
    file = c.file;
    rest = c.rest;
    same_content = λ n lt. c.same_content n lt ∙ same n lt;
    stays = c.stays;
    fresh = c.fresh;
    owned = c.owned;
    frame = c.frame;
    shrinks = c.shrinks;
    new_root = c.new_root;
  }

  module _ (ip : Inode) (s : Disk) (ip' : Inode) (s' : Disk) (f : ℕ → ℕ)
      (c : Changed sb ip s ip' s' f) where
    taken_then : (q b : ℕ) → Owned sb s q → is_free sb s b ≡ true → q ≢ b
    taken_then q b o free e = ground (arith, o.used, free, ap (is_free sb s) e)

    pub Other-kept : (q : ℕ) → Owned sb s q → Other sb ip s q → Other sb ip' s' q
    Other-kept q o other = record {
      off_root = λ e. elim c.new_root [
        | inl same ↦ other.off_root (e ∙ same)
        | inr free ↦ taken_then q (root ip') o free e
      ];
      off_blocks = λ i lt ne e. elim (c.fresh i lt ne) [
        | inl same ↦ other.off_blocks i lt (λ z. ne (same ∙ z)) (e ∙ same)
        | inr free ↦ taken_then q (block_of ip' s' i) o free e
      ];
      off_inode = λ e. other.off_inode (e ∙ ap (λ (p : Inode). iblock sb p.inum) c.rest);
    }

    module _ (ip'' : Inode) (s'' : Disk) (g : ℕ → ℕ) (d : Changed sb ip' s' ip'' s'' g) where
      root_before : is_free sb s' (root ip'') ≡ true → is_free sb s (root ip'') ≡ true
      root_before free = c.shrinks (root ip'') (d.file.root_owned pos).inside free
        where
          pos : root ip'' ≢ 0
          pos z = ground (arith, free, c.file.boot, ap (is_free sb s') z)

      pub Changed-trans : Changed sb ip s ip'' s'' g
      Changed-trans = record {
        file = d.file;
        rest = d.rest ∙ ap (λ (p : Inode). record p { addrs = ip''.addrs }) c.rest;
        same_content = d.same_content;
        stays = λ i lt ne. d.stays i lt (λ z. ne (sym (c.stays i lt ne) ∙ z)) ∙ c.stays i lt ne;
        fresh = λ i lt ne. elim (d.fresh i lt ne) [
          | inr free ↦ inr (c.shrinks _ (d.file.owned i lt ne).inside free)
          | inl same ↦ elim (c.fresh i lt (λ z. ne (same ∙ z))) [
            | inl e ↦ inl (same ∙ e)
            | inr free ↦ inr (ap (is_free sb s) same ∙ free)
          ]
        ];
        owned = λ q o. d.owned q (c.owned q o);
        frame =
            λ q o other k. d.frame q (c.owned q o) (Other-kept q o other) k ∙ c.frame q o other k;
        shrinks = λ y lt e. c.shrinks y lt (d.shrinks y lt e);
        new_root = elim d.new_root [
          | inr free ↦ inr (root_before free)
          | inl e ↦ elim c.new_root [
            | inl e' ↦ inl (e ∙ e')
            | inr free ↦ inr (ap (is_free sb s) e ∙ free)
          ]
        ];
      }

  pub Grown-trans :
      (ip : Inode) (s : Disk) (ip' : Inode) (s' : Disk) (ip'' : Inode) (s'' : Disk)
      → Grown sb ip s ip' s'
      → Grown sb ip' s' ip'' s''
      → Grown sb ip s ip'' s''
  Grown-trans ip s ip' s' ip'' s'' g h =
      Changed-to ip s ip'' s'' (content ip' s') (content ip s) g.same_content
        (Changed-trans ip s ip' s' (content ip s) g ip'' s'' (content ip' s') h)
