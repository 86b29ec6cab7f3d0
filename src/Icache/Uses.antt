-- ===== src/Icache/Uses.antt =====
-- Whoever holds an inode of the table of system/storage/fs.c keeps it.
use dave.Common.{
  ℕ, ◌≡◌, refl, sym, ap, ◌∙◌, subst, arith, inl, inr, update, add32, Result, ok, panic,
  Result-cases, ◌∷◌, ok-injective,
}
use dave.Fs.{Super, Disk}
use dave.Inodes.{Inode}
use dave.Icache.{Icache, idup, iput, put_away, drop_ref}
use dave.Icache.Keeping.{SameInode, Keeps, put_away-Keeps}
use dave.Icache.Slots.{IgetSpec, iget_lem}
use dave.Icache.Holders.{
  Holds, give_back, Step, gets, dups, puts, changes, World, Reach, here, later, IsCounted,
}
use dave.Icache.Counts.{
  count_le, count-give_back, give_back-Holds, length-give_back, held_ref, gets-IsCounted,
  slot_changed,
}

module _ (sb : Super) where
  iput-slot :
      (i : ℕ) (ic ic' : Icache) (s s' : Disk)
      → iput sb i ic s ≡ ok (ic', s')
      → (ip' : Inode) × (ic' ≡ update ic i (drop_ref ip')) × SameInode (ic i) ip'
  unfolding iput
  iput-slot i ic ic' s s' e =
      let spec = put_away-Keeps sb (ic i) s in
      elim (Result-cases (put_away sb (ic i) s)) [
        | inl h ↦
            let bad : ◌≡◌ {A = Result (Icache × Disk)} panic (ok (ic', s')) = rw (h, iput) at e in
            cc
        | inr ((ip', t), h) ↦
            let same = subst (Keeps (ic i)) h spec in
            let got : ok (update ic i (drop_ref ip'), t) ≡ ok (ic', s') = rw (h, iput) at e in
            (ip', sym (ap (λ (r : Icache × Disk). r.0) (ok-injective got)), same)
      ]

  puts-IsCounted :
      (w : World) (i n : ℕ) (ip' : Inode) (s' : Disk)
      → IsCounted w
      → Holds i n w.held
      → SameInode (w.cache i) ip'
      → IsCounted (record {
        cache = update w.cache i (drop_ref ip');
        disk = s';
        held = give_back i n w.held;
      })
  puts-IsCounted w i n ip' s' v h (number, ref) =
      let (in_i, _) = v.numbers i n h in
      let c = v.counted i in_i in
      let one = count-give_back i n w.held i h in
      let le = count_le i w.held in
      slot_changed w v i (drop_ref ip') s' (give_back i n w.held) (held_ref w v i n h) in_i number
        (ground (arith, ref, c, one, le, v.bounded))
        (λ j ne. ground (arith, count-give_back i n w.held j h, ne))
        (λ j m k. v.numbers j m (give_back-Holds i n w.held j m k))
        (omega (arith, length-give_back i n w.held, v.bounded))

  Step-IsCounted : (w w' : World) → Step sb w w' → IsCounted w → IsCounted w'
  unfolding idup
  Step-IsCounted _ _ (gets w inum i ic' lt e) v =
      gets-IsCounted w v inum i ic' lt (subst (IgetSpec inum w.cache) e (iget_lem inum w.cache))
  Step-IsCounted _ _ (dups w i n lt h) v =
      let (in_i, number) = v.numbers i n h in
      let ip = w.cache i in
      let c = v.counted i in_i in
      let le = count_le i w.held in
      slot_changed w v i (record ip { ref = add32 ip.ref 1 }) w.disk ((i, n) ∷ w.held)
        (held_ref w v i n h) in_i refl (ground (arith, c, le, lt)) (λ j ne. ground (arith, ne))
        (λ j m k. elim k [
          | inl (a, b) ↦ (omega (arith, in_i, a), ap (λ k. (w.cache k).inum) a ∙ number ∙ sym b)
          | inr old ↦ v.numbers j m old
        ])
        lt
  Step-IsCounted _ _ (puts w i n ic' s' h e) v =
      let (ip', same_cache, same) = iput-slot i w.cache ic' w.disk s' e in
      subst (λ ic. IsCounted (record { cache = ic; disk = s'; held = give_back i n w.held }))
        (sym same_cache) (puts-IsCounted w i n ip' s' v h same)
  Step-IsCounted _ _ (changes w i n ip s' h (number, ref)) v =
      let (in_i, _) = v.numbers i n h in
      slot_changed w v i ip s' w.held (held_ref w v i n h) in_i number (ref ∙ v.counted i in_i)
        (λ j ne. refl) v.numbers v.bounded

  -- Whatever calls of `iget`, `idup` and `iput` are made and whatever the holders change in their
  -- inodes: the references of a slot are the handles on it, the slot of a handle has the inode
  -- that its holder asked for, and no inode is in two slots.
  pub Reach-IsCounted : (u w : World) → Reach sb u w → IsCounted u → IsCounted w
  Reach-IsCounted _ _ (here u) c = c
  Reach-IsCounted _ _ (later u v w r s) c = Step-IsCounted v w s (Reach-IsCounted u v r c)
