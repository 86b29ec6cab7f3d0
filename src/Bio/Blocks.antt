-- ===== src/Bio/Blocks.antt =====
-- `bget` of system/storage/bio.c finds the buffer of a block, or recycles the one that has been
-- out of use for longest.
use dave.Common.{
  ◌==◌, ◌&&◌, not, ℕ, suc, ◌<◌, ◌≡◌, ◌≢◌, ◌⊎◌, refl, sym, ◌∙◌, subst, arith, Bool, true, false,
  Bool-cases, inl, inr, List, [], ◌∷◌, ◌++◌, none, some, of_some, Option-cases, update, add32,
  Result, ok, panic,
}
use dave.Bio.{Buf, Cache, head, nbuf, caches, unused, recycled, bget}
use dave.Bio.Ring.{
  find, search_along-find, backwards, length-backwards, Avoids-backwards, Linked-backwards,
}
use dave.Bio.Moves.{Has, IsRing, Within, Has-Within, Within-Avoids}
use dave.Bio.Order.{IsFull}

-- Nobody has the buffer, and no block of the log waits in it.
abbrev pub idle : Buf → Bool
idle b = b.refcnt == 0 && not b.dirty

-- No block of a device has two buffers; device 0 is that of the buffers that were never used.
abbrev pub OneEach : (ℕ → Buf) → Type 0
OneEach bufs =
    (dev blockno i j : ℕ)
    → dev ≢ 0
    → i < nbuf
    → j < nbuf
    → caches dev blockno (bufs i) ≡ true
    → caches dev blockno (bufs j) ≡ true
    → i ≡ j

-- `b` is the buffer of the block, and no other buffer has been touched.
pub record Got (dev blockno b : ℕ) (old new : ℕ → Buf) : Type 0 where
  pub inside : b < nbuf
  pub caches_block : caches dev blockno (new b) ≡ true
  pub others : (j : ℕ) → j ≢ b → new j ≡ old j
  pub one_each : OneEach old → OneEach new
  pub kept_block : idle (old b) ≡ false → caches dev blockno (old b) ≡ true
  pub counted : caches dev blockno (old b) ≡ true → (new b).refcnt ≡ add32 (old b).refcnt 1
  pub kept_data :
      caches dev blockno (old b) ≡ true
      → ((new b).valid ≡ (old b).valid) × ((new b).dirty ≡ (old b).dirty)
  pub emptied :
      caches dev blockno (old b) ≡ false
      → ((new b).valid ≡ false) × ((new b).dirty ≡ false) × ((new b).refcnt ≡ 1)

find-some :
    (test : ℕ → Bool) (xs : List ℕ) (b : ℕ) → find test xs ≡ some b → (test b ≡ true) × Has b xs
find-some test [] b e = cc
find-some test (x ∷ xs) b e = elim (Bool-cases (test x)) [
  | inl t ↦
      let same : x ≡ b = of_some (sym (rw t refl) ∙ e) in
      (subst (λ q. test q ≡ true) same t, inl (sym same))
  | inr t ↦ let (y, h) = find-some test xs b (sym (rw t refl) ∙ e) in (y, inr h)
]

find-none :
    (test : ℕ → Bool) (xs : List ℕ) (j : ℕ) → find test xs ≡ none → Has j xs → test j ≡ false
find-none test [] j e h = absurd h
find-none test (x ∷ xs) j e h = elim (Bool-cases (test x)) [
  | inl t ↦ absurd (none_some x (sym e ∙ rw t refl))
  | inr t ↦ elim h [
    | inl i ↦ subst (λ q. test q ≡ false) (sym i) t
    | inr k ↦ find-none test xs j (sym (rw t refl) ∙ e) k
  ]
]
  where
    none_some : (y : ℕ) → none ≡ some y → ⊥
    none_some y e = cc

Has-append : (j : ℕ) (xs : List ℕ) (x : ℕ) → Has j xs ⊎ (j ≡ x) → Has j (xs ++ x ∷ [])
Has-append j [] x (inl h) = absurd h
Has-append j [] x (inr e) = inl e
Has-append j (y ∷ xs) x (inl (inl e)) = inl e
Has-append j (y ∷ xs) x (inl (inr h)) = inr (Has-append j xs x (inl h))
Has-append j (y ∷ xs) x (inr e) = inr (Has-append j xs x (inr e))

Has-backwards : (j : ℕ) (xs : List ℕ) → Has j xs → Has j (backwards xs)
Has-backwards j [] h = absurd h
Has-backwards j (x ∷ xs) (inl e) = Has-append j (backwards xs) x (inr e)
Has-backwards j (x ∷ xs) (inr h) = Has-append j (backwards xs) x (inl (Has-backwards j xs h))

Within-append : (xs : List ℕ) (x : ℕ) → Within xs → x < nbuf → Within (xs ++ x ∷ [])
Within-append [] x w lt = (lt, tt)
Within-append (y ∷ xs) x (l, w) lt = (l, Within-append xs x w lt)

Within-backwards : (xs : List ℕ) → Within xs → Within (backwards xs)
Within-backwards [] w = tt
Within-backwards (x ∷ xs) (l, w) = Within-append (backwards xs) x (Within-backwards xs w) l

false_ne_true : {b : Bool} → b ≡ false → b ≡ true → ⊥
false_ne_true e h = cc

module _ (dev blockno b : ℕ) (old : ℕ → Buf) (lt : b < nbuf) where
  -- The buffer had the block already.
  Got-again :
      caches dev blockno (old b) ≡ true
      → (let buf = old b in
          Got dev blockno b old (update old b (record buf { refcnt = add32 buf.refcnt 1 })))
  Got-again has = record {
    inside = lt;
    caches_block = ground (arith, has);
    others = λ j ne. ground (arith, ne);
    one_each = λ each d n i j pos in_i in_j at_i at_j.
        each d n i j pos in_i in_j (ground (arith, at_i)) (ground (arith, at_j));
    kept_block = λ used. has;
    counted = λ h. ground arith;
    kept_data = λ h. (ground arith, ground arith);
    emptied = λ lacks. absurd (false_ne_true lacks has);
  }

  Got-new :
      unused (old b) ≡ true
      → ((j : ℕ) → j < nbuf → caches dev blockno (old j) ≡ false)
      → Got dev blockno b old (update old b (recycled dev blockno (old b)))
  Got-new free lacks = record {
    inside = lt;
    caches_block = ground arith;
    others = λ j ne. ground (arith, ne);
    one_each = λ each d n i j pos in_i in_j at_i at_j.
        ground (arith, each d n i j pos in_i in_j, lacks i in_i, lacks j in_j);
    kept_block = λ used. absurd (false_ne_true used free);
    counted = λ h. absurd (false_ne_true (lacks b lt) h);
    kept_data = λ h. absurd (false_ne_true (lacks b lt) h);
    emptied = λ h. (ground arith, ground arith, ground arith);
  }

-- The buffer that is given had the block already, or was the last one of the ring that nobody uses.
-- There is none only where no buffer has the block and every buffer is in use or dirty.
abbrev pub BgetSpec : ℕ → ℕ → Cache → List ℕ → Result (ℕ × Cache) → Type 0
BgetSpec dev blockno c xs panic =
    (j : ℕ) → j < nbuf → (caches dev blockno (c.bufs j) ≡ false) × (idle (c.bufs j) ≡ false)
BgetSpec dev blockno c xs (ok (b, c')) =
    Got dev blockno b c.bufs c'.bufs
    × IsRing c' xs
    × ((caches dev blockno (c.bufs b) ≡ true)
        ⊎ (find (λ j. idle (c.bufs j)) (backwards xs) ≡ some b))

-- In a ring of all the buffers `bget` gives the one buffer of the block, with one more reference; a
-- buffer in use or dirty keeps its block, a recycled one is empty and was the longest out of use,
-- and the ring stays. It panics only where no buffer has the block and all are in use or dirty.
pub bget_lem :
    (dev blockno : ℕ) (c : Cache) (xs : List ℕ)
    → IsRing c xs
    → IsFull xs
    → BgetSpec dev blockno c xs (bget dev blockno c)
unfolding bget
bget_lem dev blockno c xs r f =
    let test : ℕ → Bool = λ b. caches dev blockno (c.bufs b) in
    let out = Within-Avoids xs r.within in
    let forward =
      search_along-find c.next c.prev test (suc nbuf) head xs (omega (arith, f.count)) out
        r.linked in
    let free : ℕ → Bool = λ b. unused (c.bufs b) in
    let backward =
      search_along-find c.prev c.next free (suc nbuf) head (backwards xs)
        (omega (arith, f.count, length-backwards xs)) (Avoids-backwards head xs out)
        (Linked-backwards c.next c.prev head xs head r.linked) in
    elim (Option-cases (find test xs)) [
      | inr (b, e) ↦
          let (has, h) = find-some test xs b e in
          rw (forward, e, bget)
            (Got-again dev blockno b c.bufs (Has-Within b xs h r.within) has, same _, inl has)
      | inl e ↦
          let lacks = λ (j : ℕ) (lt : j < nbuf). find-none test xs j e (f.all j lt) in
          elim (Option-cases (find free (backwards xs))) [
            | inr (b, g) ↦
                let (is_free, h) = find-some free (backwards xs) b g in
                let lt = Has-Within b (backwards xs) h (Within-backwards xs r.within) in
                rw (forward, e, backward, g, bget)
                  (Got-new dev blockno b c.bufs lt is_free lacks, same _, inr g)
            | inl g ↦
                rw (forward, e, backward, g, bget)
                  (λ j lt. (
                    lacks j lt,
                    find-none free (backwards xs) j g (Has-backwards j xs (f.all j lt)),
                  ))
          ]
    ]
  where
    same : (bufs : ℕ → Buf) → IsRing (record c { bufs = bufs }) xs
    same bufs = record { linked = r.linked; distinct = r.distinct; within = r.within }
