-- ===== src/Fs/Bitmap.antt =====
-- What `balloc` and `bfree` of system/storage/fs.c do to the set of free blocks.
use dave.Common.{
  ℕ, zero, suc, ◌+◌, ◌-◌, ◌/◌, ◌%◌, ◌<◌, ◌≤◌, ◌≡◌, ◌≢◌, inl, inr, refl, sym, ap, ◌∙◌, arith, Bool,
  true, false, ◌&&◌, not, Option, none, some, Result, ok, panic, if◌then◌else◌, ◌==◌, ltb,
  Bool-cases, Option-cases, subst, ◌*◌,
}
use dave.Fs.{
  Super, Disk, bsize, bpb, bblock, bzero, is_clear, find_clear, mark, balloc_from, balloc, bfree,
}
use dave.Fs.Bits.{is_clear-with_bit, is_clear-without_bit}

module _ (sb : Super) where
  -- The bit of block `b` is clear.
  abbrev pub is_free : Disk → ℕ → Bool
  is_free s b = is_clear (s.bytes (bblock sb b) (b % bpb / 8)) (b % bpb)

  -- Blocks hold bytes, and the blocks of the bitmap are in use.
  pub record IsValid (s : Disk) : Type 0 where
    pub small : (q o : ℕ) → s.bytes q o < 256
    pub reserved : (b z : ℕ) → b < sb.size → z < sb.size → is_free s b ≡ true → b ≢ bblock sb z

  is_free_at :
      (s : Disk) (b j : ℕ)
      → b % bpb ≡ 0
      → j < bpb
      → is_free s (b + j) ≡ is_clear (s.bytes (bblock sb b) (j / 8)) j
  is_free_at s b j whole lt =
      let e : (b + j) % bpb ≡ j = omega arith in
      let q : bblock sb (b + j) ≡ bblock sb b = omega arith in rw (e, q) refl

  -- The first clear bit from `bi` on, if there is one.
  abbrev Found : Disk → ℕ → ℕ → ℕ → Option ℕ → Type 0
  Found s b k bi none = (j : ℕ) → bi ≤ j → j < bi + k → b + j < sb.size → is_free s (b + j) ≡ false
  Found s b k bi (some i) =
      (bi ≤ i)
      × (i < bi + k)
      × (b + i < sb.size)
      × (is_free s (b + i) ≡ true)
      × ((j : ℕ) → bi ≤ j → j < i → is_free s (b + j) ≡ false)

  Found-next :
      (s : Disk) (b k bi : ℕ) (o : Option ℕ)
      → is_free s (b + bi) ≡ false
      → Found s b k (suc bi) o
      → Found s b (suc k) bi o
  Found-next s b k bi none here rest = λ j from to room. elim (Bool-cases (j == bi)) [
    | inl e ↦ let same : j ≡ bi = ground arith in rw same here
    | inr e ↦ rest j (ground arith) (omega arith) room
  ]
  Found-next s b k bi (some i) here (from, to, room, free, before) = (
    omega arith,
    omega arith,
    room,
    free,
    λ j a c. elim (Bool-cases (j == bi)) [
      | inl e ↦ let same : j ≡ bi = ground arith in rw same here
      | inr e ↦ before j (ground arith) c
    ],
  )

  find_clear_lem :
      (s : Disk) (b k bi : ℕ) → b % bpb ≡ 0 → bi + k ≤ bpb → Found s b k bi (find_clear sb s b k bi)
  unfolding find_clear
  find_clear_lem s b zero bi whole le = λ j from to room. absurd (omega arith)
  find_clear_lem s b (suc k) bi whole le = elim (Bool-cases (ltb (b + bi) sb.size)) [
    | inr past ↦ rw past (λ j from to room. absurd (ground (arith, room)))
    | inl inside ↦
        let at = is_free_at s b bi whole (omega arith) in
        elim (Bool-cases (is_clear (s.bytes (bblock sb b) (bi / 8)) bi)) [
          | inl clear ↦
              rw (inside, clear)
                (omega arith, omega arith, ground arith, at ∙ clear, λ j a c. absurd (omega arith))
          | inr set ↦
              rw (inside, set)
                (Found-next s b k bi _ (at ∙ set)
                  (find_clear_lem s b k (suc bi) whole (omega arith)))
        ]
  ]

  is_free-mark :
      (s : Disk) (b bi y : ℕ)
      → IsValid s
      → b % bpb ≡ 0
      → bi < bpb
      → is_free (mark sb b bi s) y ≡ not (y == b + bi) && is_free s y
  unfolding mark
  is_free-mark s b bi y v whole lt =
      ground (arith, is_clear-with_bit (s.bytes (bblock sb b) (bi / 8)) bi (y % bpb) (v.small _ _))

  -- Block `x` has been allocated: it was the first free one, it is zeroed and now in use, and the
  -- blocks but it and the bitmap have not changed.
  pub record Allocated (s : Disk) (x : ℕ) (s' : Disk) : Type 0 where
    pub inside : x < sb.size
    pub was_free : is_free s x ≡ true
    pub bitmap : (y : ℕ) → y < sb.size → is_free s' y ≡ not (y == x) && is_free s y
    pub zeroed : (o : ℕ) → o < bsize → s'.bytes x o ≡ 0
    pub others :
        (q o : ℕ) → q ≢ x → ((z : ℕ) → z < sb.size → q ≢ bblock sb z) → s'.bytes q o ≡ s.bytes q o
    pub valid : IsValid s'

  mark-small : (s : Disk) (b bi q o : ℕ) → IsValid s → (mark sb b bi s).bytes q o < 256
  unfolding mark
  mark-small s b bi q o v =
      ground
        (arith, v.small q o, is_clear-with_bit (s.bytes (bblock sb b) (bi / 8)) bi bi (v.small _ _))

  -- Zeroing a block outside the bitmap does not change the bitmap.
  is_free-bzero : (s : Disk) (x y : ℕ) → bblock sb y ≢ x → is_free (bzero x s) y ≡ is_free s y
  unfolding bzero
  is_free-bzero s x y ne = let e : (bblock sb y == x) ≡ false = ground (arith, ne) in rw e refl

  bzero-mark :
      (s : Disk) (b bi : ℕ)
      → IsValid s
      → b % bpb ≡ 0
      → bi < bpb
      → b + bi < sb.size
      → is_free s (b + bi) ≡ true
      → Allocated s (b + bi) (bzero (b + bi) (mark sb b bi s))
  bzero-mark s b bi v whole lt inside free = record {
    inside = inside;
    was_free = free;
    bitmap = bitmap';
    zeroed = λ o small. unfold bzero in ground (arith, small);
    others = λ q o ne meta. others' q o ne (meta b (omega arith));
    valid = record {
      small = λ q o. small' q o;
      reserved = λ c z in_c in_z e. v.reserved c z in_c in_z (ground (arith, bitmap' c in_c, e));
    };
  }
    where
      bitmap' :
          (y : ℕ)
          → y < sb.size
          → is_free (bzero (b + bi) (mark sb b bi s)) y ≡ not (y == b + bi) && is_free s y
      bitmap' y in_y =
          is_free-bzero (mark sb b bi s) (b + bi) y
            (λ e. v.reserved (b + bi) y inside in_y free (sym e))
          ∙ is_free-mark s b bi y v whole lt

      others' :
          (q o : ℕ)
          → q ≢ b + bi
          → q ≢ bblock sb b
          → (bzero (b + bi) (mark sb b bi s)).bytes q o ≡ s.bytes q o
      others' q o ne meta = unfold bzero mark in ground (arith, ne, meta)

      small' : (q o : ℕ) → (bzero (b + bi) (mark sb b bi s)).bytes q o < 256
      small' q o = unfold bzero in ground (arith, mark-small s b bi q o v)

  -- Either no block is free and the kernel panics, or the first free block is allocated.
  abbrev pub AllocSpec : Disk → Result (ℕ × Disk) → Type 0
  AllocSpec s panic = (y : ℕ) → y < sb.size → is_free s y ≡ false
  AllocSpec s (ok (x, s')) = Allocated s x s' × ((y : ℕ) → y < x → is_free s y ≡ false)

  below_next :
      (s : Disk) (b : ℕ)
      → ((y : ℕ) → y < b → y < sb.size → is_free s y ≡ false)
      → ((j : ℕ) → 0 ≤ j → j < 0 + bpb → b + j < sb.size → is_free s (b + j) ≡ false)
      → (y : ℕ) → y < b + bpb
      → y < sb.size
      → is_free s y ≡ false
  below_next s b before here y lt in_y = elim (Bool-cases (ltb y b)) [
    | inl low ↦ before y (ground arith) in_y
    | inr high ↦
        let e : b + (y - b) ≡ y = ground arith in
        ap (is_free s) (sym e) ∙ here (y - b) (omega arith) (omega arith) (omega arith)
  ]

  below_found :
      (s : Disk) (b i : ℕ)
      → ((y : ℕ) → y < b → y < sb.size → is_free s y ≡ false)
      → ((j : ℕ) → 0 ≤ j → j < i → is_free s (b + j) ≡ false)
      → b + i < sb.size
      → (y : ℕ) → y < b + i
      → is_free s y ≡ false
  below_found s b i before here inside y lt = elim (Bool-cases (ltb y b)) [
    | inl low ↦ before y (ground arith) (omega arith)
    | inr high ↦
        let e : b + (y - b) ≡ y = ground arith in
        ap (is_free s) (sym e) ∙ here (y - b) (omega arith) (omega arith)
  ]

  balloc_from_lem :
      (k b : ℕ) (s : Disk)
      → IsValid s
      → b % bpb ≡ 0
      → sb.size ≤ b + k * bpb
      → ((y : ℕ) → y < b → y < sb.size → is_free s y ≡ false)
      → AllocSpec s (balloc_from sb k b s)
  unfolding balloc_from
  balloc_from_lem zero b s v whole enough before = λ y in_y. before y (omega arith) in_y
  balloc_from_lem (suc k) b s v whole enough before = elim (Bool-cases (ltb b sb.size)) [
    | inr past ↦ rw past (λ y in_y. before y (ground arith) in_y)
    | inl inside ↦
        let found = find_clear_lem s b bpb 0 whole (omega arith) in
        elim (Option-cases (find_clear sb s b bpb 0)) [
          | inl e ↦
              rw (inside, e)
                (balloc_from_lem k (b + bpb) s v (omega arith) (omega arith)
                  (below_next s b before (subst (Found s b bpb 0) e found)))
          | inr (i, e) ↦
              let (from, to, room, free, first) = subst (Found s b bpb 0) e found in
              rw (inside, e)
                (
                  bzero-mark s b i v whole (omega arith) room free,
                  below_found s b i before first room,
                )
        ]
  ]

  -- `balloc` takes the first free block: it marks it, and no other, as used, fills it with zeros, and
  -- leaves all blocks but it and the bitmap alone; it panics exactly when no block is free.
  pub balloc_lem : (s : Disk) → IsValid s → AllocSpec s (balloc sb s)
  unfolding balloc
  balloc_lem s v =
      balloc_from_lem ((sb.size + bpb - 1) / bpb) 0 s v (omega arith) (omega arith)
        (λ y lt in_y. absurd (omega arith))

  -- What `bfree` of a block in use does.
  pub record Freed (s : Disk) (x : ℕ) (s' : Disk) : Type 0 where
    pub bitmap : (y : ℕ) → is_free s' y ≡ (if y == x then true else is_free s y)
    pub small : (q o : ℕ) → s'.bytes q o < 256
    pub others : (q o : ℕ) → q ≢ bblock sb x → s'.bytes q o ≡ s.bytes q o

  abbrev pub FreeSpec : Disk → ℕ → Result Disk → Type 0
  FreeSpec s x panic = is_free s x ≡ true
  FreeSpec s x (ok s') = (is_free s x ≡ false) × Freed s x s'

  pub bfree_lem : (s : Disk) (x : ℕ) → IsValid s → FreeSpec s x (bfree sb x s)
  unfolding bfree
  bfree_lem s x v = elim (Bool-cases (is_free s x)) [
    | inl free ↦ rw free free
    | inr used ↦ rw used (
      used,
      record {
        bitmap = λ y. ground (
          arith,
          used,
          is_clear-without_bit (s.bytes (bblock sb x) (x % bpb / 8)) (x % bpb) (y % bpb)
              (v.small _ _),
        );
        small = λ q o. ground (
          arith,
          v.small q o,
          is_clear-without_bit (s.bytes (bblock sb x) (x % bpb / 8)) (x % bpb) (x % bpb)
              (v.small _ _),
        );
        others = λ q o ne. ground (arith, ne);
      },
    )
  ]

  -- A block that `balloc` has given out can be freed, and then the same blocks are free as before.
  pub bfree-balloc :
      (s s' : Disk) (x : ℕ)
      → IsValid s
      → balloc sb s ≡ ok (x, s')
      → (t : Disk) × (bfree sb x s' ≡ ok t) × ((y : ℕ) → y < sb.size → is_free t y ≡ is_free s y)
  bfree-balloc s s' x v e =
      let (a, first) = subst (AllocSpec s) e (balloc_lem s v) in
      freed_again s s' x a (bfree sb x s') refl (bfree_lem s' x a.valid)
    where
      freed_again :
          (s s' : Disk) (x : ℕ)
          → Allocated s x s'
          → (r : Result Disk) → bfree sb x s' ≡ r
          → FreeSpec s' x r
          → (t : Disk) × (bfree sb x s' ≡ ok t)
            × ((y : ℕ) → y < sb.size → is_free t y ≡ is_free s y)
      freed_again s s' x a panic e free = absurd (ground (arith, free, a.bitmap x a.inside))
      freed_again s s' x a (ok t) e (used, f) =
          (t, e, λ y in_y. ground (arith, f.bitmap y, a.bitmap y in_y, a.was_free))
