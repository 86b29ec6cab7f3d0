-- ===== src/Icache/Slots.antt =====
-- `iget` of system/storage/fs.c: where it looks, and what it leaves of the other slots.
use dave.Common.{
  ℕ, zero, suc, ◌+◌, ◌<◌, ◌≤◌, ◌≡◌, ◌≢◌, ◌⊎◌, refl, sym, ap, ◌∙◌, subst, arith, true, false,
  Bool-cases, inl, inr, Option, none, some, of_some, ◌==◌, update, add32, Result, ok, panic,
}
use dave.Inodes.{Inode}
use dave.Icache.{Icache, Found, cached, missing, ninode, is_cached, remember, scan, iget}

-- What a scan from slot `i` to slot `n` may give, with a slot already remembered.
abbrev ScanSpec : ℕ → Icache → ℕ → ℕ → Option ℕ → Found → Type 0
ScanSpec inum ic i n empty (cached j) = (i ≤ j) × (j < n) × (is_cached inum (ic j) ≡ true)
ScanSpec inum ic i n empty (missing none) =
    (empty ≡ none) × ((j : ℕ) → i ≤ j → j < n → (is_cached inum (ic j) ≡ false) × ((ic j).ref ≢ 0))
ScanSpec inum ic i n empty (missing (some e)) =
    ((j : ℕ) → i ≤ j → j < n → is_cached inum (ic j) ≡ false)
    × ((empty ≡ some e) ⊎ ((i ≤ e) × (e < n) × ((ic e).ref ≡ 0)))

remember-none :
    (i : ℕ) (ip : Inode) (empty : Option ℕ)
    → remember i ip empty ≡ none
    → (empty ≡ none) × (ip.ref ≢ 0)
remember-none i ip (some e) h = cc
remember-none i ip none h = elim (Bool-cases (ip.ref == 0)) [
  | inl z ↦ absurd (some_none (sym (rw z refl) ∙ h))
  | inr p ↦ (refl, λ e. ground (arith, p, e))
]
  where
    some_none : some i ≡ none → ⊥
    some_none e = cc

remember-some :
    (i : ℕ) (ip : Inode) (empty : Option ℕ) (e : ℕ)
    → remember i ip empty ≡ some e
    → (empty ≡ some e) ⊎ ((e ≡ i) × (ip.ref ≡ 0))
remember-some i ip (some d) e h = inl h
remember-some i ip none e h = elim (Bool-cases (ip.ref == 0)) [
  | inl z ↦ inr (sym (of_some (sym (rw z refl) ∙ h)), ground arith)
  | inr p ↦ absurd (none_some (sym (rw p refl) ∙ h))
]
  where
    none_some : none ≡ some e → ⊥
    none_some e = cc

scan_step :
    (inum : ℕ) (ic : Icache) (i n : ℕ) (empty : Option ℕ) (r : Found)
    → i < n
    → is_cached inum (ic i) ≡ false
    → ScanSpec inum ic (suc i) n (remember i (ic i) empty) r
    → ScanSpec inum ic i n empty r
scan_step inum ic i n empty (cached j) lt lacks (le, l, e) = (omega arith, l, e)
scan_step inum ic i n empty (missing none) lt lacks (e, all) =
    let (z, ne) = remember-none i (ic i) empty e in
    (
      z,
      λ j from to. elim (Bool-cases (i == j)) [
        | inl same ↦
            let eq : i ≡ j = ground arith in
            subst (λ k. (is_cached inum (ic k) ≡ false) × ((ic k).ref ≢ 0)) eq (lacks, ne)
        | inr other ↦ all j (ground (arith, other)) to
      ],
    )
scan_step inum ic i n empty (missing (some e)) lt lacks (all, where_from) = (
  λ j from to. elim (Bool-cases (i == j)) [
    | inl same ↦
        let eq : i ≡ j = ground arith in subst (λ k. is_cached inum (ic k) ≡ false) eq lacks
    | inr other ↦ all j (ground (arith, other)) to
  ],
  elim where_from [
    | inl h ↦ elim (remember-some i (ic i) empty e h) [
      | inl k ↦ inl k
      | inr (k, z) ↦ inr (omega arith, omega arith, ap (λ q. (ic q).ref) k ∙ z)
    ]
    | inr (from, to, z) ↦ inr (omega arith, to, z)
  ],
)

scan_lem :
    (inum : ℕ) (ic : Icache) (k i : ℕ) (empty : Option ℕ)
    → ScanSpec inum ic i (i + k) empty (scan inum ic k i empty)
unfolding scan
scan_lem inum ic zero i none = (refl, λ j from to. absurd (omega arith))
scan_lem inum ic zero i (some e) = ((λ j from to. absurd (omega arith)), inl refl)
scan_lem inum ic (suc k) i empty = elim (Bool-cases (is_cached inum (ic i))) [
  | inl e ↦ rw e (omega arith, omega arith, e)
  | inr e ↦
      let next : suc i + k ≡ i + suc k = omega arith in
      rw e (
        scan_step inum ic i (i + suc k) empty _ (omega arith) e (
          subst
            (λ n.
              ScanSpec inum ic (suc i) n (remember i (ic i) empty)
                (scan inum ic k (suc i) (remember i (ic i) empty)))
            next (scan_lem inum ic k (suc i) (remember i (ic i) empty))))
]

-- No inode is in two slots.
abbrev pub OnePer : Icache → Type 0
OnePer ic =
    (n i j : ℕ)
    → i < ninode
    → j < ninode
    → is_cached n (ic i) ≡ true
    → is_cached n (ic j) ≡ true
    → i ≡ j

-- Slot `i` has the inode and one reference more, or the first, and no other slot has been touched.
pub record Got (inum i : ℕ) (ic ic' : Icache) : Type 0 where
  pub inside : i < ninode
  pub number : (ic' i).inum ≡ inum
  pub others : (j : ℕ) → j ≢ i → ic' j ≡ ic j
  pub one_per : OnePer ic → OnePer ic'
  pub counted : (ic' i).ref ≡ add32 (ic i).ref 1
  pub kept : (ic i).ref ≢ 0 → ((ic i).inum ≡ inum) × ((ic' i).valid ≡ (ic i).valid)
  pub reloads : (ic i).ref ≡ 0 → (ic' i).valid ≡ false

-- There is no slot only where all are in use, for other inodes.
abbrev pub IgetSpec : ℕ → Icache → Result (ℕ × Icache) → Type 0
IgetSpec inum ic panic = (j : ℕ) → j < ninode → ((ic j).ref ≢ 0) × ((ic j).inum ≢ inum)
IgetSpec inum ic (ok (i, ic')) = Got inum i ic ic'

module _ (inum i : ℕ) (ic : Icache) (lt : i < ninode) where
  Got-cached :
      is_cached inum (ic i) ≡ true
      → (let ip = ic i in Got inum i ic (update ic i (record ip { ref = add32 ip.ref 1 })))
  Got-cached has = record {
    inside = lt;
    number = ground (arith, has);
    others = λ j ne. ground (arith, ne);
    one_per = λ one n j k in_j in_k at_j at_k.
        one n j k in_j in_k (ground (arith, at_j, has)) (ground (arith, at_k, has));
    counted = ground arith;
    kept = λ ne. (ground (arith, has), ground arith);
    reloads = λ z. ground (arith, has, z);
  }

  Got-empty :
      (ic i).ref ≡ 0
      → ((j : ℕ) → j < ninode → is_cached inum (ic j) ≡ false)
      → (let ip = ic i in
          Got inum i ic (update ic i (record ip { inum = inum; ref = 1; valid = false })))
  Got-empty z all = record {
    inside = lt;
    number = ground arith;
    others = λ j ne. ground (arith, ne);
    one_per = λ one n j k in_j in_k at_j at_k.
        ground (arith, one n j k in_j in_k, all j in_j, all k in_k, at_j, at_k);
    counted = ground (arith, z);
    kept = λ ne. absurd (ne z);
    reloads = λ e. ground arith;
  }

-- `iget` gives the one slot of the inode with one more reference; a slot that is in use keeps its
-- inode, and one that is not is to be read again.
pub iget_lem : (inum : ℕ) (ic : Icache) → IgetSpec inum ic (iget inum ic)
unfolding iget
iget_lem inum ic = from_scan _ (scan_lem inum ic ninode 0 none)
  where
    from_scan :
        (r : Found)
        → ScanSpec inum ic 0 ninode none r
        → IgetSpec inum ic (elim r [
          | cached i ↦ let ip = ic i in ok (i, update ic i (record ip { ref = add32 ip.ref 1 }))
          | missing empty ↦ elim empty [
            | none ↦ panic
            | some i ↦
                let ip = ic i in
                ok (i, update ic i (record ip { inum = inum; ref = 1; valid = false }))
          ]
        ])
    from_scan (cached i) (le, lt, has) = Got-cached inum i ic lt has
    from_scan (missing none) (e, all) =
        λ j lt. ((all j (omega arith) lt).1, λ same. ground (arith, all j (omega arith) lt, same))
    from_scan (missing (some i)) (all, inl e) = cc
    from_scan (missing (some i)) (all, inr (le, lt, z)) =
        Got-empty inum i ic lt z (λ j in_j. all j (omega arith) in_j)
