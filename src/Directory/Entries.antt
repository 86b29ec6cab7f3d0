-- ===== src/Directory/Entries.antt =====
-- A directory of system/storage/fs.c with one entry written over a free one or behind the last one.
use dave.Common.{
  ℕ, zero, suc, ◌+◌, ◌-◌, ◌*◌, ◌%◌, ◌<◌, ◌≤◌, ◌≡◌, ◌⊎◌, refl, sym, ap, ap₂, ◌∙◌, arith, true, false,
  Bool-cases, inl, inr, List, ◌∷◌, ◌==◌, Option, none, some,
}
use dave.Inodes.Reading.{segment}
use dave.Directory.{dirent_size}
use dave.Directory.Lookup.{inum_at, name_at, matches, lookup, free_entry}

segment-same :
    (f g : ℕ → ℕ) (off n : ℕ)
    → ((i : ℕ) → off ≤ i → i < off + n → g i ≡ f i)
    → segment g off n ≡ segment f off n
segment-same f g off zero same = refl
segment-same f g off (suc n) same =
    ap₂ (λ x l. x ∷ l) (same off (omega arith) (omega arith))
      (segment-same f g (off + 1) n (λ i from to. same i (omega arith) (omega arith)))

pub lookup-same :
    (f g : ℕ → ℕ) (name : List ℕ) (k o : ℕ)
    → ((i : ℕ) → i < o + dirent_size * k → g i ≡ f i)
    → lookup g name k o ≡ lookup f name k o
lookup-same f g name zero o same = refl
lookup-same f g name (suc k) o same =
    let inum : inum_at g o ≡ inum_at f o =
      ap₂ (λ (x y : ℕ). x + 256 * y) (same o (omega arith)) (same (o + 1) (omega arith)) in
    let names : name_at g o ≡ name_at f o =
      segment-same f g (o + 1 + 1) 14 (λ i from to. same i (omega arith)) in
    rw (inum, names, lookup-same f g name k (o + dirent_size) (λ i lt. same i (omega arith))) refl

-- The first free entry lies in the directory, or is the end.
pub free_entry_lem :
    (f : ℕ → ℕ) (k o : ℕ)
    → (let off = free_entry f k o in
        (o ≤ off)
        × ((off - o) % dirent_size ≡ 0)
        × (((off + dirent_size ≤ o + dirent_size * k) × (inum_at f off ≡ 0))
            ⊎ (off ≡ o + dirent_size * k)))
free_entry_lem f zero o = (omega arith, omega arith, inr (omega arith))
free_entry_lem f (suc k) o = elim (Bool-cases (inum_at f o == 0)) [
  | inl z ↦ rw z (omega arith, omega arith, inl (omega arith, ground arith))
  | inr used ↦
      let (from, whole, place) = free_entry_lem f k (o + dirent_size) in
      rw used (
        omega arith,
        omega (arith, from, whole),
        elim place [
          | inl (to, free) ↦ inl (omega arith, free)
          | inr last ↦ inr (omega (arith, last))
        ],
      )
]

-- `g` is `f` but for the entry at `off`, which was free or is behind the `k` entries from `o` on.
module _ (f g : ℕ → ℕ) (off : ℕ)
    (same : (n : ℕ) → (n < off) ⊎ (off + dirent_size ≤ n) → g n ≡ f n) where
  same_inum :
      (o : ℕ) → (o + dirent_size ≤ off) ⊎ (off + dirent_size ≤ o) → inum_at g o ≡ inum_at f o
  same_inum o away =
      ap₂ (λ (x y : ℕ). x + 256 * y)
        (same o (elim away [ inl a ↦ inl (omega arith) | inr b ↦ inr b ]))
        (same (o + 1) (elim away [ inl a ↦ inl (omega arith) | inr b ↦ inr (omega arith) ]))

  same_name :
      (o : ℕ) → (o + dirent_size ≤ off) ⊎ (off + dirent_size ≤ o) → name_at g o ≡ name_at f o
  same_name o away =
      segment-same f g (o + 1 + 1) 14
        (λ i from to. same i (elim away [ inl a ↦ inl (omega arith) | inr b ↦ inr (omega arith) ]))

  same_match :
      (name : List ℕ) (o : ℕ)
      → (o + dirent_size ≤ off) ⊎ (off + dirent_size ≤ o)
      → matches g name o ≡ matches f name o
  same_match name o away = rw (same_inum o away, same_name o away) refl

  lookup_behind :
      (name : List ℕ) (k o : ℕ) → off + dirent_size ≤ o → lookup g name k o ≡ lookup f name k o
  lookup_behind name zero o le = refl
  lookup_behind name (suc k) o le =
      rw
        (
          same_match name o (inr le),
          same_inum o (inr le),
          lookup_behind name k (o + dirent_size) (omega arith),
        )
        refl

  -- What the new entry does to the lookup of a name: nothing where it has another name, and it is
  -- found where the name had not been found.
  abbrev pub Linked : List ℕ → ℕ → ℕ → ℕ → Type 0
  Linked name k k' o =
      (matches g name off ≡ false → lookup g name k' o ≡ lookup f name k o)
      × (matches g name off ≡ true
          → lookup f name k o ≡ none
          → lookup g name k' o ≡ some (off, inum_at g off))

  -- An entry further on.
  Linked-later :
      (name : List ℕ) (k k' o : ℕ)
      → o + dirent_size ≤ off
      → Linked name k k' (o + dirent_size)
      → Linked name (suc k) (suc k') o
  Linked-later name k k' o le (other, found) = elim (Bool-cases (matches f name o)) [
    | inl m ↦
        let m' = same_match name o (inl le) ∙ m in
        (
          λ no_match. rw (m', m, same_inum o (inl le)) refl,
          λ match nothing.
              let bad : ◌≡◌ {A = Option (ℕ × ℕ)} (some (o, inum_at f o)) none = rw m at nothing in
              cc,
        )
    | inr m ↦
        let m' = same_match name o (inl le) ∙ m in
        (
          λ no_match. rw (m', m) (other no_match),
          λ match nothing.
              let before : lookup f name k (o + dirent_size) ≡ none = rw m at nothing in
              rw m' (found match before),
        )
  ]

  pub replaced :
      (name : List ℕ) (k o : ℕ)
      → inum_at f off ≡ 0
      → o ≤ off
      → (off - o) % dirent_size ≡ 0
      → off + dirent_size ≤ o + dirent_size * k
      → Linked name k k o
  replaced name zero o free from whole to = absurd (omega arith)
  replaced name (suc k) o free from whole to = elim (Bool-cases (o == off)) [
    | inr later ↦
        let le : o + dirent_size ≤ off = ground arith in
        Linked-later name k k o le
          (replaced name k (o + dirent_size) free le (omega arith) (omega arith))
    | inl here ↦
        let e : off ≡ o = ground arith in
        let none_here : matches f name o ≡ false = ap (matches f name) (sym e) ∙ rw free refl in
        let rest = lookup_behind name k (o + dirent_size) (omega arith) in
        (
          λ other.
              let no_match : matches g name o ≡ false = ap (matches g name) (sym e) ∙ other in
              rw (no_match, none_here) rest,
          λ match nothing.
              let found : matches g name o ≡ true = ap (matches g name) (sym e) ∙ match in
              rw (found, e) refl,
        )
  ]

  pub appended : (name : List ℕ) (k o : ℕ) → off ≡ o + dirent_size * k → Linked name k (suc k) o
  appended name zero o e =
      let here : off ≡ o = omega (arith, e) in
      (
        λ other.
            let no_match : matches g name o ≡ false = ap (matches g name) (sym here) ∙ other in
            rw no_match refl,
        λ match nothing.
            let found : matches g name o ≡ true = ap (matches g name) (sym here) ∙ match in
            rw (found, here) refl,
      )
  appended name (suc k) o e =
      Linked-later name k (suc k) o (omega (arith, e))
        (appended name k (o + dirent_size) (omega (arith, e)))
