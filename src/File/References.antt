-- ===== src/File/References.antt =====
-- The references to the open files of system/core/file.c, and who holds them.
use dave.Common.{
  ℕ, zero, suc, ◌+◌, ◌<◌, ◌≤◌, ◌≡◌, ◌≢◌, sym, ap, ◌∙◌, arith, Bool-cases, inl, inr, Option, some,
  if◌then◌else◌, ◌==◌, update, ok, List, [], ◌∷◌, length, word_size, of_some,
}
use dave.File.{File, Ftable, nfile, find_file, filealloc, filedup, drop_file}

abbrev pub count : ℕ → List ℕ → ℕ
count i [] = 0
count i (j ∷ hs) = (if j == i then 1 else 0) + count i hs

abbrev pub give_back : ℕ → List ℕ → List ℕ
give_back i [] = []
give_back i (j ∷ hs) = let rest = give_back i hs in if j == i then hs else j ∷ rest

-- The descriptors of all processes, each with its file.
pub record Open : Type 0 where
  pub files : Ftable
  pub held : List ℕ

pub data Step : Open → Open → Type 0 where
  allocs :
      (w : Open) (i : ℕ) (ft : Ftable)
      → suc (length w.held) < word_size
      → filealloc w.files ≡ some (i, ft)
      → Step w (record { files = ft; held = i ∷ w.held })
  dups :
      (w : Open) (i : ℕ) (ft : Ftable)
      → suc (length w.held) < word_size
      → i < nfile
      → filedup i w.files ≡ ok ft
      → Step w (record { files = ft; held = i ∷ w.held })
  closes :
      (w : Open) (i : ℕ) (last : Option File) (ft : Ftable)
      → 0 < count i w.held
      → drop_file i w.files ≡ ok (last, ft)
      → Step w (record { files = ft; held = give_back i w.held })
  changes :
      (w : Open) (i : ℕ) (f : File)
      → f.ref ≡ (w.files i).ref
      → Step w (record w { files = update w.files i f })

pub data Reach : Open → Open → Type 0 where
  here : (w : Open) → Reach w w
  later : (u v w : Open) → Reach u v → Step v w → Reach u w

-- The references of a file are the descriptors that have it.
pub record IsCounted (w : Open) : Type 0 where
  pub counted : (i : ℕ) → i < nfile → (w.files i).ref ≡ count i w.held
  pub inside : (i : ℕ) → 0 < count i w.held → i < nfile
  pub bounded : length w.held < word_size

pub count_le : (i : ℕ) (hs : List ℕ) → count i hs ≤ length hs
count_le i [] = omega arith
count_le i (j ∷ hs) = ground (arith, count_le i hs)

pub count-give_back :
    (i : ℕ) (hs : List ℕ) (j : ℕ)
    → 0 < count i hs
    → count j hs ≡ (if i == j then 1 else 0) + count j (give_back i hs)
count-give_back i [] j h = absurd (omega arith)
count-give_back i (k ∷ hs) j h = elim (Bool-cases (k == i)) [
  | inl e ↦ rw e (ground (arith, e))
  | inr e ↦ rw e (ground (arith, e, count-give_back i hs j))
]

pub length-give_back : (i : ℕ) (hs : List ℕ) → length (give_back i hs) ≤ length hs
length-give_back i [] = omega arith
length-give_back i (j ∷ hs) = elim (Bool-cases (j == i)) [
  | inl e ↦ rw e (omega arith)
  | inr e ↦ rw e (omega (arith, length-give_back i hs))
]

-- One file has changed, and its references are those of the new list.
pub one_file :
    (w : Open) (i : ℕ) (f : File) (hs : List ℕ)
    → IsCounted w
    → f.ref ≡ count i hs
    → ((j : ℕ) → j ≢ i → count j hs ≡ count j w.held)
    → ((j : ℕ) → 0 < count j hs → j < nfile)
    → length hs < word_size
    → IsCounted (record { files = update w.files i f; held = hs })
one_file w i f hs v ref others inside bounded = record {
  counted = λ j in_j. elim (Bool-cases (j == i)) [
    | inl e ↦
        let same : j ≡ i = ground arith in ground (arith, e) ∙ ref ∙ ap (λ k. count k hs) (sym same)
    | inr e ↦
        let ne : j ≢ i = λ h. ground (arith, e, h) in
        ground (arith, e) ∙ v.counted j in_j ∙ sym (others j ne)
  ];
  inside = inside;
  bounded = bounded;
}

-- The file that `find_file` finds has no references.
pub find_file_lem :
    (k i : ℕ) (ft : Ftable) (j : ℕ)
    → find_file k i ft ≡ some j
    → (i ≤ j) × (j < i + k) × ((ft j).ref ≡ 0)
unfolding find_file
find_file_lem zero i ft j e = cc
find_file_lem (suc k) i ft j e = elim (Bool-cases ((ft i).ref == 0)) [
  | inl z ↦
      let got : some i ≡ some j = rw (z, find_file) at e in
      let same = of_some got in
      (omega (arith, same), omega (arith, same), ap (λ q. (ft q).ref) (sym same) ∙ ground arith)
  | inr used ↦
      let (le, lt, z) = find_file_lem k (suc i) ft j (rw (used, find_file) at e) in
      (omega arith, omega arith, z)
]
