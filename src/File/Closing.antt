-- ===== src/File/Closing.antt =====
-- `filealloc`, `filedup` and `fileclose` of system/core/file.c keep count of the descriptors, and a
-- file is closed with the last of them.
use dave.Common.{
  ℕ, ◌+◌, ◌-◌, ◌<◌, ◌≡◌, refl, sym, ap, ◌∙◌, subst, arith, true, false, Bool-cases, inl, inr,
  Option, none, some, Option-cases, if◌then◌else◌, ◌==◌, ltb, update, add32, sub32, Result, ok,
  panic, ◌∷◌, word_size, ok-injective, of_some,
}
use dave.File.{File, fd_none, Ftable, nfile, find_file, filealloc, filedup, drop_file}
use dave.File.References.{
  count, give_back, Open, Step, allocs, dups, closes, changes, Reach, here, later, IsCounted,
  count_le, count-give_back, length-give_back, one_file, find_file_lem,
}

filealloc_lem :
    (ft : Ftable) (i : ℕ) (ft' : Ftable)
    → filealloc ft ≡ some (i, ft')
    → (i < nfile) × ((ft i).ref ≡ 0) × ((f : File) × (f.ref ≡ 1) × (ft' ≡ update ft i f))
unfolding filealloc
filealloc_lem ft i ft' e = elim (Option-cases (find_file nfile 0 ft)) [
  | inl h ↦
      let bad : ◌≡◌ {A = Option (ℕ × Ftable)} none (some (i, ft')) = rw (h, filealloc) at e in cc
  | inr (j, h) ↦
      let f : File = record (ft j) { ref = 1 } in
      let got : ◌≡◌ {A = Option (ℕ × Ftable)} (some (j, update ft j f)) (some (i, ft')) =
        rw (h, filealloc) at e in
      let pair = of_some got in
      let same = ap (λ (p : ℕ × Ftable). p.0) pair in
      let (le, lt, z) = find_file_lem nfile 0 ft j h in
      (
        omega (arith, same),
        ap (λ k. (ft k).ref) (sym same) ∙ z,
        (f, refl, sym (ap (λ (p : ℕ × Ftable). p.1) pair) ∙ ap (λ k. update ft k f) same),
      )
]

pub filedup_lem :
    (i : ℕ) (ft ft' : Ftable)
    → filedup i ft ≡ ok ft'
    → (let f = ft i in ft' ≡ update ft i (record f { ref = add32 f.ref 1 }))
unfolding filedup
filedup_lem i ft ft' e = elim (Bool-cases (ltb (ft i).ref 1)) [
  | inl low ↦ let bad : ◌≡◌ {A = Result Ftable} panic (ok ft') = rw low at e in cc
  | inr high ↦
      let got : ◌≡◌ {A = Result Ftable}
          (ok (update ft i (record (ft i) { ref = add32 (ft i).ref 1 }))) (ok ft') =
        rw high at e in
      sym (ok-injective got)
]

-- A file is handed over when its references were one.
pub drop_file_lem :
    (i : ℕ) (ft : Ftable) (last : Option File) (ft' : Ftable)
    → (ft i).ref < word_size
    → drop_file i ft ≡ ok (last, ft')
    → (f : File) × (ft' ≡ update ft i f)
      × (f.ref ≡ (ft i).ref - 1)
      × (last ≡ (if (ft i).ref == 1 then some (ft i) else none))
unfolding drop_file
drop_file_lem i ft last ft' small e = elim (Bool-cases (ltb (ft i).ref 1)) [
  | inl low ↦
      let bad : ◌≡◌ {A = Result (Option File × Ftable)} panic (ok (last, ft')) = rw low at e in cc
  | inr high ↦
      let pos : 0 < (ft i).ref = ground arith in
      let left : sub32 (ft i).ref 1 ≡ (ft i).ref - 1 = omega arith in
      elim (Bool-cases (ltb 0 (sub32 (ft i).ref 1))) [
        | inl more ↦
            let f : File = record (ft i) { ref = sub32 (ft i).ref 1 } in
            let got : ◌≡◌ {A = Result (Option File × Ftable)} (ok (none, update ft i f))
                (ok (last, ft')) =
              rw (high, more) at e in
            let pair = ok-injective got in
            let test : ((ft i).ref == 1) ≡ false = ground (arith, left, more) in
            (
              f,
              sym (ap (λ (p : Option File × Ftable). p.1) pair),
              left,
              sym (ap (λ (p : Option File × Ftable). p.0) pair) ∙ rw test refl,
            )
        | inr none_left ↦
            let f : File = record (ft i) { ref = 0; type = fd_none } in
            let got : ◌≡◌ {A = Result (Option File × Ftable)} (ok (some (ft i), update ft i f))
                (ok (last, ft')) =
              rw (high, none_left) at e in
            let pair = ok-injective got in
            let one : (ft i).ref ≡ 1 = ground (arith, left, none_left) in
            let test : ((ft i).ref == 1) ≡ true = ground (arith, one) in
            (
              f,
              sym (ap (λ (p : Option File × Ftable). p.1) pair),
              omega (arith, one),
              sym (ap (λ (p : Option File × Ftable). p.0) pair) ∙ rw test refl,
            )
      ]
]

counted_small : (w : Open) (i : ℕ) → IsCounted w → i < nfile → (w.files i).ref < word_size
counted_small w i v lt = omega (arith, v.counted i lt, count_le i w.held, v.bounded)

Step-IsCounted : (w w' : Open) → Step w w' → IsCounted w → IsCounted w'
Step-IsCounted _ _ (allocs w i ft lt e) v =
    let (in_i, z, (f, one, same)) = filealloc_lem w.files i ft e in
    let c = v.counted i in_i in
    subst (λ t. IsCounted (record { files = t; held = i ∷ w.held })) (sym same)
      (one_file w i f (i ∷ w.held) v (ground (arith, one, z, c)) (λ j ne. ground (arith, ne))
        (λ j pos. elim (Bool-cases (i == j)) [
          | inl h ↦ ground (arith, h, in_i)
          | inr h ↦ v.inside j (ground (arith, h, pos))
        ])
        lt)
Step-IsCounted _ _ (dups w i ft lt in_i e) v =
    let c = v.counted i in_i in
    let le = count_le i w.held in
    subst (λ t. IsCounted (record { files = t; held = i ∷ w.held }))
      (sym (filedup_lem i w.files ft e))
      (one_file w i _ (i ∷ w.held) v (ground (arith, c, le, lt)) (λ j ne. ground (arith, ne))
        (λ j pos. elim (Bool-cases (i == j)) [
          | inl h ↦ ground (arith, h, in_i)
          | inr h ↦ v.inside j (ground (arith, h, pos))
        ])
        lt)
Step-IsCounted _ _ (closes w i last ft held e) v =
    let in_i = v.inside i held in
    let c = v.counted i in_i in
    let (f, same, ref, _) = drop_file_lem i w.files last ft (counted_small w i v in_i) e in
    subst (λ t. IsCounted (record { files = t; held = give_back i w.held })) (sym same)
      (one_file w i f (give_back i w.held) v
        (ground (arith, ref, c, count-give_back i w.held i held))
        (λ j ne. ground (arith, count-give_back i w.held j held, ne))
        (λ j pos. v.inside j (omega (arith, count-give_back i w.held j held, pos)))
        (omega (arith, length-give_back i w.held, v.bounded)))
Step-IsCounted _ _ (changes w i f ref) v = record {
  counted = λ j in_j. elim (Bool-cases (j == i)) [
    | inl e ↦
        let same : j ≡ i = ground arith in
        ground (arith, e) ∙ ref ∙ ap (λ k. (w.files k).ref) (sym same) ∙ v.counted j in_j
    | inr e ↦ ground (arith, e) ∙ v.counted j in_j
  ];
  inside = v.inside;
  bounded = v.bounded;
}

IsCounted-always : (u w : Open) → Reach u w → IsCounted u → IsCounted w
IsCounted-always _ _ (here u) c = c
IsCounted-always _ _ (later u v w r s) c = Step-IsCounted v w s (IsCounted-always u v r c)

-- However files are allocated, duplicated, closed and used: the references of a file are the
-- descriptors that have it, and `fileclose` hands it over to be closed exactly when it gives back
-- the last of them.
pub fileclose_last :
    (u w : Open) (i : ℕ) (last : Option File) (ft : Ftable)
    → Reach u w
    → IsCounted u
    → 0 < count i w.held
    → drop_file i w.files ≡ ok (last, ft)
    → IsCounted w × (last ≡ (if count i (give_back i w.held) == 0 then some (w.files i) else none))
fileclose_last u w i last ft r c held e =
    let v = IsCounted-always u w r c in
    let in_i = v.inside i held in
    let refs = v.counted i in_i in
    let (f, same, ref, which) = drop_file_lem i w.files last ft (counted_small w i v in_i) e in
    let tests : ((w.files i).ref == 1) ≡ (count i (give_back i w.held) == 0) =
      same_test _ _ _ refs (count-give_back i w.held i held) in
    (v, which ∙ ap (λ b. if b then some (w.files i) else none) tests)
  where
    same_test : (r c d : ℕ) → r ≡ c → c ≡ (if i == i then 1 else 0) + d → (r == 1) ≡ (d == 0)
    same_test r c d x y = ground (arith, x, y)
