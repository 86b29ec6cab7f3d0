-- ===== src/Descriptors/Balance.antt =====
-- `sys_dup` and `sys_close` (system/core/sysfile.c) keep the references of the files in step with the
-- descriptors.
use dave.Common.{
  ℕ, zero, suc, ◌+◌, ◌<◌, ◌≤◌, ◌≡◌, refl, sym, ap, ◌∙◌, subst, arith, true, false, ◌||◌, Bool-cases,
  inl, inr, Option, none, some, Option-cases, of_some, if◌then◌else◌, ◌==◌, ltb, leb, update,
  is_negative,
}
use dave.Syscall.{User, argint}
use dave.File.{Ftable, nfile}
use dave.Descriptors.{nofile, Ofile, argfd, find_fd}

abbrev pub is_file : ℕ → Option ℕ → ℕ
is_file i none = 0
is_file i (some j) = if j == i then 1 else 0

-- How many of the first `k` descriptors have the file.
abbrev pub uses : ℕ → Ofile → ℕ → ℕ
uses i files zero = 0
uses i files (suc k) = is_file i (files k) + uses i files k

-- The references of each file are the descriptors of this process that have it, and `others`.
pub record Balanced (others : ℕ → ℕ) (files : Ofile) (ft : Ftable) : Type 0 where
  pub inside : (fd i : ℕ) → fd < nofile → files fd ≡ some i → i < nfile
  pub refs : (i : ℕ) → i < nfile → (ft i).ref ≡ uses i files nofile + others i
  pub few : (i : ℕ) → others i < 2147483648

pub uses-update :
    (i : ℕ) (files : Ofile) (fd : ℕ) (x : Option ℕ) (k : ℕ)
    → uses i (update files fd x) k + (if ltb fd k then is_file i (files fd) else 0)
      ≡ uses i files k + (if ltb fd k then is_file i x else 0)
uses-update i files fd x zero = let z : ltb fd 0 ≡ false = ground arith in rw z refl
uses-update i files fd x (suc k) =
    let ih = uses-update i files fd x k in
    elim (Bool-cases (fd == k)) [
      | inl e ↦
          let same : fd ≡ k = ground arith in
          subst
            (λ q.
              is_file i (update files fd x q)
                + uses i (update files fd x) q
                + (if ltb fd (suc q) then is_file i (files fd) else 0)
              ≡ is_file i (files q) + uses i files q + (if ltb fd (suc q) then is_file i x else 0))
            same
            (at_fd (
              subst
                (λ q.
                  uses i (update files fd x) q + (if ltb fd q then is_file i (files fd) else 0)
                  ≡ uses i files q + (if ltb fd q then is_file i x else 0))
                (sym same) ih))
      | inr e ↦
          let test : ltb fd (suc k) ≡ ltb fd k = ground (arith, e) in
          let here : update files fd x k ≡ files k = rw e refl in
          rw (here, test) (omega (arith, ih))
    ]
  where
    at_fd :
        uses i (update files fd x) fd + (if ltb fd fd then is_file i (files fd) else 0)
          ≡ uses i files fd + (if ltb fd fd then is_file i x else 0)
        → is_file i (update files fd x fd)
            + uses i (update files fd x) fd
            + (if ltb fd (suc fd) then is_file i (files fd) else 0)
          ≡ is_file i (files fd) + uses i files fd + (if ltb fd (suc fd) then is_file i x else 0)
    at_fd h =
        let no : ltb fd fd ≡ false = ground arith in
        let yes : ltb fd (suc fd) ≡ true = ground arith in
        let here : update files fd x fd ≡ x = ground arith in
        let h' : uses i (update files fd x) fd + 0 ≡ uses i files fd + 0 = rw no at h in
        rw (yes, here) (omega (arith, h'))

pub uses_pos : (i : ℕ) (files : Ofile) (fd k : ℕ) → fd < k → files fd ≡ some i → 0 < uses i files k
uses_pos i files fd zero lt e = absurd (omega arith)
uses_pos i files fd (suc k) lt e = elim (Bool-cases (fd == k)) [
  | inl h ↦
      let same : fd ≡ k = ground arith in
      let one : is_file i (files k) ≡ 1 =
        ap (λ q. is_file i (files q)) (sym same) ∙ ap (is_file i) e ∙ ground arith in
      omega (arith, one)
  | inr h ↦ omega (arith, uses_pos i files fd k (ground (arith, h)) e)
]

pub find_fd_lem :
    (k fd : ℕ) (files : Ofile) (r : ℕ)
    → find_fd k fd files ≡ some r
    → (r < fd + k) × (files r ≡ none)
unfolding find_fd
find_fd_lem zero fd files r e = cc
find_fd_lem (suc k) fd files r e = elim (Option-cases (files fd)) [
  | inl h ↦
      let got : some fd ≡ some r = rw (h, find_fd) at e in
      let same = of_some got in (omega (arith, same), ap files (sym same) ∙ h)
  | inr (i, h) ↦
      let (lt, free) = find_fd_lem k (suc fd) files r (rw (h, find_fd) at e) in (omega arith, free)
]

pub argfd_lem :
    (n : ℕ) (u : User) (files : Ofile) (fd i : ℕ)
    → argfd n u files ≡ some (fd, i)
    → (fd < nofile) × (files fd ≡ some i) × (argint n u ≡ some fd)
unfolding argfd
argfd_lem n u files fd i e = elim (Option-cases (argint n u)) [
  | inl h ↦ let bad : ◌≡◌ {A = Option (ℕ × ℕ)} none (some (fd, i)) = rw (h, argfd) at e in cc
  | inr (d, h) ↦ elim (Bool-cases (is_negative d || leb nofile d)) [
    | inl out ↦
        let bad : ◌≡◌ {A = Option (ℕ × ℕ)} none (some (fd, i)) = rw (h, out, argfd) at e in cc
    | inr ins ↦ elim (Option-cases (files d)) [
      | inl g ↦
          let bad : ◌≡◌ {A = Option (ℕ × ℕ)} none (some (fd, i)) = rw (h, ins, g, argfd) at e in cc
      | inr (j, g) ↦
          let got : ◌≡◌ {A = Option (ℕ × ℕ)} (some (d, j)) (some (fd, i)) =
            rw (h, ins, g, argfd) at e in
          let pair = of_some got in
          let same = ap (λ (p : ℕ × ℕ). p.0) pair in
          (
            ground (arith, ins, same),
            ap files (sym same) ∙ g ∙ ap (λ (p : ℕ × ℕ). some p.1) pair,
            h ∙ ap some same,
          )
    ]
  ]
]

pub uses_le : (i : ℕ) (files : Ofile) (k : ℕ) → uses i files k ≤ k
uses_le i files zero = omega arith
uses_le i files (suc k) = omega (arith, uses_le i files k, at_most (files k))
  where
    at_most : (x : Option ℕ) → is_file i x ≤ 1
    at_most none = omega arith
    at_most (some j) = ground arith
