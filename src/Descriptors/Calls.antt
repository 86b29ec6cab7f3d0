-- ===== src/Descriptors/Calls.antt =====
-- The calls on descriptors (system/core/sysfile.c) neither lose nor invent references of files.
use dave.Common.{
  ok-injective, leb, is_negative, ◌||◌, ℕ, ◌+◌, ◌-◌, ◌<◌, ◌≡◌, ◌≢◌, ◌⊎◌, refl, sym, ap, ◌∙◌, subst,
  arith, true, false, Bool-cases, inl, inr, Option, none, some, Option-cases, of_some, ◌==◌, ltb,
  update, add32, sub32, Result, ok, panic, Result-cases, word_size,
}
use dave.Fs.{Super}
use dave.Syscall.{User, argint}
use dave.Pipe.{pipeclose}
use dave.Icache.{iput}
use dave.File.{
  FileType, fd_none, fd_pipe, fd_inode, File, Ftable, Objects, nfile, filedup, drop_file, fileclose,
  close_object,
}
use dave.File.Closing.{filedup_lem, drop_file_lem}
use dave.Descriptors.{nofile, Ofile, argfd, find_fd, fdalloc, sys_dup, sys_close}
use dave.Descriptors.Balance.{
  is_file, uses, Balanced, uses-update, uses_pos, uses_le, find_fd_lem, argfd_lem,
}

-- The descriptor `fd` has been set, and the references of the one file concerned have followed.
set_Balanced :
    (others : ℕ → ℕ) (files : Ofile) (ft : Ftable) (fd i : ℕ) (x : Option ℕ) (f : File)
    → Balanced others files ft
    → fd < nofile
    → f.ref + is_file i (files fd) ≡ (ft i).ref + is_file i x
    → ((j : ℕ) → j ≢ i → is_file j (files fd) ≡ is_file j x)
    → ((j : ℕ) → x ≡ some j → j < nfile)
    → Balanced others (update files fd x) (update ft i f)
set_Balanced others files ft fd i x f v in_fd moved same inside = record {
  inside = λ d j in_d e. elim (Bool-cases (fd == d)) [
    | inl h ↦ let here : update files fd x d ≡ x = rw h refl in inside j (sym here ∙ e)
    | inr h ↦
        let here : update files fd x d ≡ files d = rw h refl in v.inside d j in_d (sym here ∙ e)
  ];
  refs = λ j in_j.
      let now = counts j in
      elim (Bool-cases (i == j)) [
        | inl h ↦
            let eq : i ≡ j = ground arith in
            let new : update ft i f j ≡ f = rw h refl in
            let m = subst (λ k. f.ref + is_file k (files fd) ≡ (ft k).ref + is_file k x) eq moved in
            ap (λ (p : File). p.ref) new ∙ omega (arith, now, m, v.refs j in_j)
        | inr h ↦
            let new : update ft i f j ≡ ft j = rw h refl in
            let s = same j (λ e. ground (arith, h, e)) in
            ap (λ (p : File). p.ref) new ∙ omega (arith, now, s, v.refs j in_j)
      ];
  few = v.few;
}
  where
    counts :
        (j : ℕ)
        → uses j (update files fd x) nofile + is_file j (files fd)
          ≡ uses j files nofile + is_file j x
    counts j =
        let test : ltb fd nofile ≡ true = ground (arith, in_fd) in
        let u = uses-update j files fd x nofile in rw test at u

filedup_ok : (i : ℕ) (ft : Ftable) → 0 < (ft i).ref → filedup i ft ≡ panic → ⊥
unfolding filedup
filedup_ok i ft pos e =
    let test : ltb (ft i).ref 1 ≡ false = ground (arith, pos) in
    let bad : ◌≡◌ {A = Result Ftable}
        (ok (update ft i (record (ft i) { ref = add32 (ft i).ref 1 }))) panic =
      rw test at e in
    cc

abbrev pub DupSpec : (ℕ → ℕ) → Ofile → Ftable → Result (Option ℕ × Ofile × Ftable) → Type 0
DupSpec others files ft panic = ⊥
DupSpec others files ft (ok (none, files', ft')) = (files' ≡ files) × (ft' ≡ ft)
DupSpec others files ft (ok (some fd, files', ft')) =
    (fd < nofile)
    × (files fd ≡ none)
    × Balanced others files' ft'
    × ((d : ℕ) → d ≢ fd → files' d ≡ files d)
    × ((old i : ℕ) × (old < nofile) × (files old ≡ some i) × (files' fd ≡ some i))

-- `sys_dup` of a process whose descriptors account for the references does not panic. It fails and
-- changes nothing, or gives a descriptor that was free, on the file of an open one, and the
-- descriptors account for the references again.
pub sys_dup_lem :
    (u : User) (others : ℕ → ℕ) (files : Ofile) (ft : Ftable)
    → Balanced others files ft
    → DupSpec others files ft (sys_dup u files ft)
unfolding sys_dup fdalloc
sys_dup_lem u others files ft v = elim (Option-cases (argfd 0 u files)) [
  | inl e ↦ rw (e, sys_dup) (refl, refl)
  | inr ((old, i), e) ↦
      let (in_old, at_old, _) = argfd_lem 0 u files old i e in
      let in_i = v.inside old i in_old at_old in
      let pos = uses_pos i files old nofile in_old at_old in
      let refs = v.refs i in_i in
      elim (Option-cases (find_fd nofile 0 files)) [
        | inl h ↦ rw (e, h, sys_dup) (refl, refl)
        | inr (fd, h) ↦
            let (in_fd, free) = find_fd_lem nofile 0 files fd h in
            let old_refs : 0 < (ft i).ref = omega (arith, refs, pos) in
            elim (Result-cases (filedup i ft)) [
              | inl g ↦ absurd (filedup_ok i ft old_refs g)
              | inr (ft', g) ↦
                  let same = filedup_lem i ft ft' g in
                  let few = v.few i in
                  let ref : add32 (ft i).ref 1 ≡ (ft i).ref + 1 =
                    omega (arith, refs, few, uses_le i files nofile) in
                  rw (e, h, g, sys_dup)
                    (
                      in_fd,
                      free,
                      subst (Balanced others (update files fd (some i))) (sym same) (
                          set_Balanced others files ft fd i (some i) _ v in_fd
                            (rw (free, ref) (ground arith)) (λ j ne. rw free (ground (arith, ne)))
                            (λ j k. subst (λ q. q < nfile) (of_some k) in_i)),
                      λ d ne. ground (arith, ne),
                      (old, i, in_old, at_old, ground arith),
                    )
            ]
      ]
]

-- What closing the last reference to a file does to what it is open on: nothing; the file's end of
-- its pipe is closed; or a reference to its inode is put.
abbrev pub Closed : Super → ℕ → File → FileType → Objects → Objects → Type 0
Closed sb end f fd_none o o' = o' ≡ o
Closed sb end f fd_pipe o o' =
    (pipeclose end f.writable (o.pipes f.pipe) o.procs o.pages
      ≡ ok (o'.pipes f.pipe, o'.procs, o'.pages))
    × ((q : ℕ) → q ≢ f.pipe → o'.pipes q ≡ o.pipes q)
    × (o'.cache ≡ o.cache)
    × (o'.disk ≡ o.disk)
Closed sb end f fd_inode o o' =
    (iput sb f.ip o.cache o.disk ≡ ok (o'.cache, o'.disk))
    × (o'.pipes ≡ o.pipes)
    × (o'.procs ≡ o.procs)
    × (o'.pages ≡ o.pages)

-- Where that panics.
abbrev pub CannotClose : Super → ℕ → File → FileType → Objects → Type 0
CannotClose sb end f fd_none o = ⊥
CannotClose sb end f fd_pipe o = pipeclose end f.writable (o.pipes f.pipe) o.procs o.pages ≡ panic
CannotClose sb end f fd_inode o = iput sb f.ip o.cache o.disk ≡ panic

-- The first argument of the call is the open descriptor `fd` on file `i`.
abbrev pub IsArgument : User → Ofile → ℕ → ℕ → Type 0
IsArgument u files fd i = (argint 0 u ≡ some fd) × (fd < nofile) × (files fd ≡ some i)

abbrev pub CloseSpec :
    Super
    → ℕ
    → User
    → (ℕ → ℕ)
    → Ofile
    → Ftable
    → Objects
    → Result (Option ℕ × Ofile × Ftable × Objects)
    → Type 0
CloseSpec sb end u others files ft o panic =
    (fd i : ℕ) × IsArgument u files fd i
    × ((ft i).ref ≡ 1)
    × CannotClose sb end (ft i) (ft i).type o
CloseSpec sb end u others files ft o (ok (none, files', ft', o')) =
    ((fd i : ℕ) → IsArgument u files fd i → ⊥) × (files' ≡ files) × (ft' ≡ ft) × (o' ≡ o)
CloseSpec sb end u others files ft o (ok (some r, files', ft', o')) =
    (fd i : ℕ) × IsArgument u files fd i
    × (r ≡ 0)
    × (files' ≡ update files fd none)
    × Balanced others files' ft'
    × ((j : ℕ) → j ≢ i → ft' j ≡ ft j)
    × (((ft i).ref ≡ 1) × Closed sb end (ft i) (ft i).type o o' ⊎ ((ft i).ref ≢ 1) × (o' ≡ o))

close_object_lem :
    (sb : Super) (end : ℕ) (f : File) (t : FileType) (o o' : Objects)
    → close_object sb end f t o ≡ ok o'
    → Closed sb end f t o o'
unfolding close_object
close_object_lem sb end f fd_none o o' e = sym (ok-injective e)
close_object_lem sb end f fd_pipe o o' e =
    elim (Result-cases (pipeclose end f.writable (o.pipes f.pipe) o.procs o.pages)) [
      | inl g ↦ let bad : ◌≡◌ {A = Result Objects} panic (ok o') = rw (g, close_object) at e in cc
      | inr ((p, ps, k), g) ↦
          let got : ◌≡◌ {A = Result Objects}
              (ok (record o { pipes = update o.pipes f.pipe p; procs = ps; pages = k })) (ok o') =
            rw (g, close_object) at e in
          let same = ok-injective got in
          subst (Closed sb end f fd_pipe o) same
            (g ∙ ground arith, λ q ne. ground (arith, ne), refl, refl)
    ]
close_object_lem sb end f fd_inode o o' e = elim (Result-cases (iput sb f.ip o.cache o.disk)) [
  | inl g ↦ let bad : ◌≡◌ {A = Result Objects} panic (ok o') = rw (g, close_object) at e in cc
  | inr ((ic, s), g) ↦
      let got : ◌≡◌ {A = Result Objects} (ok (record o { cache = ic; disk = s })) (ok o') =
        rw (g, close_object) at e in
      subst (Closed sb end f fd_inode o) (ok-injective got) (g, refl, refl, refl)
]

close_object_panics :
    (sb : Super) (end : ℕ) (f : File) (t : FileType) (o : Objects)
    → close_object sb end f t o ≡ panic
    → CannotClose sb end f t o
unfolding close_object
close_object_panics sb end f fd_none o e = let bad : ◌≡◌ {A = Result Objects} (ok o) panic = e in cc
close_object_panics sb end f fd_pipe o e =
    elim (Result-cases (pipeclose end f.writable (o.pipes f.pipe) o.procs o.pages)) [
      | inl g ↦ g
      | inr ((p, ps, k), g) ↦
          let bad : ◌≡◌ {A = Result Objects}
              (ok (record o { pipes = update o.pipes f.pipe p; procs = ps; pages = k })) panic =
            rw (g, close_object) at e in
          cc
    ]
close_object_panics sb end f fd_inode o e = elim (Result-cases (iput sb f.ip o.cache o.disk)) [
  | inl g ↦ g
  | inr ((ic, s), g) ↦
      let bad : ◌≡◌ {A = Result Objects} (ok (record o { cache = ic; disk = s })) panic =
        rw (g, close_object) at e in
      cc
]

argfd-none :
    (u : User) (files : Ofile) (fd i : ℕ) → argfd 0 u files ≡ none → IsArgument u files fd i → ⊥
unfolding argfd
argfd-none u files fd i e (arg, lt, at_fd) =
    let test : (is_negative fd || leb nofile fd) ≡ false = ground (arith, lt) in
    let bad : ◌≡◌ {A = Option (ℕ × ℕ)} (some (fd, i)) none = rw (arg, test, at_fd, argfd) at e in cc

drop_file_ok : (i : ℕ) (ft : Ftable) → 0 < (ft i).ref → drop_file i ft ≡ panic → ⊥
unfolding drop_file
drop_file_ok i ft pos e =
    let test : ltb (ft i).ref 1 ≡ false = ground (arith, pos) in
    elim (Bool-cases (ltb 0 (sub32 (ft i).ref 1))) [
      | inl more ↦
          let bad : ◌≡◌ {A = Result (Option File × Ftable)}
              (ok (none, update ft i (record (ft i) { ref = sub32 (ft i).ref 1 }))) panic =
            rw (test, more) at e in
          cc
      | inr last ↦
          let bad : ◌≡◌ {A = Result (Option File × Ftable)}
              (ok (some (ft i), update ft i (record (ft i) { ref = 0; type = fd_none }))) panic =
            rw (test, last) at e in
          cc
    ]

-- `sys_close` of a process whose descriptors account for the references fails, and changes nothing,
-- exactly where its argument is no open descriptor. Otherwise it clears that descriptor and returns
-- 0, the descriptors account for the references again, and no other file changes. What the file is
-- open on changes only with the file's last reference, and then its end of the pipe is closed or the
-- reference to its inode is put. The call panics only where that does.
pub sys_close_lem :
    (sb : Super) (kernel_end : ℕ) (u : User) (others : ℕ → ℕ) (files : Ofile) (ft : Ftable)
    (o : Objects)
    → Balanced others files ft
    → CloseSpec sb kernel_end u others files ft o (sys_close sb kernel_end u files ft o)
unfolding sys_close fileclose
sys_close_lem sb end u others files ft o v = elim (Option-cases (argfd 0 u files)) [
  | inl e ↦ rw (e, sys_close) (λ fd i. argfd-none u files fd i e, refl, refl, refl)
  | inr ((fd, i), e) ↦
      let (in_fd, at_fd, arg) = argfd_lem 0 u files fd i e in
      let in_i = v.inside fd i in_fd at_fd in
      let pos = uses_pos i files fd nofile in_fd at_fd in
      let refs = v.refs i in_i in
      let few = v.few i in
      let small : (ft i).ref < word_size = omega (arith, refs, few, uses_le i files nofile) in
      let held : 0 < (ft i).ref = omega (arith, refs, pos) in
      let balanced = λ (f : File) (ref : f.ref ≡ (ft i).ref - 1).
        set_Balanced others files ft fd i none f v in_fd (rw at_fd (ground (arith, ref, held)))
          (λ j ne. rw at_fd (ground (arith, ne))) (λ j k. absurd (cc)) in
      elim (Result-cases (drop_file i ft)) [
        | inl h ↦ absurd (drop_file_ok i ft held h)
        | inr ((last, ft'), h) ↦
            let (f, same, ref, which) = drop_file_lem i ft last ft' small h in
            let after =
              subst (Balanced others (update files fd none)) (sym same) (balanced f ref) in
            let rest : (j : ℕ) → j ≢ i → ft' j ≡ ft j =
              λ j ne. ap (λ (t : Ftable). t j) same ∙ ground (arith, ne) in
            elim (Bool-cases ((ft i).ref == 1)) [
              | inr more ↦
                  let kept : last ≡ none = which ∙ rw more refl in
                  let several : (ft i).ref ≢ 1 = λ q. ground (arith, more, q) in
                  rw (e, h, kept, sys_close)
                    (fd, i, (arg, in_fd, at_fd), refl, refl, after, rest, inr (several, refl))
              | inl one ↦
                  let given : last ≡ some (ft i) = which ∙ rw one refl in
                  let single : (ft i).ref ≡ 1 = ground arith in
                  elim (Result-cases (close_object sb end (ft i) (ft i).type o)) [
                    | inl g ↦
                        let stuck = close_object_panics sb end (ft i) (ft i).type o g in
                        rw (e, h, given, g, sys_close) (fd, i, (arg, in_fd, at_fd), single, stuck)
                    | inr (o', g) ↦
                        let closed = close_object_lem sb end (ft i) (ft i).type o o' g in
                        rw (e, h, given, g, sys_close)
                          (
                            fd,
                            i,
                            (arg, in_fd, at_fd),
                            refl,
                            refl,
                            after,
                            rest,
                            inl (single, closed),
                          )
                  ]
            ]
      ]
]
