-- ===== src/Pipe/Bytes.antt =====
-- A pipe of system/core/pipe.c is a first-in first-out queue of at most 512 bytes: what runs of
-- `pipewrite` and `piperead` do to its contents.
use mathlib.Core.List.{append-nil, append_assoc}
use dave.Common.{
  ℕ, zero, suc, ◌%◌, ◌≡◌, ◌≢◌, ◌⊎◌, refl, ap, arith, Bool, true, false, ◌&&◌, ◌||◌, not, List, [],
  ◌∷◌, ◌++◌, length, get_or, ◌∙◌, sym, inl, inr, Bool-cases, min,
}
use dave.Proc.{Table}
use dave.Pipe.{
  Pipe, pipesize, is_full, is_empty, push, pop, pipewrite, Written, wrote, refused, stuck,
  take_bytes, piperead, Taken, took, gave_up, idle,
}
use dave.Pipe.Ring.{
  IsValid, contents, full_count, empty_count, push-IsValid, contents-push, pop-IsValid,
  contents-pop, length-contents, no_contents,
}

-- What a run of `pipewrite` has done with the bytes.
abbrev pub WriteSpec : Bool → List ℕ → Pipe → Written → Pipe → Type 0
WriteSpec killed bytes p wrote q = contents q ≡ contents p ++ bytes
WriteSpec killed bytes p refused q =
    (done : List ℕ) × (rest : List ℕ) × (bytes ≡ done ++ rest)
    × (contents q ≡ contents p ++ done)
    × (length (contents q) ≡ pipesize)
    × ((q.readopen ≡ false) ⊎ (killed ≡ true))
WriteSpec killed bytes p (stuck rest) q =
    (done : List ℕ) × (bytes ≡ done ++ rest)
    × (rest ≢ [])
    × (contents q ≡ contents p ++ done)
    × (length (contents q) ≡ pipesize)
    × (q.readopen ≡ true)
    × (killed ≡ false)

WriteSpec-cons :
    (killed : Bool) (x : ℕ) (xs : List ℕ) (p p' : Pipe) (w : Written) (q : Pipe)
    → contents p' ≡ contents p ++ x ∷ []
    → WriteSpec killed xs p' w q
    → WriteSpec killed (x ∷ xs) p w q
WriteSpec-cons killed x xs p p' wrote q e h =
    h ∙ ap (λ l. l ++ xs) e ∙ append_assoc (contents p) (x ∷ []) xs
WriteSpec-cons killed x xs p p' refused q e (done, rest, split, all, len, why) = (
  x ∷ done,
  rest,
  ap (λ l. x ∷ l) split,
  all ∙ ap (λ l. l ++ done) e ∙ append_assoc (contents p) (x ∷ []) done,
  len,
  why,
)
WriteSpec-cons killed x xs p p' (stuck rest) q e (done, split, more, all, len, op, alive) = (
  x ∷ done,
  ap (λ l. x ∷ l) split,
  more,
  all ∙ ap (λ l. l ++ done) e ∙ append_assoc (contents p) (x ∷ []) done,
  len,
  op,
  alive,
)

full_length : (p : Pipe) → IsValid p → is_full p ≡ true → length (contents p) ≡ pipesize
full_length p v full = length-contents p ∙ (full_count p v).0 full

-- A run of `pipewrite` appends a prefix of its bytes in order and keeps the pipe valid. It returns
-- when all of them are in; it fails, or sleeps with bytes left, only when the pipe holds 512
-- bytes, and fails exactly when the read end is closed or the caller is killed.
pub pipewrite_lem :
    (caller : ℕ) (killed : Bool) (bytes : List ℕ) (p : Pipe) (ps : Table)
    → IsValid p
    → let (w, q, qs) = pipewrite caller killed bytes p ps in
      IsValid q × WriteSpec killed bytes p w q
unfolding pipewrite
pipewrite_lem caller killed [] p ps v = (v, sym (append-nil (contents p)))
pipewrite_lem caller killed (x ∷ xs) p ps v = elim (Bool-cases (is_full p)) [
  | inr room ↦ rw room (
      let (w, spec) = pipewrite_lem caller killed xs (push x p) ps (push-IsValid p x v room) in
      (w, WriteSpec-cons killed x xs p (push x p) _ _ (contents-push p x v room) spec))
  | inl full ↦ elim (Bool-cases (not p.readopen || killed)) [
    | inl fails ↦
        rw (full, fails)
          (v, ([], x ∷ xs, refl, sym (append-nil (contents p)), full_length p v full, ground arith))
    | inr waits ↦
        rw (full, waits)
          (
            v,
            (
              [],
              refl,
              λ e. cc,
              sym (append-nil (contents p)),
              full_length p v full,
              ground arith,
              ground arith,
            ),
          )
  ]
]

take_bytes_lem :
    (n : ℕ) (p : Pipe)
    → IsValid p
    → let (bytes, q) = take_bytes n p in
      IsValid q
      × (contents p ≡ bytes ++ contents q)
      × (length bytes ≡ min n (length (contents p)))
      × (q.readopen ≡ p.readopen)
      × (q.writeopen ≡ p.writeopen)
unfolding take_bytes
take_bytes_lem zero p v = (v, refl, omega arith, refl, refl)
take_bytes_lem (suc n) p v = elim (Bool-cases (is_empty p)) [
  | inl none_left ↦
      rw none_left
        (v, refl, omega (arith, length-contents p, (empty_count p v).0 none_left), refl, refl)
  | inr some_left ↦
      let (w, split, len, ro, wo) = take_bytes_lem n (pop p) (pop-IsValid p v some_left) in
      let e = contents-pop p v some_left in
      let a : ℕ = get_or p.buf (p.nread % pipesize) 0 in
      rw some_left (
        w,
        e ∙ ap (λ l. a ∷ l) split,
        omega (arith, len, ap length e),
        ro ∙ unfold pop in refl,
        wo ∙ unfold pop in refl,
      )
]

abbrev pub ReadSpec : Bool → ℕ → Pipe → Taken → Pipe → Type 0
ReadSpec killed n p (took bytes) q =
    (contents p ≡ bytes ++ contents q)
    × (length bytes ≡ min n (length (contents p)))
    × ((contents p ≢ []) ⊎ (p.writeopen ≡ false))
ReadSpec killed n p gave_up q = (q ≡ p) × (contents p ≡ []) × (p.writeopen ≡ true) × (killed ≡ true)
ReadSpec killed n p idle q = (q ≡ p) × (contents p ≡ []) × (p.writeopen ≡ true) × (killed ≡ false)

empty_contents : (p : Pipe) → IsValid p → is_empty p ≡ true → contents p ≡ []
empty_contents p v e = no_contents p ((empty_count p v).0 e)

some_contents : (p : Pipe) → IsValid p → is_empty p ≡ false → contents p ≢ []
some_contents p v e h = ground (arith, ap length h, length-contents p)

-- A run of `piperead` takes the oldest bytes, `n` of them or all there are, and keeps the pipe
-- valid. It gives up, if killed, or sleeps exactly when the pipe is empty and the write end open.
pub piperead_lem :
    (caller : ℕ) (killed : Bool) (n : ℕ) (p : Pipe) (ps : Table)
    → IsValid p
    → let (t, q, qs) = piperead caller killed n p ps in IsValid q × ReadSpec killed n p t q
unfolding piperead
piperead_lem caller killed n p ps v = elim (Bool-cases (is_empty p && p.writeopen)) [
  | inr ready ↦
      let (w, split, len, ro, wo) = take_bytes_lem n p v in
      rw ready (
        w,
        (
          split,
          len,
          elim (Bool-cases (is_empty p)) [
            | inl e ↦ inr (ground arith)
            | inr e ↦ inl (some_contents p v e)
          ],
        ),
      )
  | inl waits ↦ elim (Bool-cases killed) [
    | inl dead ↦ rw (waits, dead) (v, (refl, empty_contents p v (ground arith), ground arith, refl))
    | inr alive ↦
        rw (waits, alive) (v, (refl, empty_contents p v (ground arith), ground arith, refl))
  ]
]
