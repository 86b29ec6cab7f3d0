-- ===== src/Console/Reading.antt =====
-- `consoleread` of system/devices/console.c, described on the released bytes.
use dave.Common.{
  ℕ, zero, suc, ◌≡◌, ◌≢◌, refl, ap, subst, arith, Bool, List, [], ◌∷◌, Bool-cases, inl, inr,
  if◌then◌else◌, ltb, ◌==◌, add32, sub32, get_or, window,
}
use dave.Proc.{Table}
use dave.Console.{
  Console, slot, newline, ctrl_d, Read, done, killed_with, asleep, prefix, consoleread,
}
use dave.Console.Line.{IsValid, ready, line}
use dave.Console.Views.{IsAwake}

-- The reader over the list of released bytes: it takes up to a newline, which it includes, or to a
-- C('D'), which it consumes only where it has nothing else to return.
abbrev pub take_line : Bool → ℕ → ℕ → List ℕ → Read × List ℕ
take_line killed target zero q = (done [], q)
take_line killed target (suc n) [] = (if killed then killed_with [] else asleep [] (suc n), [])
take_line killed target (suc n) (c ∷ q) =
    let rest = take_line killed target n q in
    if c == ctrl_d
    then (done [], (if ltb (suc n) target then c ∷ q else q))
    else if c == newline
    then (done (c ∷ []), q)
    else (prefix c rest.0, rest.1)

abbrev advance : Console → Console
advance s = record s { r = add32 s.r 1 }

advance-IsValid : (s : Console) → IsValid s → s.r ≢ s.w → IsValid (advance s)
advance-IsValid s v ne = record {
  storage = v.storage;
  small_r = omega arith;
  small_w = v.small_w;
  small_e = v.small_e;
  order = omega (arith, v.order, v.small_r, v.small_w, v.small_e);
  within = omega (arith, v.order, v.small_r, v.small_w, v.small_e, v.within);
  unbroken = v.unbroken;
}

ready-advance :
    (s : Console) → IsValid s → s.r ≢ s.w → ready s ≡ get_or s.buf (slot s.r) 0 ∷ ready (advance s)
ready-advance s v ne =
    let less : sub32 s.w s.r ≡ suc (sub32 s.w (add32 s.r 1)) =
      omega (arith, v.small_r, v.small_w) in
    ap (window slot s.buf s.r) less

nothing_ready : (s : Console) → IsValid s → s.r ≡ s.w → ready s ≡ []
nothing_ready s v e =
    let z : sub32 s.w s.r ≡ 0 = omega (arith, v.small_w) in ap (window slot s.buf s.r) z

-- What a run leaves: but for the read counter, and the process table where it sleeps, nothing has
-- changed.
pub record ReadSpec (input_r : ℕ) (s s' : Console) (t : Read) (expected : Read × List ℕ)
    : Type 0 where
  pub valid : IsValid s'
  pub result : (t, ready s') ≡ expected
  pub same_line : line s' ≡ line s
  pub wakes : IsAwake input_r s → IsAwake input_r s'

stopped : (input_r : ℕ) (s : Console) (t : Read) → IsValid s → ReadSpec input_r s s t (t, ready s)
stopped input_r s t v = record { valid = v; result = refl; same_line = refl; wakes = λ w. w }

slept :
    (input_r n : ℕ) (s : Console) (ps : Table)
    → IsValid s
    → s.r ≡ s.w
    → ReadSpec input_r s (record s { procs = ps }) (asleep [] n) (asleep [] n, [])
slept input_r n s ps v e = record {
  valid = record {
    storage = v.storage;
    small_r = v.small_r;
    small_w = v.small_w;
    small_e = v.small_e;
    order = v.order;
    within = v.within;
    unbroken = v.unbroken;
  };
  result = ap (λ q. (asleep [] n, q)) (nothing_ready s v e);
  same_line = refl;
  wakes = λ w ne. absurd (ne e);
}

moved :
    (input_r : ℕ) (s : Console) (t : Read)
    → IsValid s
    → s.r ≢ s.w
    → ReadSpec input_r s (advance s) t (t, ready (advance s))
moved input_r s t v ne = record {
  valid = advance-IsValid s v ne;
  result = refl;
  same_line = refl;
  wakes = λ w h. w ne;
}

put_back : (s : Console) → IsValid s → record s { r = sub32 (add32 s.r 1) 1 } ≡ s
put_back s v =
    let e : sub32 (add32 s.r 1) 1 ≡ s.r = omega (arith, v.small_r) in ap (λ i. record s { r = i }) e

prefixed :
    (input_r c : ℕ) (s s' : Console) (t : Read) (expected : Read × List ℕ)
    → s.r ≢ s.w
    → ReadSpec input_r (advance s) s' t expected
    → ReadSpec input_r s s' (prefix c t) (prefix c expected.0, expected.1)
prefixed input_r c s s' t expected ne x = record {
  valid = x.valid;
  result = ap (λ (y : Read × List ℕ). (prefix c y.0, y.1)) x.result;
  same_line = x.same_line;
  wakes = λ w. x.wakes (λ h. w ne);
}

-- A run of `consoleread` takes from the released bytes what the list reader `take_line` takes: up
-- to `n` bytes, no more than one line, and a C('D') only where nothing was read before it. It
-- leaves the line that is being typed alone, and sleeps only when nothing is released.
pub consoleread_lem :
    (input_r caller : ℕ) (killed : Bool) (target n : ℕ) (s : Console)
    → IsValid s
    → let (t, s') = consoleread input_r caller killed target n s in
      ReadSpec input_r s s' t (take_line killed target n (ready s))
unfolding consoleread
consoleread_lem input_r caller killed target zero s v = stopped input_r s (done []) v
consoleread_lem input_r caller killed target (suc n) s v = elim (Bool-cases (s.r == s.w)) [
  | inl e ↦
      let same : s.r ≡ s.w = ground arith in
      rw (e, nothing_ready s v same)
        (elim (Bool-cases killed) [
          | inl dead ↦ rw dead (
              subst (λ q. ReadSpec input_r s s (killed_with []) (killed_with [], q))
                (nothing_ready s v same) (stopped input_r s (killed_with []) v))
          | inr alive ↦ rw alive (slept input_r (suc n) s _ v same)
        ])
  | inr differ ↦
      let ne : s.r ≢ s.w = λ h. ground arith in
      let c : ℕ = get_or s.buf (slot s.r) 0 in
      rw (differ, ready-advance s v ne)
        (elim (Bool-cases (c == ctrl_d)) [
          | inl eof ↦ rw eof (elim (Bool-cases (ltb (suc n) target)) [
            | inl some_read ↦
                rw (some_read, put_back s v)
                  (subst (λ q. ReadSpec input_r s s (done []) (done [], q)) (ready-advance s v ne)
                    (stopped input_r s (done []) v))
            | inr first ↦ rw first (moved input_r s (done []) v ne)
          ])
          | inr char ↦ elim (Bool-cases (c == newline)) [
            | inl nl ↦ rw (char, nl) (moved input_r s (done (c ∷ [])) v ne)
            | inr other ↦
                rw (char, other)
                  (prefixed input_r c s _ _ _ ne (
                    consoleread_lem input_r caller killed target n (advance s)
                      (advance-IsValid s v ne)))
          ]
        ])
]
