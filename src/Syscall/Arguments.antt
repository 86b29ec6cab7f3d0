-- ===== src/Syscall/Arguments.antt =====
-- What the argument checks of system/core/syscall.c let through, for a process that lies below the
-- kernel.
use dave.Common.{
  ℕ, zero, suc, ◌+◌, ◌-◌, ◌^◌, ◌<◌, ◌≤◌, ◌≡◌, ◌≢◌, ◌↔◌, sym, ap, ap₂, ◌∙◌, arith, true, false,
  Option, none, some, of_some, ◌==◌, Bool-cases, Option-cases, inl, inr, subst, word_size, ltb, leb,
}
use dave.Memlayout.{kernbase}
use dave.Syscall.{User, load_int, fetchint, scan, fetchstr, argint, argptr, argstr}

pub fetchint_iff :
    (addr x : ℕ) (u : User)
    → u.sz ≤ kernbase
    → (fetchint addr u ≡ some x) ↔ ((addr + 4 ≤ u.sz) × (x ≡ load_int u.mem addr))
unfolding fetchint
fetchint_iff addr x u low = (λ e. ground arith, λ e. ground arith)

-- `argptr` gives a pointer exactly when the argument can be read, the size is not negative and
-- the whole block lies in the memory of the process; the pointer is then the argument.
pub argptr_iff :
    (n size p : ℕ) (u : User)
    → u.sz ≤ kernbase
    → size < word_size
    → (argptr n size u ≡ some p)
      ↔ ((argint n u ≡ some p) × (size < 2 ^ 31) × (p < u.sz) × (p + size ≤ u.sz))
unfolding argptr
argptr_iff n size p u low word = elim (Option-cases (argint n u)) [
  | inl e ↦ rw e (λ h. ground arith, λ h. ground arith)
  | inr (i, e) ↦ rw e (λ h. ground arith, λ h. ground arith)
]

-- The first NUL from `s` on stands at `stop`.
abbrev pub EndsAt : (ℕ → ℕ) → ℕ → ℕ → Type 0
EndsAt mem s stop = (mem stop ≡ 0) × ((j : ℕ) → s ≤ j → j < stop → mem j ≢ 0)

EndsAt-next : (mem : ℕ → ℕ) (s stop : ℕ) → mem s ≢ 0 → EndsAt mem (suc s) stop → EndsAt mem s stop
EndsAt-next mem s stop ne (nul, before) = (
  nul,
  λ j from to. elim (Bool-cases (j == s)) [
    | inl e ↦ subst (λ i. mem i ≢ 0) (same j e) ne
    | inr e ↦ before j (ground arith) to
  ],
)
  where
    same : (j : ℕ) → (j == s) ≡ true → s ≡ j
    same j e = ground arith

scan_sound :
    (mem : ℕ → ℕ) (addr s k len : ℕ)
    → addr ≤ s
    → scan mem addr s k ≡ some len
    → (s ≤ addr + len) × (addr + len < s + k) × EndsAt mem s (addr + len)
unfolding scan
scan_sound mem addr s zero len le e = cc
scan_sound mem addr s (suc k) len le e = elim (Bool-cases (mem s == 0)) [
  | inl nul ↦
      let found : s ≡ addr + len = ground arith in
      (omega arith, omega arith, rw (sym found) (ground arith, λ j from to. absurd (omega arith)))
  | inr more ↦
      let (from, to, ends) = scan_sound mem addr (suc s) k len (omega arith) (rw more at e) in
      (omega arith, omega arith, EndsAt-next mem s (addr + len) (λ z. ground arith) ends)
]

scan_complete :
    (mem : ℕ → ℕ) (addr s k len : ℕ)
    → addr ≤ s
    → s ≤ addr + len
    → addr + len < s + k
    → EndsAt mem s (addr + len)
    → scan mem addr s k ≡ some len
unfolding scan
scan_complete mem addr s zero len le from to ends = absurd (omega arith)
scan_complete mem addr s (suc k) len le from to (nul, before) = elim (Bool-cases (mem s == 0)) [
  | inl z ↦ rw z (ap some (here z))
  | inr more ↦ rw more (
      scan_complete mem addr (suc s) k len (omega arith) (past more) (omega arith)
        (nul, λ j a b. before j (omega arith) b))
]
  where
    here : (mem s == 0) ≡ true → s - addr ≡ len
    here z = elim (Bool-cases (ltb s (addr + len))) [
      | inl early ↦ absurd (before s (omega arith) (ground arith) (ground arith))
      | inr late ↦ ground arith
    ]

    not_nul : (mem s == 0) ≡ false → s ≢ addr + len
    not_nul more h = ground (arith, nul, ap mem h)

    past : (mem s == 0) ≡ false → suc s ≤ addr + len
    past more = elim (Bool-cases (s == addr + len)) [
      | inl e ↦ absurd (not_nul more (ground arith))
      | inr e ↦ ground arith
    ]

abbrev no_string : Option (ℕ × ℕ)
no_string = none

fetchstr_iff :
    (addr p len : ℕ) (u : User)
    → (fetchstr addr u ≡ some (p, len))
      ↔ ((p ≡ addr) × (addr + len < u.sz) × EndsAt u.mem addr (addr + len))
unfolding fetchstr
fetchstr_iff addr p len u = elim (Bool-cases (leb u.sz addr)) [
  | inl out ↦ rw out (λ h. cc, λ (same, room, ends). absurd (ground arith))
  | inr ins ↦ elim (Option-cases (scan u.mem addr addr (u.sz - addr))) [
    | inl e ↦ rw (ins, e) (λ h. cc, λ (same, room, ends). cc_none e (whole ins room ends))
    | inr (l, e) ↦
        rw (ins, e)
          (
            λ h.
                let is_len : l ≡ len = ap (λ (x : ℕ × ℕ). x.1) (of_some h) in
                let is_addr : addr ≡ p = ap (λ (x : ℕ × ℕ). x.0) (of_some h) in
                let (from, to, ends) =
                  scan_sound u.mem addr addr (u.sz - addr) len (omega arith) (e ∙ ap some is_len) in
                (sym is_addr, ground (arith, to, ins), ends),
            λ (same, room, ends).
                let is_len : l ≡ len = of_some (sym e ∙ whole ins room ends) in
                ap₂ (λ x y. some (x, y)) (sym same) is_len,
          )
  ]
]
  where
    whole :
        leb u.sz addr ≡ false
        → addr + len < u.sz
        → EndsAt u.mem addr (addr + len)
        → scan u.mem addr addr (u.sz - addr) ≡ some len
    whole ins room ends =
        scan_complete u.mem addr addr (u.sz - addr) len (omega arith) (omega arith) (ground arith)
          ends

    cc_none : {o : Option ℕ} → o ≡ none → o ≡ some len → no_string ≡ some (p, len)
    cc_none a b = cc

-- `argstr` gives a string exactly when the argument can be read, and a NUL stands in the memory of
-- the process at or behind it; the pointer is then the argument and the length is up to the first
-- such NUL.
pub argstr_iff :
    (n p len : ℕ) (u : User)
    → (argstr n u ≡ some (p, len))
      ↔ ((argint n u ≡ some p) × (p + len < u.sz) × EndsAt u.mem p (p + len))
unfolding argstr
argstr_iff n p len u = elim (Option-cases (argint n u)) [
  | inl e ↦ rw e (λ h. cc, λ (h, room, ends). cc)
  | inr (addr, e) ↦
      let (there, back) = fetchstr_iff addr p len u in
      rw e (
        λ h.
            let (same, room, ends) = there h in
            (
              ap some (sym same),
              rw same room,
              subst (λ x. EndsAt u.mem x (x + len)) (sym same) ends,
            ),
        λ (h, room, ends).
            let same : p ≡ addr = sym (of_some h) in
            back (same, rw (sym same) room, subst (λ x. EndsAt u.mem x (x + len)) same ends),
      )
]
