-- ===== src/Strings/Copies.antt =====
-- `strncpy` and `safestrcpy` of system/runtime/string.c between ranges that do not overlap.
use dave.Common.{
  ℕ, zero, suc, ◌+◌, ◌-◌, ◌^◌, ◌<◌, ◌≤◌, ◌≡◌, ◌≢◌, ◌⊎◌, refl, arith, ◌&&◌, if◌then◌else◌, ◌==◌, ltb,
  leb, update,
}
use dave.Strings.{Memory, pad, strncpy_from, strncpy, safestrcpy_from, safestrcpy}
use dave.Strings.Fill.{filled}

-- The byte at distance `i` in the string at `t`; behind its end there are only NULs.
abbrev pub string_byte : ℕ → ℕ → Memory → ℕ
string_byte t zero m = m t
string_byte t (suc i) m = if m t == 0 then 0 else string_byte (t + 1) i m

string_byte_pos :
    (t i : ℕ) (m : Memory)
    → i ≢ 0
    → string_byte t i m ≡ (if m t == 0 then 0 else string_byte (t + 1) (i - 1) m)
string_byte_pos t zero m ne = absurd (ne refl)
string_byte_pos t (suc i) m ne = ground arith

string_byte_frame :
    (t i b v : ℕ) (m : Memory)
    → (b < t) ⊎ (t + i < b)
    → string_byte t i (update m b v) ≡ string_byte t i m
string_byte_frame t zero b v m out = ground arith
string_byte_frame t (suc i) b v m out = ground (arith, string_byte_frame (t + 1) i b v m)

pad_lem : (n s a : ℕ) (m : Memory) → pad s n m a ≡ filled s 0 n m a
unfolding pad
pad_lem zero s a m = ground arith
pad_lem (suc n) s a m = ground (arith, pad_lem n (s + 1) a (update m s 0))

-- The memory with the first `n` bytes of the string at `t`, padded by NULs, from `s` on.
abbrev pub copied : ℕ → ℕ → ℕ → Memory → Memory
copied s t n m a = if leb s a && ltb a (s + n) then string_byte t (a - s) m else m a

strncpy_from_lem :
    (n s t a : ℕ) (m : Memory)
    → (s + n ≤ t) ⊎ (t + n ≤ s)
    → strncpy_from s t n m a ≡ copied s t n m a
unfolding strncpy_from
strncpy_from_lem zero s t a m apart = ground arith
strncpy_from_lem (suc n) s t a m apart =
    let m' : Memory = update m s (m t) in
    let e : a - s - 1 ≡ a - (s + 1) = omega arith in
    ground (
      arith,
      e,
      pad_lem n (s + 1) a m',
      strncpy_from_lem n (s + 1) (t + 1) a m',
      string_byte_pos t (a - s) m,
      string_byte_frame (t + 1) (a - (s + 1)) s (m t) m,
    )

-- `strncpy` between disjoint ranges writes exactly `n` bytes: the string, then NULs.
pub strncpy_lem :
    (s t n a : ℕ) (m : Memory)
    → n < 2 ^ 31
    → (s + n ≤ t) ⊎ (t + n ≤ s)
    → strncpy s t n m a ≡ copied s t n m a
unfolding strncpy
strncpy_lem s t n a m small apart = ground (arith, strncpy_from_lem n s t a m)

safestrcpy_from_frame :
    (k s t a : ℕ) (m : Memory) → (a < s) ⊎ (s + k < a) → safestrcpy_from s t k m a ≡ m a
unfolding safestrcpy_from
safestrcpy_from_frame zero s t a m out = ground arith
safestrcpy_from_frame (suc k) s t a m out =
    ground (arith, safestrcpy_from_frame k (s + 1) (t + 1) a (update m s (m t)))

safestrcpy_from_lem :
    (k s t i : ℕ) (m : Memory)
    → (s + k < t) ⊎ (t + k < s)
    → i ≤ k
    → string_byte s i (safestrcpy_from s t k m) ≡ (if ltb i k then string_byte t i m else 0)
unfolding safestrcpy_from
safestrcpy_from_lem zero s t zero m apart le = ground arith
safestrcpy_from_lem zero s t (suc i) m apart le = absurd (omega arith)
safestrcpy_from_lem (suc k) s t zero m apart le =
    ground (arith, safestrcpy_from_frame k (s + 1) (t + 1) s (update m s (m t)))
safestrcpy_from_lem (suc k) s t (suc i) m apart le = ground (
  arith,
  safestrcpy_from_frame k (s + 1) (t + 1) s (update m s (m t)),
  safestrcpy_from_lem k (s + 1) (t + 1) i (update m s (m t)),
  string_byte_frame (t + 1) i s (m t) m,
)

safestrcpy_opened :
    (s t n : ℕ) (m : Memory)
    → 0 < n
    → n < 2 ^ 31
    → safestrcpy s t n m ≡ safestrcpy_from s t (n - 1) m
unfolding safestrcpy
safestrcpy_opened s t n m pos small = ground arith

-- `safestrcpy` with a positive `n`, between disjoint ranges, leaves at `s` the string of `t` cut to
-- `n - 1` bytes, ended by a NUL within the `n` bytes, and writes no byte outside of them.
pub safestrcpy_lem :
    (s t n : ℕ) (m : Memory)
    → 0 < n
    → n < 2 ^ 31
    → (s + n ≤ t) ⊎ (t + n ≤ s)
    → ((i : ℕ)
        → i < n
        → string_byte s i (safestrcpy s t n m) ≡ (if ltb i (n - 1) then string_byte t i m else 0))
      × ((a : ℕ) → (a < s) ⊎ (s + n ≤ a) → safestrcpy s t n m a ≡ m a)
safestrcpy_lem s t n m pos small apart = (
  λ i lt.
      rw (safestrcpy_opened s t n m pos small)
        (safestrcpy_from_lem (n - 1) s t i m (omega arith) (omega arith)),
  λ a out.
      rw (safestrcpy_opened s t n m pos small)
        (safestrcpy_from_frame (n - 1) s t a m (omega arith)),
)
