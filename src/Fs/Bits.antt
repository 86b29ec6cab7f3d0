-- ===== src/Fs/Bits.antt =====
-- The bits of one byte of the bitmap of system/storage/fs.c, by checking every byte.
use Prim.Native.Nat.{bit_and, bit_or}
use dave.Common.{
  ℕ, zero, suc, ◌-◌, ◌%◌, ◌^◌, ◌<◌, ◌≡◌, refl, ap, ◌∙◌, Bool-cases, inl, inr, arith, Bool, true,
  false, ◌&&◌, not, ltb, ◌==◌, if◌then◌else◌,
}
use dave.Fs.{is_clear, with_bit, without_bit}

-- How many of the numbers below `n` fail a test.
failures : (ℕ → Bool) → ℕ → ℕ
failures test zero = 0
failures test (suc n) = if test n then failures test n else suc (failures test n)

passes : (test : ℕ → Bool) (n i : ℕ) → i < n → failures test n ≡ 0 → test i ≡ true
unfolding failures
passes test zero i lt e = absurd (omega arith)
passes test (suc n) i lt e = elim (Bool-cases (test n)) [
  | inl last ↦
      let rest : failures test n ≡ 0 = rw last at e in
      elim (Bool-cases (i == n)) [
        | inl here ↦ let same : i ≡ n = ground arith in ap test same ∙ last
        | inr before ↦ passes test n i (ground (arith, before)) rest
      ]
  | inr last ↦ let bad : suc (failures test n) ≡ 0 = rw last at e in absurd (omega arith)
]

-- A test of a byte at two bits of it, at all of them.
abbrev all_pass : (ℕ → ℕ → ℕ → Bool) → ℕ
all_pass f = failures (λ j. failures (λ k. failures (f j k) 256 == 0) 8 == 0) 8

abbrev agree : Bool → Bool → Bool
agree true b = b
agree false b = not b

-- Setting bit `k` of `x` and clearing it, as seen at bit `j`.
abbrev set_ok : ℕ → ℕ → ℕ → Bool
set_ok j k x =
    agree (bit_and (bit_or x (2 ^ k)) (2 ^ j) == 0) (not (j == k) && bit_and x (2 ^ j) == 0)
    && ltb (bit_or x (2 ^ k)) 256

abbrev clear_ok : ℕ → ℕ → ℕ → Bool
clear_ok j k x =
    agree (bit_and (bit_and x (255 - 2 ^ k)) (2 ^ j) == 0)
      (if j == k then true else bit_and x (2 ^ j) == 0)
    && ltb (bit_and x (255 - 2 ^ k)) 256

set_table : all_pass set_ok ≡ 0
unfolding failures
set_table = refl

clear_table : all_pass clear_ok ≡ 0
unfolding failures
clear_table = refl

agree_sound : (a b : Bool) → agree a b ≡ true → a ≡ b
agree_sound true true e = refl
agree_sound true false e = cc
agree_sound false true e = cc
agree_sound false false e = refl

both : (a b : Bool) → a && b ≡ true → (a ≡ true) × (b ≡ true)
both true b e = (refl, e)
both false b e = cc

is_zero : (n : ℕ) → (n == 0) ≡ true → n ≡ 0
is_zero n e = ground arith

at_table :
    (f : ℕ → ℕ → ℕ → Bool) → all_pass f ≡ 0 → (j k x : ℕ) → j < 8 → k < 8 → x < 256 → f j k x ≡ true
at_table f e j k x lj lk lx =
    let at_j = passes (λ i. failures (λ l. failures (f i l) 256 == 0) 8 == 0) 8 j lj e in
    let at_k = passes (λ l. failures (f j l) 256 == 0) 8 k lk (is_zero _ at_j) in
    passes (f j k) 256 x lx (is_zero _ at_k)

pub is_clear-with_bit :
    (x b c : ℕ)
    → x < 256
    → (is_clear (with_bit x b) c ≡ not (c % 8 == b % 8) && is_clear x c) × (with_bit x b < 256)
is_clear-with_bit x b c small =
    let (test, low) =
      both _ _ (at_table set_ok set_table (c % 8) (b % 8) x (omega arith) (omega arith) small) in
    (agree_sound _ _ test, ground (arith, low))

pub is_clear-without_bit :
    (x b c : ℕ)
    → x < 256
    → (is_clear (without_bit x b) c ≡ (if c % 8 == b % 8 then true else is_clear x c))
      × (without_bit x b < 256)
is_clear-without_bit x b c small =
    let (test, low) =
      both _ _
        (at_table clear_ok clear_table (c % 8) (b % 8) x (omega arith) (omega arith) small) in
    (agree_sound _ _ test, ground (arith, low))
