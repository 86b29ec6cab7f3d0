-- ===== src/Strings/Fill.antt =====
-- `memset` of system/runtime/string.c: the word-sized fast path agrees with the byte loop.
use dave.Common.{
  ℕ, zero, suc, ◌+◌, ◌*◌, ◌/◌, ◌%◌, ◌^◌, ◌<◌, ◌≡◌, refl, arith, Bool, true, ◌&&◌, if◌then◌else◌,
  ◌==◌, ltb, leb, update, ==_iff,
}
use dave.Strings.{Memory, stosb, stosl, store_word, spread, memset}

-- The memory with `n` bytes `c` from `dst` on.
abbrev pub filled : ℕ → ℕ → ℕ → Memory → Memory
filled dst c n m a = if leb dst a && ltb a (dst + n) then c else m a

stosb_lem : (n addr c a : ℕ) (m : Memory) → stosb addr c n m a ≡ filled addr (c % 256) n m a
unfolding stosb
stosb_lem zero addr c a m = ground arith
stosb_lem (suc n) addr c a m = ground (arith, stosb_lem n (addr + 1) c a (update m addr (c % 256)))

-- Each byte of the word is `c`: all 256 values are tried.
all_below : ℕ → (ℕ → Bool) → Bool
all_below zero p = true
all_below (suc n) p = p n && all_below n p

all_below_sound : (n x : ℕ) (p : ℕ → Bool) → all_below n p ≡ true → x < n → p x ≡ true
unfolding all_below
all_below_sound zero x p h lt = absurd (omega arith)
all_below_sound (suc n) x p h lt = ground (arith, all_below_sound n x p)

spread_table : all_below 256 (λ c. spread c == c * 0x01010101) ≡ true
unfolding all_below spread
spread_table = refl

spread_lem : (c : ℕ) → c < 256 → spread c ≡ c * 0x01010101
spread_lem c lt = (==_iff _ _).0 (all_below_sound 256 c _ spread_table lt)

store_word_lem :
    (addr c a : ℕ) (m : Memory)
    → c < 256
    → store_word addr (c * 0x01010101) m a ≡ filled addr c 4 m a
unfolding store_word
store_word_lem addr c a m lt =
    let b0 : c * 0x01010101 % 256 ≡ c = omega arith in
    let b1 : c * 0x01010101 / 2 ^ 8 % 256 ≡ c = omega arith in
    let b2 : c * 0x01010101 / 2 ^ 16 % 256 ≡ c = omega arith in
    let b3 : c * 0x01010101 / 2 ^ 24 % 256 ≡ c = omega arith in rw (b0, b1, b2, b3) (ground arith)

stosl_lem :
    (n addr c a : ℕ) (m : Memory)
    → c < 256
    → stosl addr (c * 0x01010101) n m a ≡ filled addr c (4 * n) m a
unfolding stosl
stosl_lem zero addr c a m lt = ground arith
stosl_lem (suc n) addr c a m lt = ground (
  arith,
  stosl_lem n (addr + 4) c a (store_word addr (c * 0x01010101) m),
  store_word_lem addr c a m,
)

-- `memset` sets the `n` bytes from `dst` on to the low byte of `c`, on both of its paths, and no
-- other byte.
pub memset_lem : (dst c n a : ℕ) (m : Memory) → memset dst c n m a ≡ filled dst (c % 256) n m a
unfolding memset
memset_lem dst c n a m =
    rw (spread_lem (c % 256) (omega arith))
      (ground (arith, stosb_lem n dst c a m, stosl_lem (n / 4) dst (c % 256) a m))
