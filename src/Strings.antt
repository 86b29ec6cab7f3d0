-- ===== src/Strings.antt =====
-- system/runtime/string.c over a flat memory of bytes. An address is a number; the pointers of one
-- call do not wrap. An `int` is its word of 32 bits.
pub mod Move
pub mod Fill
pub mod Compare
pub mod Copies
mod Examples
use dave.Common.{
  ℕ, zero, suc, ◌+◌, ◌-◌, ◌*◌, ◌/◌, ◌%◌, ◌^◌, Bool, ◌&&◌, ◌||◌, Option, none, some, if◌then◌else◌,
  ◌==◌, ltb, leb, update, sub32, is_negative,
}
use Prim.Native.Nat.{bit_or}

abbrev pub Memory : Type 0
Memory = ℕ → ℕ

-- `while(n-- > 0) *d++ = *s++;`
unfoldable pub copy_up : ℕ → ℕ → ℕ → Memory → Memory
copy_up zero d s m = m
copy_up (suc n) d s m = copy_up n (d + 1) (s + 1) (update m d (m s))

-- `while(n-- > 0) *--d = *--s;`
unfoldable pub copy_down : ℕ → ℕ → ℕ → Memory → Memory
copy_down zero d s m = m
copy_down (suc n) d s m = copy_down n (d - 1) (s - 1) (update m (d - 1) (m (s - 1)))

unfoldable pub memmove : ℕ → ℕ → ℕ → Memory → Memory
memmove dst src n m =
    if ltb src dst && ltb dst (src + n)
    then copy_down n (dst + n) (src + n) m
    else copy_up n dst src m

unfoldable pub memcpy : ℕ → ℕ → ℕ → Memory → Memory
memcpy dst src n m = memmove dst src n m

-- `rep stosb` and `rep stosl` of include/x86.h.
unfoldable pub stosb : ℕ → ℕ → ℕ → Memory → Memory
stosb addr c zero m = m
stosb addr c (suc n) m = stosb (addr + 1) c n (update m addr (c % 256))

unfoldable pub store_word : ℕ → ℕ → Memory → Memory
store_word a w m =
    update
      (update (update (update m a (w % 256)) (a + 1) (w / 2 ^ 8 % 256)) (a + 2) (w / 2 ^ 16 % 256))
      (a + 3) (w / 2 ^ 24 % 256)

unfoldable pub stosl : ℕ → ℕ → ℕ → Memory → Memory
stosl addr w zero m = m
stosl addr w (suc n) m = stosl (addr + 4) w n (store_word addr w m)

-- `(c<<24)|(c<<16)|(c<<8)|c` for a byte.
unfoldable pub spread : ℕ → ℕ
spread c = bit_or (bit_or (bit_or (c * 2 ^ 24) (c * 2 ^ 16)) (c * 2 ^ 8)) c

unfoldable pub memset : ℕ → ℕ → ℕ → Memory → Memory
memset dst c n m =
    if dst % 4 == 0 && n % 4 == 0 then stosl dst (spread (c % 256)) (n / 4) m else stosb dst c n m

unfoldable pub memcmp : ℕ → ℕ → ℕ → Memory → ℕ
memcmp s1 s2 zero m = 0
memcmp s1 s2 (suc n) m =
    let rest = memcmp (s1 + 1) (s2 + 1) n m in if m s1 == m s2 then rest else sub32 (m s1) (m s2)

-- The loop stops at `n == 0`, at a NUL in `p`, or at a difference.
unfoldable pub strncmp : ℕ → ℕ → ℕ → Memory → ℕ
strncmp p q zero m = 0
strncmp p q (suc n) m =
    let rest = strncmp (p + 1) (q + 1) n m in
    if ltb 0 (m p) && m p == m q then rest else sub32 (m p) (m q)

-- `while(n-- > 0) *s++ = 0;`
unfoldable pub pad : ℕ → ℕ → Memory → Memory
pad s zero m = m
pad s (suc n) m = pad (s + 1) n (update m s 0)

-- The first loop of `strncpy`; when it has copied a NUL the second one goes on.
unfoldable pub strncpy_from : ℕ → ℕ → ℕ → Memory → Memory
strncpy_from s t zero m = m
strncpy_from s t (suc n) m =
    let rest = strncpy_from (s + 1) (t + 1) n (update m s (m t)) in
    if m t == 0 then pad (s + 1) n (update m s (m t)) else rest

-- A negative count makes no round.
abbrev pub rounds : ℕ → ℕ
rounds n = if is_negative n then 0 else n

unfoldable pub strncpy : ℕ → ℕ → ℕ → Memory → Memory
strncpy s t n m = strncpy_from s t (rounds n) m

-- The loop of `safestrcpy` with `n` rounds left, and the NUL behind it.
unfoldable pub safestrcpy_from : ℕ → ℕ → ℕ → Memory → Memory
safestrcpy_from s t zero m = update m s 0
safestrcpy_from s t (suc n) m =
    let rest = safestrcpy_from (s + 1) (t + 1) n (update m s (m t)) in
    if m t == 0 then update (update m s (m t)) (s + 1) 0 else rest

unfoldable pub safestrcpy : ℕ → ℕ → ℕ → Memory → Memory
safestrcpy s t n m = if is_negative n || n == 0 then m else safestrcpy_from s t (n - 1) m

-- `none` when the fuel is used up before a NUL.
unfoldable pub strlen_from : ℕ → ℕ → ℕ → Memory → Option ℕ
strlen_from zero s n m = none
strlen_from (suc fuel) s n m =
    let rest = strlen_from fuel s (n + 1) m in if m (s + n) == 0 then some n else rest

unfoldable pub strlen : ℕ → ℕ → Memory → Option ℕ
strlen fuel s m = strlen_from fuel s 0 m
